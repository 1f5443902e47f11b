-- ===== src/Window/Stable.antt =====
-- Fixed windows of whole seconds (src/window.rs) do not move while time passes within them.
use native.Mathlib.Nat.{div-add-mod'}
use budget_warden.Base.{
  ℕ, zero, suc, ◌+◌, ◌-◌, ◌*◌, ◌/◌, ◌%◌, ◌≤◌, ◌<◌, ◌≡◌, refl, arith, ℤ, pos, negsuc, ◌+ℤ◌, ◌-ℤ◌,
  ◌≤ℤ◌, ok, int_laws, ap, sym, ◌∙◌, ok-injective, subst, fail_if-ok, and_then-ok, leb_ℤ,
  Option-cases, inl, inr,
}
use budget_warden.Window.{WindowBounds, new, fixed_bounds, rem_euclid}
use budget_warden.Window.Bounds.{CountsSeconds, nanos_parts}
use budget_warden.Time.{Timestamp, Duration, Chrono, nanos}

quotient_unique : (d q p : ℕ) → 0 < d → q * d < p * d + d → p * d < q * d + d → q ≡ p
quotient_unique d q p h a b = grind arith

same_block : (n m d : ℕ) → 0 < d → (n / d) * d ≤ m → m < (n / d) * d + d → m / d ≡ n / d
same_block n m d h a b = quotient_unique d (m / d) (n / d) h (grind arith) (grind arith)

start_pos : (n d : ℕ) → pos n -ℤ pos (n % suc d) ≡ pos ((n / suc d) * suc d)
unfolding ◌-ℤ◌
start_pos n d = grind (arith, div-add-mod' n (suc d))

start_neg : (n d : ℕ) → negsuc n -ℤ pos (d - n % suc d) ≡ negsuc ((n / suc d) * suc d + d)
unfolding ◌-ℤ◌
start_neg n d = grind (arith, div-add-mod' n (suc d))

block_pos :
    (n d : ℕ) (b : ℤ)
    → pos ((n / suc d) * suc d) ≤ℤ b
    → b +ℤ pos 1 ≤ℤ pos ((n / suc d) * suc d) +ℤ pos (suc d)
    → (r : ℤ) × (rem_euclid b (pos (suc d)) ≡ ok r) × (b -ℤ r ≡ pos ((n / suc d) * suc d))
unfolding rem_euclid
block_pos n d (pos m) h k = (
  pos (m % suc d),
  refl,
  start_pos m d
      ∙ ap (λ q. pos (q * suc d))
          (same_block n m (suc d) (omega arith) (omega int_laws) (omega int_laws)),
)
block_pos n d (negsuc m) h k = absurd (omega int_laws)

block_neg :
    (n d : ℕ) (b : ℤ)
    → negsuc ((n / suc d) * suc d + d) ≤ℤ b
    → b +ℤ pos 1 ≤ℤ negsuc ((n / suc d) * suc d + d) +ℤ pos (suc d)
    → (r : ℤ) × (rem_euclid b (pos (suc d)) ≡ ok r) × (b -ℤ r ≡ negsuc ((n / suc d) * suc d + d))
unfolding rem_euclid
block_neg n d (negsuc m) h k = (
  pos (d - m % suc d),
  refl,
  start_neg m d
      ∙ ap (λ q. negsuc (q * suc d + d))
          (same_block n m (suc d) (omega arith) (omega int_laws) (omega int_laws)),
)
block_neg n d (pos m) h k = absurd (omega int_laws)

new-bounds :
    (start end : Timestamp) (w : WindowBounds)
    → new start end ≡ ok w
    → (w.start ≡ start) × (w.end ≡ end)
unfolding new
new-bounds start end w h =
    let (_, e) = fail_if-ok (leb_ℤ end start) _ _ h in
    subst (λ x. (x.start ≡ start) × (x.end ≡ end)) (ok-injective e) (refl, refl)

-- The start of the block of length `d` in which a number lies is that of every number of the block.
pub rem_euclid_stable :
    (a b d r : ℤ)
    → pos 0 ≤ℤ d
    → rem_euclid a d ≡ ok r
    → a -ℤ r ≤ℤ b
    → b +ℤ pos 1 ≤ℤ (a -ℤ r) +ℤ d
    → (x : ℤ) × (rem_euclid b d ≡ ok x) × (b -ℤ x ≡ a -ℤ r)
unfolding rem_euclid
rem_euclid_stable a b (pos zero) r p e h k = cc
rem_euclid_stable a b (negsuc d) r p e h k = absurd (omega arith)
rem_euclid_stable (pos n) b (pos (suc d)) r p e h k =
    let same = ap (λ x. pos n -ℤ x) (sym (ok-injective e)) ∙ start_pos n d in
    let (x, f, g) = block_pos n d b (rw same at h) (rw same at k) in (x, f, g ∙ sym same)
rem_euclid_stable (negsuc n) b (pos (suc d)) r p e h k =
    let same = ap (λ x. negsuc n -ℤ x) (sym (ok-injective e)) ∙ start_neg n d in
    let (x, f, g) = block_neg n d b (rw same at h) (rw same at k) in (x, f, g ∙ sym same)

-- The seconds of an instant in a window of `n` seconds lie in the block of the window.
in_block :
    (s b n : ℤ) (other : Timestamp)
    → nanos s ≤ℤ other
    → other +ℤ pos 1 ≤ℤ nanos s +ℤ nanos n
    → nanos b ≤ℤ other
    → other +ℤ pos 1 ≤ℤ nanos (b +ℤ pos 1)
    → (s ≤ℤ b) × (b +ℤ pos 1 ≤ℤ s +ℤ n)
in_block s b n other h k f g = omega (int_laws, nanos_parts)

-- Within a fixed window of a whole number of seconds every instant has the same bounds, so that all
-- calls in the window share one counter (given what chrono documents of seconds).
pub fixed_bounds_stable :
    (c : Chrono) (d : Duration) (now other : Timestamp) (w : WindowBounds)
    → CountsSeconds c
    → nanos (c.num_seconds d) ≡ d
    → fixed_bounds c d now ≡ ok w
    → w.start ≤ℤ other
    → other +ℤ pos 1 ≤ℤ w.end
    → fixed_bounds c d other ≡ ok w
unfolding fixed_bounds
fixed_bounds_stable c d now other w k whole h l r =
    let (e1, h1) = fail_if-ok (leb_ℤ d (pos 0)) _ _ h in
    let (offset, e2, h2) = and_then-ok (rem_euclid (c.timestamp now) (c.num_seconds d)) _ h1 in
    let s : ℤ = c.timestamp now -ℤ offset in
    elim (Option-cases (c.from_timestamp s)) [
      | inl e3 ↦ cc (rw e3 at h2)
      | inr (start, e3) ↦
          let h3 : new start (start +ℤ d) ≡ ok w = rw e3 at h2 in
          let at_start = k.instant s start e3 in
          let bounds = new-bounds start (start +ℤ d) w h3 in
          let n = c.num_seconds d in
          let (low, high) =
            in_block s (c.timestamp other) n other (subst (λ x. x ≤ℤ other) (bounds.0 ∙ at_start) l)
              (subst (λ x. other +ℤ pos 1 ≤ℤ x)
                (bounds.1 ∙ (ap (λ x. x +ℤ d) at_start ∙ ap (λ x. nanos s +ℤ x) (sym whole))) r)
              (k.floor other) (k.next other) in
          let (x, f, g) =
            rem_euclid_stable (c.timestamp now) (c.timestamp other) n offset
              (k.whole d (ground (arith, e1))).0 e2 low high in
          rw (e1, f, g, e3, fixed_bounds) h3
    ]
