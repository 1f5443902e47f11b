-- ===== src/Window/Bounds.antt =====
-- The bounds of fixed windows (src/window.rs), by what chrono documents of seconds.
use budget_warden.Base.{
  zero, suc, ◌*◌, ◌≡◌, refl, ℤ, pos, negsuc, ◌+ℤ◌, ◌-ℤ◌, ◌≤ℤ◌, leb_ℤ, int_laws, some, ok, panic,
  Option-cases, and_then-ok, fail_if-ok, ok-injective, subst, pos_part, neg_part, arith, false, inl,
  inr,
}
use budget_warden.Time.{Timestamp, Duration, Chrono, nanos}
use budget_warden.Window.{
  WindowBounds, fixed, rolling, new, rem_euclid, fixed_bounds, validate, bounds_at,
}

rem_euclid-lt : (a d r : ℤ) → pos 0 ≤ℤ d → rem_euclid a d ≡ ok r → (pos 0 ≤ℤ r) × (r +ℤ pos 1 ≤ℤ d)
unfolding rem_euclid ◌+ℤ◌
rem_euclid-lt a (pos zero) r h e = cc
rem_euclid-lt (pos n) (pos (suc d)) r h e = ground arith
rem_euclid-lt (negsuc n) (pos (suc d)) r h e = ground arith
rem_euclid-lt a (negsuc d) r h e = absurd (omega arith)

-- What chrono documents of whole seconds: `timestamp` rounds down, `from_timestamp` is the instant
-- of that second where there is one, and `num_seconds` of a duration rounds to zero.
pub record CountsSeconds (c : Chrono) : Type 0 where
  pub floor : (t : Timestamp) → nanos (c.timestamp t) ≤ℤ t
  pub next : (t : Timestamp) → t +ℤ pos 1 ≤ℤ nanos (c.timestamp t +ℤ pos 1)
  pub instant : (s : ℤ) (t : Timestamp) → c.from_timestamp s ≡ some t → t ≡ nanos s
  pub whole :
      (d : Duration) → pos 0 ≤ℤ d → (pos 0 ≤ℤ c.num_seconds d) × (nanos (c.num_seconds d) ≤ℤ d)

-- A fixed or rolling window of sub-second length passes validation, and its bounds panic at every
-- instant: the length in whole seconds, by which the bounds divide, is zero.
pub sub_second-panics :
    (c : Chrono) (d : Duration) (now : Timestamp)
    → pos 1 ≤ℤ d
    → c.num_seconds d ≡ pos 0
    → (validate c (fixed d) ≡ ok tt)
      × (bounds_at c (fixed d) now ≡ panic)
      × (validate c (rolling d) ≡ ok tt)
      × (bounds_at c (rolling d) now ≡ panic)
unfolding validate bounds_at fixed_bounds rem_euclid
sub_second-panics c d now h e =
    let p : leb_ℤ d (pos 0) ≡ false = ground arith in
    (
      rw (p, validate) refl,
      rw (p, e, bounds_at, fixed_bounds, rem_euclid) refl,
      rw (p, validate) refl,
      rw (p, e, bounds_at, fixed_bounds, rem_euclid) refl,
    )

pub nanos_parts :
    (s : ℤ)
    → (pos_part (nanos s) ≡ pos_part s * 1_000_000_000)
      × (neg_part (nanos s) ≡ neg_part s * 1_000_000_000)
nanos_parts (pos n) = (omega arith, omega arith)
nanos_parts (negsuc n) = (omega arith, omega arith)

-- The arithmetic of a window that starts `offset` seconds before the second of `now`.
window_contains :
    (ts offset n now d : ℤ)
    → nanos ts ≤ℤ now
    → now +ℤ pos 1 ≤ℤ nanos (ts +ℤ pos 1)
    → pos 0 ≤ℤ offset
    → offset +ℤ pos 1 ≤ℤ n
    → nanos n ≤ℤ d
    → (nanos (ts -ℤ offset) ≤ℤ now) × (now +ℤ pos 1 ≤ℤ nanos (ts -ℤ offset) +ℤ d)
window_contains ts offset n now d f g o p w = omega (int_laws, nanos_parts)

-- The bounds of a fixed window contain the instant that they are computed at, the start included
-- and the end not, and they lie exactly the window's duration apart (given what chrono documents of
-- seconds).
pub fixed_bounds-contains :
    (c : Chrono) (d : Duration) (now : Timestamp) (w : WindowBounds)
    → CountsSeconds c
    → fixed_bounds c d now ≡ ok w
    → (w.start ≤ℤ now) × (now +ℤ pos 1 ≤ℤ w.end) × (w.end ≡ w.start +ℤ d)
unfolding fixed_bounds new
fixed_bounds-contains c d now w k h =
    let (e1, h1) = fail_if-ok (leb_ℤ d (pos 0)) _ _ h in
    let (offset, e2, h2) = and_then-ok (rem_euclid (c.timestamp now) (c.num_seconds d)) _ h1 in
    let r =
      rem_euclid-lt (c.timestamp now) (c.num_seconds d) offset (k.whole d (ground (arith, e1))).0
        e2 in
    elim (Option-cases (c.from_timestamp (c.timestamp now -ℤ offset))) [
      | inl e3 ↦ cc (rw e3 at h2)
      | inr (start, e3) ↦
          let (_, h3) = fail_if-ok (leb_ℤ (start +ℤ d) start) _ _ (rw e3 at h2) in
          subst (λ x. (x.start ≤ℤ now) × (now +ℤ pos 1 ≤ℤ x.end) × (x.end ≡ x.start +ℤ d))
            (ok-injective h3)
            (let x =
                window_contains (c.timestamp now) offset (c.num_seconds d) now d (k.floor now)
                  (k.next now) r.0 r.1 (k.whole d (ground (arith, e1))).1 in
              rw (k.instant (c.timestamp now -ℤ offset) start e3) (x.0, x.1, refl))
    ]
