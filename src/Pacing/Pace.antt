-- ===== src/Pacing/Pace.antt =====
-- How the paced limit of src/pacing/evaluate.rs grows over a window.
use budget_warden.Base.{
  ℕ, ◌-◌, ◌*◌, ◌/◌, ◌≤◌, ◌<◌, ◌≡◌, refl, ℤ, ◌-ℤ◌, ◌≤ℤ◌, pos, int_laws, none, arith, u64_max,
}
use budget_warden.Priority.{Priority}
use budget_warden.Policy.{
  BudgetPolicy, BudgetStrategy, PreserveForWindow, hard_limit_only, preserve_for_window,
  reserve_capacity,
}
use budget_warden.Time.{Timestamp, Duration, Chrono}
use budget_warden.Window.{WindowBounds, duration}
use budget_warden.Pacing.Decisions.{Allows, pace, allowed_fits, evaluate_policy-strategy}
use budget_warden.Pacing.{
  evaluate_strategy, evaluate_preserve, non_negative_millis, paced_limit, percent_of, at_least_one,
}

div_mono : (a b d : ℕ) → a ≤ b → a / d ≤ b / d
div_mono a b d h = grind arith

mul_mono : (k a b : ℕ) → a ≤ b → k * a ≤ k * b
mul_mono k a b h = grind arith

div-le : (k d e : ℕ) → 0 < d → d ≤ e → k ≤ k * e / d
div-le k d e h l = grind arith

millis_mono : (a b : ℤ) → a ≤ℤ b → non_negative_millis a ≤ non_negative_millis b
millis_mono a b h = ground arith

module _ (c : Chrono)
    (mono : (d e : Duration) → d ≤ℤ e → c.num_milliseconds d ≤ℤ c.num_milliseconds e) where
  millis : Duration → ℕ
  millis d = non_negative_millis (c.num_milliseconds d)

  millis-le : (d e : Duration) → d ≤ℤ e → millis d ≤ millis e
  unfolding millis
  millis-le d e h = millis_mono (c.num_milliseconds d) (c.num_milliseconds e) (mono d e h)

  paced_limit_mono :
      (hard_limit : ℕ) (window : WindowBounds) (now later : Timestamp) (usable : ℕ)
      (s : PreserveForWindow)
      → now ≤ℤ later
      → paced_limit c hard_limit window now usable s
        ≤ paced_limit c hard_limit window later usable s
  unfolding paced_limit millis
  paced_limit_mono hard_limit window now later usable s h =
      let l = at_least_one (non_negative_millis (c.num_milliseconds (duration window))) in
      omega (
        arith,
        div_mono _ _ l (
            mul_mono hard_limit _ _
              (millis-le (now -ℤ window.start) (later -ℤ window.start) (omega int_laws))),
      )

  preserve-later :
      (s : PreserveForWindow) (hard_limit reserve paced paced' used amount : ℕ) (p : Priority)
      → paced ≤ paced'
      → (evaluate_preserve c s hard_limit reserve paced used amount p).denial_reason ≡ none
      → (evaluate_preserve c s hard_limit reserve paced' used amount p).denial_reason ≡ none
  unfolding evaluate_preserve
  preserve-later s hard_limit reserve paced paced' used amount p h a = ground arith

  strategy-later :
      (st : BudgetStrategy) (hard_limit used amount : ℕ) (p : Priority) (window : WindowBounds)
      (now later : Timestamp)
      → now ≤ℤ later
      → (evaluate_strategy c st hard_limit used amount p window now).denial_reason ≡ none
      → (evaluate_strategy c st hard_limit used amount p window later).denial_reason ≡ none
  unfolding evaluate_strategy
  strategy-later hard_limit_only hard_limit used amount p window now later h a = refl
  strategy-later (preserve_for_window s) hard_limit used amount p window now later h a =
      preserve-later s hard_limit _ _ _ used amount p
        (paced_limit_mono hard_limit window now later _ s h) a
  strategy-later (reserve_capacity s) hard_limit used amount p window now later h a = a

  -- Waiting never hurts: what a policy allows at an instant it allows at every later instant of
  -- the same window, at the same usage (given that chrono's count of whole milliseconds does not
  -- fall when the duration grows).
  pub Allows-later :
      (policy : BudgetPolicy) (used amount : ℕ) (p : Priority) (window : WindowBounds)
      (now later : Timestamp)
      → now ≤ℤ later
      → Allows c policy used amount p window now
      → Allows c policy used amount p window later
  Allows-later policy used amount p window now later h a =
      let fits = allowed_fits c policy used amount p window now a in
      rw (evaluate_policy-strategy c policy used amount p window later fits) (
        strategy-later policy.strategy policy.hard_limit used amount p window now later h
          (rw (evaluate_policy-strategy c policy used amount p window now fits) at a))

  -- From the end of the window on the pace holds nothing back: the paced limit of a policy whose
  -- hard limit is a `u64` is all that its reserve leaves.
  pub pace-end :
      (s : PreserveForWindow) (hard_limit : ℕ) (window : WindowBounds) (now : Timestamp)
      → hard_limit ≤ u64_max
      → window.end ≤ℤ now
      → pos 1 ≤ℤ c.num_milliseconds (duration window)
      → pace c s hard_limit window now
        ≡ hard_limit - percent_of hard_limit s.emergency_reserve_percent
  unfolding paced_limit millis
  pace-end s hard_limit window now small h long =
      let l = at_least_one (non_negative_millis (c.num_milliseconds (duration window))) in
      let e : l ≤ non_negative_millis (c.num_milliseconds (now -ℤ window.start)) =
        ground (arith, millis-le (duration window) (now -ℤ window.start) (omega int_laws)) in
      omega (arith, div-le hard_limit l _ (ground arith) e)
