-- ===== src/Pacing/Decisions.antt =====
-- When a policy allows a request (src/pacing/evaluate.rs), strategy by strategy.
use budget_warden.Base.{
  ℕ, ◌+◌, ◌-◌, ◌≤◌, ◌<◌, ◌≡◌, ◌↔◌, none, some, arith, u64_max, saturating_add, true, false, Option,
  refl, sym, ap, ◌∙◌,
}
use budget_warden.Priority.{Priority, critical, lower, rank}
use budget_warden.Policy.{
  BudgetPolicy, BudgetStrategy, PreserveForWindow, hard_limit_only, preserve_for_window,
  reserve_capacity,
}
use budget_warden.Time.{Timestamp, Chrono}
use budget_warden.Window.{WindowBounds}
use budget_warden.Pacing.Limits.{evaluate_policy-allowed, evaluate_policy-bounds}
use budget_warden.Pacing.{
  evaluate_policy, evaluate_strategy, evaluate_preserve, paced_limit, percent_of, violates_minimum,
}

-- A minimum is kept: there is none, or so much is left.
abbrev pub Keeps : Option ℕ → ℕ → Type 0
Keeps none left = Unit {0}
Keeps (some minimum) left = minimum ≤ left

-- What `PreserveForWindow` promises for traffic below critical: the emergency reserve is left
-- alone, the spend stays behind the paced limit, and the minimum stays.
pub record Paced (s : PreserveForWindow) (hard_limit paced spent : ℕ) : Type 0 where
  pub reserve_left : spent ≤ hard_limit - percent_of hard_limit s.emergency_reserve_percent
  pub on_pace : spent ≤ paced
  pub minimum_left : Keeps s.minimum_remaining_units (hard_limit - spent)

module _ (c : Chrono) where
  -- A policy allows a request at the usage `used`.
  abbrev pub Allows : BudgetPolicy → ℕ → ℕ → Priority → WindowBounds → Timestamp → Type 0
  Allows policy used amount p window now =
      (evaluate_policy c policy used amount p window now).denial_reason ≡ none

  -- `paced_limit` with the arguments that `evaluate_policy` gives it.
  abbrev pub pace : PreserveForWindow → ℕ → WindowBounds → Timestamp → ℕ
  pace s hard_limit window now =
      paced_limit c hard_limit window now
        (hard_limit - percent_of hard_limit s.emergency_reserve_percent) s

  Keeps-violates :
      (m : Option ℕ) (hard_limit used amount : ℕ)
      → used + amount ≤ u64_max
      → (violates_minimum c m hard_limit used amount ≡ false)
        ↔ Keeps m (hard_limit - (used + amount))
  Keeps-violates none hard_limit used amount h = ground arith
  Keeps-violates (some m) hard_limit used amount h = ground arith

  module _ (s : PreserveForWindow) (hard_limit reserve paced used amount : ℕ) (p : Priority)
      (small : hard_limit < u64_max) (fits : saturating_add used amount ≤ hard_limit)
      (below : lower p critical ≡ true) where
    preserve-allows :
        used + amount ≤ hard_limit - reserve
        → used + amount ≤ paced
        → Keeps s.minimum_remaining_units (hard_limit - (used + amount))
        → (evaluate_preserve c s hard_limit reserve paced used amount p).denial_reason ≡ none
    unfolding evaluate_preserve
    preserve-allows h k l =
        ground (
          arith,
          (Keeps-violates s.minimum_remaining_units hard_limit used amount (omega arith)).1 l,
        )

    preserve-denies :
        (evaluate_preserve c s hard_limit reserve paced used amount p).denial_reason ≡ none
        → (used + amount ≤ hard_limit - reserve)
          × (used + amount ≤ paced)
          × (violates_minimum c s.minimum_remaining_units hard_limit used amount ≡ false)
    unfolding evaluate_preserve
    preserve-denies h = ground arith

  pub allowed_fits :
      (policy : BudgetPolicy) (used amount : ℕ) (p : Priority) (window : WindowBounds)
      (now : Timestamp)
      → Allows policy used amount p window now
      → saturating_add used amount ≤ policy.hard_limit
  allowed_fits policy used amount p window now h = omega (
    arith,
    evaluate_policy-allowed c policy used amount p window now h,
    (evaluate_policy-bounds c policy used amount p window now).0,
  )

  pub evaluate_policy-strategy :
      (policy : BudgetPolicy) (used amount : ℕ) (p : Priority) (window : WindowBounds)
      (now : Timestamp)
      → saturating_add used amount ≤ policy.hard_limit
      → evaluate_policy c policy used amount p window now
        ≡ evaluate_strategy c policy.strategy policy.hard_limit used amount p window now
  unfolding evaluate_policy
  evaluate_policy-strategy policy used amount p window now h = ground arith

  evaluate_policy-preserve :
      (policy : BudgetPolicy) (s : PreserveForWindow) (used amount : ℕ) (p : Priority)
      (window : WindowBounds) (now : Timestamp)
      → policy.strategy ≡ preserve_for_window s
      → saturating_add used amount ≤ policy.hard_limit
      → evaluate_policy c policy used amount p window now
        ≡ evaluate_preserve c s policy.hard_limit
            (percent_of policy.hard_limit s.emergency_reserve_percent)
            (pace s policy.hard_limit window now)
            used
            amount
            p
  unfolding evaluate_strategy
  evaluate_policy-preserve policy s used amount p window now is h =
      evaluate_policy-strategy policy used amount p window now h
      ∙ ap (λ st. evaluate_strategy c st policy.hard_limit used amount p window now) is

  -- A policy that preserves its budget, with a hard limit below `u64::MAX`, allows a request below
  -- critical priority exactly when the spend after it leaves the emergency reserve alone, stays
  -- within the paced limit of the instant and leaves the minimum of remaining units.
  pub preserve-Allows_iff :
      (policy : BudgetPolicy) (s : PreserveForWindow) (used amount : ℕ) (p : Priority)
      (window : WindowBounds) (now : Timestamp)
      → policy.strategy ≡ preserve_for_window s
      → policy.hard_limit < u64_max
      → rank p < rank critical
      → Allows policy used amount p window now
        ↔ Paced s policy.hard_limit (pace s policy.hard_limit window now) (used + amount)
  preserve-Allows_iff policy s used amount p window now is small below = (there, back)
    where
      reserve : ℕ
      reserve = percent_of policy.hard_limit s.emergency_reserve_percent

      there :
          Allows policy used amount p window now
          → Paced s policy.hard_limit (pace s policy.hard_limit window now) (used + amount)
      there h =
          let fits = allowed_fits policy used amount p window now h in
          let d =
            preserve-denies s policy.hard_limit reserve _ used amount p small fits (ground arith) (
              ap (λ e. e.denial_reason)
                (sym (evaluate_policy-preserve policy s used amount p window now is fits))
              ∙ h) in
          record {
            reserve_left = d.0;
            on_pace = d.1;
            minimum_left = (Keeps-violates _ policy.hard_limit used amount (omega arith)).0 d.2;
          }

      back :
          Paced s policy.hard_limit (pace s policy.hard_limit window now) (used + amount)
          → Allows policy used amount p window now
      back h = rw (evaluate_policy-preserve policy s used amount p window now is (omega arith)) (
          preserve-allows s policy.hard_limit reserve _ used amount p small (omega arith)
            (ground arith) h.reserve_left h.on_pace h.minimum_left)

  strategy-critical :
      (st : BudgetStrategy) (hard_limit used amount : ℕ) (window : WindowBounds) (now : Timestamp)
      → (evaluate_strategy c st hard_limit used amount critical window now).denial_reason ≡ none
  unfolding evaluate_strategy
  strategy-critical hard_limit_only hard_limit used amount window now = refl
  strategy-critical (preserve_for_window s) hard_limit used amount window now = refl
  strategy-critical (reserve_capacity s) hard_limit used amount window now = ground arith

  preserve-priority :
      (s : PreserveForWindow) (hard_limit reserve paced used amount : ℕ) (p q : Priority)
      → rank p ≤ rank q
      → (evaluate_preserve c s hard_limit reserve paced used amount p).denial_reason ≡ none
      → (evaluate_preserve c s hard_limit reserve paced used amount q).denial_reason ≡ none
  unfolding evaluate_preserve
  preserve-priority s hard_limit reserve paced used amount p q h a = ground arith

  strategy-priority :
      (st : BudgetStrategy) (hard_limit used amount : ℕ) (p q : Priority) (window : WindowBounds)
      (now : Timestamp)
      → rank p ≤ rank q
      → (evaluate_strategy c st hard_limit used amount p window now).denial_reason ≡ none
      → (evaluate_strategy c st hard_limit used amount q window now).denial_reason ≡ none
  unfolding evaluate_strategy
  strategy-priority hard_limit_only hard_limit used amount p q window now h a = refl
  strategy-priority (preserve_for_window s) hard_limit used amount p q window now h a =
      preserve-priority s hard_limit _ _ used amount p q h a
  strategy-priority (reserve_capacity s) hard_limit used amount p q window now h a = ground arith

  -- Critical traffic is denied by no strategy: the evaluation allows a critical request exactly
  -- when usage and request, added without overflow, are at most the hard limit.
  pub critical_allowed_iff :
      (policy : BudgetPolicy) (used amount : ℕ) (window : WindowBounds) (now : Timestamp)
      → Allows policy used amount critical window now
        ↔ (saturating_add used amount ≤ policy.hard_limit)
  critical_allowed_iff policy used amount window now = (
    allowed_fits policy used amount critical window now,
    λ h.
        rw (evaluate_policy-strategy policy used amount critical window now h)
          (strategy-critical policy.strategy policy.hard_limit used amount window now),
  )

  -- A higher priority is never worse off: what the policy allows at a priority it allows at every
  -- priority that is at least as high.
  pub Allows-priority :
      (policy : BudgetPolicy) (used amount : ℕ) (p q : Priority) (window : WindowBounds)
      (now : Timestamp)
      → rank p ≤ rank q
      → Allows policy used amount p window now
      → Allows policy used amount q window now
  Allows-priority policy used amount p q window now h a =
      let fits = allowed_fits policy used amount p window now a in
      rw (evaluate_policy-strategy policy used amount q window now fits) (
        strategy-priority policy.strategy policy.hard_limit used amount p q window now h
          (rw (evaluate_policy-strategy policy used amount p window now fits) at a))
