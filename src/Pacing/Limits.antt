-- ===== src/Pacing/Limits.antt =====
-- The bounds of an evaluation (src/pacing/evaluate.rs), on every branch of it.
use budget_warden.Base.{ℕ, ◌-◌, ◌≤◌, ◌≡◌, none, arith, saturating_add}
use budget_warden.Priority.{Priority}
use budget_warden.Policy.{
  BudgetPolicy, BudgetStrategy, PreserveForWindow, hard_limit_only, preserve_for_window,
  reserve_capacity,
}
use budget_warden.Time.{Timestamp, Chrono}
use budget_warden.Window.{WindowBounds}
use budget_warden.Pacing.{
  PacingEvaluation, evaluate_policy, evaluate_strategy, evaluate_preserve, paced_limit,
}

module _ (c : Chrono) where
  paced_limit-le :
      (hard_limit : ℕ) (window : WindowBounds) (now : Timestamp) (usable : ℕ)
      (s : PreserveForWindow)
      → paced_limit c hard_limit window now usable s ≤ usable
  unfolding paced_limit
  paced_limit-le hard_limit window now usable s = omega arith

  -- What an evaluation grants: never more than the hard limit, and never more than what is left
  -- of it; and if it does not deny, the request fits below the limit handed to the store.
  abbrev pub Sound : ℕ → ℕ → ℕ → PacingEvaluation → Type 0
  Sound hard_limit used amount e =
      (e.effective_limit ≤ hard_limit)
      × (e.safe_to_spend_now ≤ hard_limit - used)
      × (e.denial_reason ≡ none → saturating_add used amount ≤ e.effective_limit)

  preserve-Sound :
      (s : PreserveForWindow) (hard_limit reserve paced used amount : ℕ) (p : Priority)
      → paced ≤ hard_limit - reserve
      → saturating_add used amount ≤ hard_limit
      → Sound hard_limit used amount (evaluate_preserve c s hard_limit reserve paced used amount p)
  unfolding evaluate_preserve
  preserve-Sound s hard_limit reserve paced used amount p h k = ground arith

  strategy-Sound :
      (s : BudgetStrategy) (hard_limit used amount : ℕ) (p : Priority) (window : WindowBounds)
      (now : Timestamp)
      → saturating_add used amount ≤ hard_limit
      → Sound hard_limit used amount (evaluate_strategy c s hard_limit used amount p window now)
  unfolding evaluate_strategy
  strategy-Sound hard_limit_only hard_limit used amount p window now h = ground arith
  strategy-Sound (preserve_for_window s) hard_limit used amount p window now h =
      preserve-Sound s hard_limit _ _ used amount p (paced_limit-le hard_limit window now _ s) h
  strategy-Sound (reserve_capacity s) hard_limit used amount p window now h = ground arith

  evaluate_policy-Sound :
      (policy : BudgetPolicy) (used amount : ℕ) (p : Priority) (window : WindowBounds)
      (now : Timestamp)
      → Sound policy.hard_limit used amount (evaluate_policy c policy used amount p window now)
  unfolding evaluate_policy
  evaluate_policy-Sound policy used amount p window now =
      ground (arith, strategy-Sound policy.strategy policy.hard_limit used amount p window now)

  -- Whatever the policy, the usage, the request and the instant, the limit that the evaluation
  -- hands to the store is at most the policy's hard limit, and what it reports as safe to spend is
  -- at most what is left of the hard limit.
  pub evaluate_policy-bounds :
      (policy : BudgetPolicy) (used amount : ℕ) (p : Priority) (window : WindowBounds)
      (now : Timestamp)
      → let e = evaluate_policy c policy used amount p window now in
        (e.effective_limit ≤ policy.hard_limit) × (e.safe_to_spend_now ≤ policy.hard_limit - used)
  evaluate_policy-bounds policy used amount p window now =
      let s = evaluate_policy-Sound policy used amount p window now in (s.0, s.1)

  -- If the evaluation does not deny, then usage and request together are at most the limit that
  -- it hands to the store.
  pub evaluate_policy-allowed :
      (policy : BudgetPolicy) (used amount : ℕ) (p : Priority) (window : WindowBounds)
      (now : Timestamp)
      → (evaluate_policy c policy used amount p window now).denial_reason ≡ none
      → saturating_add used amount
        ≤ (evaluate_policy c policy used amount p window now).effective_limit
  evaluate_policy-allowed policy used amount p window now =
      (evaluate_policy-Sound policy used amount p window now).2
