-- ===== src/Pacing.antt =====
-- src/pacing/evaluate.rs: what a policy says of a request at an instant, given the usage so far.
pub mod Limits
pub mod Pace
pub mod Decisions
use budget_warden.Base.{
  ℕ, ◌+◌, ◌*◌, ◌/◌, ltb, leb, if◌then◌else◌, min, u64_max, saturating_add, saturating_sub,
  wrapping_add, ℤ, pos, negsuc, ◌-ℤ◌, Bool, true, false, ◌&&◌, not, Option, none, some,
}
use budget_warden.Decision.{
  DenialReason, hard_limit_reached, ahead_of_budget_pace, reserved_for_higher_priority,
  minimum_remaining_would_be_violated,
}
use budget_warden.Priority.{Priority, critical, lower}
use budget_warden.Policy.{
  BudgetPolicy, PreserveForWindow, ReserveCapacity, BudgetStrategy, hard_limit_only,
  preserve_for_window, reserve_capacity,
}
use budget_warden.Time.{Timestamp, Chrono}
use budget_warden.Window.{WindowBounds, duration}

pub record PacingEvaluation : Type 0 where
  pub effective_limit : ℕ
  pub safe_to_spend_now : ℕ
  pub reserved_remaining : ℕ
  pub ahead_of_pace : Bool
  pub denial_reason : Option DenialReason

-- `u64::try_from(value).unwrap_or(u64::MAX)`
abbrev pub saturating_u64 : ℕ → ℕ
saturating_u64 value = min value u64_max

unfoldable pub percent_of : ℕ → ℕ → ℕ
percent_of value percent = saturating_u64 (value * percent / 100)

-- `u128::try_from(milliseconds.max(0)).unwrap_or(0)`
abbrev pub non_negative_millis : ℤ → ℕ
non_negative_millis (pos n) = n
non_negative_millis (negsuc _) = 0

-- `.max(1)`
abbrev pub at_least_one : ℕ → ℕ
at_least_one n = if leb n 1 then 1 else n

-- The branch of `HardLimitOnly`: `hard_limit_only(hard_limit, used)`.
abbrev pub evaluate_hard_limit : ℕ → ℕ → PacingEvaluation
evaluate_hard_limit hard_limit used = record {
  effective_limit = hard_limit;
  safe_to_spend_now = saturating_sub hard_limit used;
  reserved_remaining = 0;
  ahead_of_pace = false;
  denial_reason = none;
}

module _ (c : Chrono) where
  unfoldable pub paced_limit : ℕ → WindowBounds → Timestamp → ℕ → PreserveForWindow → ℕ
  paced_limit hard_limit window now normal_usable_limit strategy =
      let duration_ms = at_least_one (non_negative_millis (c.num_milliseconds (duration window))) in
      let elapsed_ms = non_negative_millis (c.num_milliseconds (now -ℤ window.start)) in
      let ideal_spend = saturating_u64 (hard_limit * elapsed_ms / duration_ms) in
      let ahead_allowance = percent_of hard_limit strategy.max_spend_ahead_percent in
      min normal_usable_limit (saturating_add ideal_spend ahead_allowance)

  -- `if let Some(minimum) = … { … remaining_after < minimum … }`
  -- The addition is unchecked, so it wraps around in a release build.
  abbrev pub violates_minimum : Option ℕ → ℕ → ℕ → ℕ → Bool
  violates_minimum none hard_limit used amount = false
  violates_minimum (some minimum) hard_limit used amount =
      ltb (saturating_sub hard_limit (wrapping_add used amount)) minimum

  -- The branch of `PreserveForWindow`, with the reserve and the paced limit computed.
  unfoldable pub evaluate_preserve :
      PreserveForWindow → ℕ → ℕ → ℕ → ℕ → ℕ → Priority → PacingEvaluation
  evaluate_preserve strategy hard_limit reserve paced used amount priority =
      let normal_usable_limit = saturating_sub hard_limit reserve in
      if not (lower priority critical)
      then record {
        effective_limit = hard_limit;
        safe_to_spend_now = saturating_sub hard_limit used;
        reserved_remaining = min reserve (saturating_sub hard_limit used);
        ahead_of_pace = false;
        denial_reason = none;
      }
      else if lower priority critical && ltb normal_usable_limit (saturating_add used amount)
      then record {
        effective_limit = normal_usable_limit;
        safe_to_spend_now = saturating_sub normal_usable_limit used;
        reserved_remaining = saturating_sub hard_limit used;
        ahead_of_pace = false;
        denial_reason = some reserved_for_higher_priority;
      }
      else if ltb paced (saturating_add used amount)
      then record {
        effective_limit = paced;
        safe_to_spend_now = saturating_sub paced used;
        reserved_remaining = saturating_sub reserve (saturating_sub hard_limit used);
        ahead_of_pace = true;
        denial_reason = some ahead_of_budget_pace;
      }
      else if violates_minimum strategy.minimum_remaining_units hard_limit used amount
          && lower priority critical
      then record {
        effective_limit = paced;
        safe_to_spend_now = saturating_sub paced used;
        reserved_remaining = reserve;
        ahead_of_pace = false;
        denial_reason = some minimum_remaining_would_be_violated;
      }
      else record {
        effective_limit = paced;
        safe_to_spend_now = saturating_sub paced used;
        reserved_remaining = min reserve (saturating_sub hard_limit used);
        ahead_of_pace = ltb paced used;
        denial_reason = none;
      }

  -- The branch of `ReserveCapacity`.
  unfoldable pub evaluate_reserve : ReserveCapacity → ℕ → ℕ → ℕ → Priority → PacingEvaluation
  evaluate_reserve strategy hard_limit used amount priority =
      let normal_usable_limit = saturating_sub hard_limit strategy.reserved_units in
      if lower priority strategy.reserved_for
        && ltb normal_usable_limit (saturating_add used amount)
      then record {
        effective_limit = normal_usable_limit;
        safe_to_spend_now = saturating_sub normal_usable_limit used;
        reserved_remaining = strategy.reserved_units;
        ahead_of_pace = false;
        denial_reason = some reserved_for_higher_priority;
      }
      else record {
        effective_limit = hard_limit;
        safe_to_spend_now = saturating_sub hard_limit used;
        reserved_remaining = min strategy.reserved_units (saturating_sub hard_limit used);
        ahead_of_pace = false;
        denial_reason = none;
      }

  -- The `match` of `evaluate_policy`.
  unfoldable pub evaluate_strategy :
      BudgetStrategy → ℕ → ℕ → ℕ → Priority → WindowBounds → Timestamp → PacingEvaluation
  unfolding evaluate_preserve evaluate_reserve
  evaluate_strategy hard_limit_only hard_limit used amount priority window now =
      evaluate_hard_limit hard_limit used
  evaluate_strategy (preserve_for_window s) hard_limit used amount priority window now =
      let reserve = percent_of hard_limit s.emergency_reserve_percent in
      let paced = paced_limit hard_limit window now (saturating_sub hard_limit reserve) s in
      evaluate_preserve s hard_limit reserve paced used amount priority
  evaluate_strategy (reserve_capacity s) hard_limit used amount priority window now =
      evaluate_reserve s hard_limit used amount priority

  unfoldable pub evaluate_policy :
      BudgetPolicy → ℕ → ℕ → Priority → WindowBounds → Timestamp → PacingEvaluation
  unfolding evaluate_strategy
  evaluate_policy policy used amount priority window now =
      if ltb policy.hard_limit (saturating_add used amount)
      then record {
        effective_limit = policy.hard_limit;
        safe_to_spend_now = 0;
        reserved_remaining = 0;
        ahead_of_pace = false;
        denial_reason = some hard_limit_reached;
      }
      else evaluate_strategy policy.strategy policy.hard_limit used amount priority window now
