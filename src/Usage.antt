-- ===== src/Usage.antt =====
-- src/usage.rs: the snapshot of a budget that callers see.
use budget_warden.Base.{ℕ, ◌==◌, if◌then◌else◌, saturating_sub, String, Bool}
use budget_warden.Key.{BudgetKey}
use budget_warden.BudgetUnit.{BudgetUnit}
use budget_warden.Time.{Timestamp}

-- The `f64` of `percent_used`, as the expression that computes it: `0.0`, or
-- `(used / hard_limit) * 100.0` over the two numbers as floats.
pub data Percent : Type 0 where
  zero_percent : Percent
  percent_used_of : (used hard_limit : ℕ) → Percent

pub record UsageSnapshot : Type 0 where
  pub policy_name : String
  pub key : BudgetKey
  pub unit : BudgetUnit
  pub used : ℕ
  pub hard_limit : ℕ
  pub remaining_hard : ℕ
  pub safe_to_spend_now : ℕ
  pub reserved_remaining : ℕ
  pub percent_used : Percent
  pub window_start : Timestamp
  pub window_end : Timestamp
  pub resets_at : Timestamp
  pub ahead_of_pace : Bool

pub record UsageSnapshotInput : Type 0 where
  pub policy_name : String
  pub key : BudgetKey
  pub unit : BudgetUnit
  pub used : ℕ
  pub hard_limit : ℕ
  pub safe_to_spend_now : ℕ
  pub reserved_remaining : ℕ
  pub window_start : Timestamp
  pub window_end : Timestamp
  pub ahead_of_pace : Bool

-- `UsageSnapshot::new`
abbrev pub new : UsageSnapshotInput → UsageSnapshot
new input = record {
  policy_name = input.policy_name;
  key = input.key;
  unit = input.unit;
  used = input.used;
  hard_limit = input.hard_limit;
  remaining_hard = saturating_sub input.hard_limit input.used;
  safe_to_spend_now = input.safe_to_spend_now;
  reserved_remaining = input.reserved_remaining;
  percent_used =
      if input.hard_limit == 0 then zero_percent else percent_used_of input.used input.hard_limit;
  window_start = input.window_start;
  window_end = input.window_end;
  resets_at = input.window_end;
  ahead_of_pace = input.ahead_of_pace;
}
