-- ===== src/Policy.antt =====
-- src/policy.rs: policies, and the builder that validates them.
pub mod Valid
pub mod Setters
use budget_warden.Base.{
  ℕ, ◌==◌, ltb, if◌then◌else◌, String, is_blank, Bool, false, Option, none, some, Result, ok, ◌>>=◌,
  ◌>>◌, fail_if, ok_or,
}
use budget_warden.Error.{BudgetError, invalid_request}
use budget_warden.Decision.{FallbackAction, reject}
use budget_warden.Priority.{Priority}
use budget_warden.BudgetUnit.{BudgetUnit, requests}
use budget_warden.Key.Pattern.{
  BudgetKeyPattern, new_pattern, with_domain, with_resource, with_subject,
}
use budget_warden.Time.{Chrono}
use budget_warden.Window
use budget_warden.Window.{BudgetWindow}

pub data FailMode : Type 0 where
  open_mode closed_mode : FailMode

pub record PreserveForWindow : Type 0 where
  pub max_spend_ahead_percent : ℕ
  pub emergency_reserve_percent : ℕ
  pub minimum_remaining_units : Option ℕ

pub record ReserveCapacity : Type 0 where
  pub reserved_units : ℕ
  pub reserved_for : Priority

pub data BudgetStrategy : Type 0 where
  hard_limit_only : BudgetStrategy
  preserve_for_window : PreserveForWindow → BudgetStrategy
  reserve_capacity : ReserveCapacity → BudgetStrategy

pub record BudgetPolicy : Type 0 where
  pub name : String
  pub key : BudgetKeyPattern
  pub unit : BudgetUnit
  pub hard_limit : ℕ
  pub window : BudgetWindow
  pub strategy : BudgetStrategy
  pub exhausted_action : FallbackAction
  pub low_budget_action : Option FallbackAction
  pub fail_mode : FailMode

pub record BudgetPolicyBuilder : Type 0 where
  pub name : String
  pub provider : Option String
  pub domain : Option String
  pub resource : Option String
  pub subject : Option String
  pub unit : BudgetUnit
  pub hard_limit : Option ℕ
  pub window : Option BudgetWindow
  pub strategy : BudgetStrategy
  pub exhausted_action : FallbackAction
  pub low_budget_action : Option FallbackAction
  pub fail_mode : FailMode

-- `BudgetPolicy::builder`
abbrev pub builder : String → BudgetPolicyBuilder
builder name = record {
  name = name;
  provider = none;
  domain = none;
  resource = none;
  subject = none;
  unit = requests;
  hard_limit = none;
  window = none;
  strategy = hard_limit_only;
  exhausted_action = reject;
  low_budget_action = none;
  fail_mode = closed_mode;
}

-- `is_some_and(|minimum| minimum > hard_limit)`
abbrev pub exceeds : Option ℕ → ℕ → Bool
exceeds none hard_limit = false
exceeds (some minimum) hard_limit = ltb hard_limit minimum

unfoldable pub validate_strategy : BudgetStrategy → ℕ → Result BudgetError (Unit {0})
validate_strategy hard_limit_only hard_limit = ok tt
validate_strategy (preserve_for_window s) hard_limit = do
  fail_if (ltb 100 s.max_spend_ahead_percent)
      (invalid_request "max spend ahead percent must be at most 100")
  fail_if (ltb 100 s.emergency_reserve_percent)
      (invalid_request "emergency reserve percent must be at most 100")
  fail_if (exceeds s.minimum_remaining_units hard_limit)
      (invalid_request "minimum remaining units must not exceed hard limit")
validate_strategy (reserve_capacity s) hard_limit = do
  fail_if (s.reserved_units == 0) (invalid_request "reserved units must be greater than zero")
  fail_if (ltb hard_limit s.reserved_units)
      (invalid_request "reserved units must not exceed hard limit")

-- `if let Some(value) = o { key = key.with_...(value) }`
abbrev pub narrow :
    (BudgetKeyPattern → String → BudgetKeyPattern)
    → Option String
    → BudgetKeyPattern
    → BudgetKeyPattern
narrow with none key = key
narrow with (some value) key = with key value

-- `BudgetPolicyBuilder::build`
unfoldable pub build : Chrono → BudgetPolicyBuilder → Result BudgetError BudgetPolicy
unfolding new_pattern Window.validate validate_strategy
build c b = do
  fail_if (is_blank b.name) (invalid_request "policy name must not be empty")
  hard_limit ← ok_or b.hard_limit (invalid_request "hard limit must be configured")
  fail_if (hard_limit == 0) (invalid_request "hard limit must be greater than zero")
  provider ← ok_or b.provider (invalid_request "provider must be configured")
  key ← new_pattern provider
  window ← ok_or b.window (invalid_request "window must be configured")
  Window.validate c window
  validate_strategy b.strategy hard_limit
  ok (record {
    name = b.name;
    key =
        narrow with_subject b.subject
          (narrow with_resource b.resource (narrow with_domain b.domain key));
    unit = b.unit;
    hard_limit = hard_limit;
    window = window;
    strategy = b.strategy;
    exhausted_action = b.exhausted_action;
    low_budget_action = b.low_budget_action;
    fail_mode = b.fail_mode;
  })
