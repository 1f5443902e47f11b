-- ===== src/Config.antt =====
-- src/config/model.rs: settings as a file gives them, and the policies that they stand for. The
-- reader of the file (serde) is not under src; it yields the records of this module.
pub mod Names
pub mod Words
pub mod Toml
use text.Mathlib.Text.{starts_with}
use budget_warden.Base.{
  ℕ, String, string_eq, Option, none, some, List, [], ◌∷◌, Result, ok, err, ◌>>=◌, append,
  if◌then◌else◌, Bool, true, false,
}
use budget_warden.BudgetUnit.{BudgetUnit}
use budget_warden.BudgetUnit
use budget_warden.Config.Names.{normalized, drop_prefixes}
use budget_warden.Decision.{FallbackAction}
use budget_warden.Decision
use budget_warden.Error.{BudgetError, config_error}
use budget_warden.Policy.{
  BudgetPolicy, BudgetPolicyBuilder, BudgetStrategy, FailMode, open_mode, closed_mode, build,
  builder,
}
use budget_warden.Policy
use budget_warden.Priority.{Priority, background, normal, important, critical}
use budget_warden.Time.{Chrono}
use budget_warden.Window.{BudgetWindow}
use budget_warden.Window

pub data WindowConfig : Type 0 where
  calendar_day calendar_month : String → WindowConfig

pub data StrategyConfig : Type 0 where
  hard_limit_only : StrategyConfig
  preserve_for_window :
      (max_spend_ahead_percent emergency_reserve_percent : ℕ)
      → (minimum_remaining_units : Option ℕ) → StrategyConfig
  reserve_capacity : (reserved_units : ℕ) → (reserved_for : String) → StrategyConfig

pub record ConfigPolicy : Type 0 where
  pub name : String
  pub provider : String
  pub domain : Option String
  pub resource : Option String
  pub subject : Option String
  pub unit : String
  pub hard_limit : ℕ
  pub window : WindowConfig
  pub exhausted_action : String
  pub low_budget_action : Option String
  pub fail_mode : Option String
  pub strategy : StrategyConfig

pub record PolicyConfig : Type 0 where
  pub policies : List ConfigPolicy

-- The first row of a table whose word is the text, and otherwise the last argument.
abbrev pub lookup :
    {A : Type 0} → List (String × A) → String → Result BudgetError A → Result BudgetError A
lookup [] word otherwise = otherwise
lookup ((name, a) ∷ rows) word otherwise =
    let rest = lookup rows word otherwise in if string_eq word name then ok a else rest

-- The arm `custom if custom.starts_with("custom:")`, and the error of the last arm.
abbrev pub custom_or : {A : Type 0} → (String → A) → String → BudgetError → Result BudgetError A
custom_or custom word failure =
    if starts_with word "custom:" then ok (custom (drop_prefixes 0 word)) else err failure

abbrev pub unknown : String → String → BudgetError
unknown what value = config_error (append "unknown " (append what (append " `" (append value "`"))))

unfoldable pub parse_unit : String → Result BudgetError BudgetUnit
unfolding normalized drop_prefixes
parse_unit value =
    let word = normalized value in
    lookup
      (("requests", BudgetUnit.requests)
        ∷ ("tokens", BudgetUnit.tokens)
        ∷ ("credits", BudgetUnit.credits)
        ∷ ("cents", BudgetUnit.cents)
        ∷ ("bytes", BudgetUnit.bytes)
        ∷ ("messages", BudgetUnit.messages)
        ∷ [])
      word (custom_or BudgetUnit.custom word (unknown "budget unit" value))

unfoldable pub parse_priority : String → Result BudgetError Priority
unfolding normalized
parse_priority value =
    lookup
      (("background", background)
        ∷ ("normal", normal)
        ∷ ("important", important)
        ∷ ("critical", critical)
        ∷ [])
      (normalized value) (err (unknown "priority" value))

unfoldable pub parse_action : String → Result BudgetError FallbackAction
unfolding normalized drop_prefixes
parse_action value =
    let word = normalized value in
    lookup
      (("use_fresh_cache", Decision.use_fresh_cache)
        ∷ ("use_stale_cache", Decision.use_stale_cache)
        ∷ ("queue_for_later", Decision.queue_for_later)
        ∷ ("use_cheaper_provider", Decision.use_cheaper_provider)
        ∷ ("downgrade_quality", Decision.downgrade_quality)
        ∷ ("reject", Decision.reject)
        ∷ ("return_unavailable", Decision.return_unavailable)
        ∷ [])
      word (custom_or Decision.custom word (unknown "fallback action" value))

-- The error names the normalized value.
unfoldable pub parse_fail_mode : Option String → Result BudgetError FailMode
unfolding normalized
parse_fail_mode none = ok closed_mode
parse_fail_mode (some value) =
    lookup (("closed", closed_mode) ∷ ("open", open_mode) ∷ []) (normalized value)
      (err (unknown "fail mode" (normalized value)))

unfoldable pub parse_strategy : StrategyConfig → Result BudgetError BudgetStrategy
unfolding parse_priority
parse_strategy hard_limit_only = ok Policy.hard_limit_only
parse_strategy (preserve_for_window ahead emergency minimum) = ok (
    Policy.preserve_for_window (record {
      max_spend_ahead_percent = ahead;
      emergency_reserve_percent = emergency;
      minimum_remaining_units = minimum;
    }))
parse_strategy (reserve_capacity units reserved_for) = do
  priority ← parse_priority reserved_for
  ok (Policy.reserve_capacity (record { reserved_units = units; reserved_for = priority }))

unfoldable pub parse_low_action : Option String → Result BudgetError (Option FallbackAction)
unfolding parse_action
parse_low_action none = ok none
parse_low_action (some value) = do action ← parse_action value; ok (some action)

abbrev pub window_of : WindowConfig → BudgetWindow
window_of (calendar_day timezone) = Window.calendar_day timezone
window_of (calendar_month timezone) = Window.calendar_month timezone

-- The builder that `TryFrom<ConfigPolicy>` fills, in the order in which it parses.
unfoldable pub builder_of : ConfigPolicy → Result BudgetError BudgetPolicyBuilder
unfolding parse_unit parse_strategy parse_action parse_fail_mode parse_low_action
builder_of config = do
  unit ← parse_unit config.unit
  strategy ← parse_strategy config.strategy
  exhausted_action ← parse_action config.exhausted_action
  fail_mode ← parse_fail_mode config.fail_mode
  low_budget_action ← parse_low_action config.low_budget_action
  ok (record {
    name = config.name;
    provider = some config.provider;
    domain = config.domain;
    resource = config.resource;
    subject = config.subject;
    unit = unit;
    hard_limit = some config.hard_limit;
    window = some (window_of config.window);
    strategy = strategy;
    exhausted_action = exhausted_action;
    low_budget_action = low_budget_action;
    fail_mode = fail_mode;
  })

-- `TryFrom<ConfigPolicy> for BudgetPolicy`
unfoldable pub to_policy : Chrono → ConfigPolicy → Result BudgetError BudgetPolicy
unfolding builder_of build
to_policy c config = do filled ← builder_of config; build c filled

-- `TryFrom<PolicyConfig> for Vec<BudgetPolicy>`: it stops at the first error.
unfoldable pub to_policies : Chrono → List ConfigPolicy → Result BudgetError (List BudgetPolicy)
unfolding to_policy
to_policies c [] = ok []
to_policies c (config ∷ configs) = do
  policy ← to_policy c config
  policies ← to_policies c configs
  ok (policy ∷ policies)
