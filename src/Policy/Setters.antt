-- ===== src/Policy/Setters.antt =====
-- The setters of `BudgetPolicyBuilder` in src/policy.rs.
use budget_warden.Base.{ℕ, String, some}
use budget_warden.BudgetUnit.{BudgetUnit}
use budget_warden.Decision.{FallbackAction}
use budget_warden.Policy.{BudgetPolicyBuilder, BudgetStrategy, FailMode}
use budget_warden.Window.{calendar_day, calendar_month}

abbrev pub set_provider : String → BudgetPolicyBuilder → BudgetPolicyBuilder
set_provider value b = record b { provider = some value }

abbrev pub set_domain : String → BudgetPolicyBuilder → BudgetPolicyBuilder
set_domain value b = record b { domain = some value }

abbrev pub set_resource : String → BudgetPolicyBuilder → BudgetPolicyBuilder
set_resource value b = record b { resource = some value }

abbrev pub set_subject : String → BudgetPolicyBuilder → BudgetPolicyBuilder
set_subject value b = record b { subject = some value }

abbrev pub set_unit : BudgetUnit → BudgetPolicyBuilder → BudgetPolicyBuilder
set_unit value b = record b { unit = value }

abbrev pub set_hard_limit : ℕ → BudgetPolicyBuilder → BudgetPolicyBuilder
set_hard_limit value b = record b { hard_limit = some value }

abbrev pub set_strategy : BudgetStrategy → BudgetPolicyBuilder → BudgetPolicyBuilder
set_strategy value b = record b { strategy = value }

abbrev pub set_exhausted_action : FallbackAction → BudgetPolicyBuilder → BudgetPolicyBuilder
set_exhausted_action value b = record b { exhausted_action = value }

abbrev pub set_low_budget_action : FallbackAction → BudgetPolicyBuilder → BudgetPolicyBuilder
set_low_budget_action value b = record b { low_budget_action = some value }

abbrev pub set_fail_mode : FailMode → BudgetPolicyBuilder → BudgetPolicyBuilder
set_fail_mode value b = record b { fail_mode = value }

abbrev pub set_calendar_day : String → BudgetPolicyBuilder → BudgetPolicyBuilder
set_calendar_day timezone b = record b { window = some (calendar_day timezone) }

abbrev pub set_calendar_month : String → BudgetPolicyBuilder → BudgetPolicyBuilder
set_calendar_month timezone b = record b { window = some (calendar_month timezone) }
