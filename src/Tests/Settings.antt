-- ===== src/Tests/Settings.antt =====
-- Runs of src/config/model.rs and src/config/toml.rs.
use budget_warden.Base.{String, ◌≡◌, refl, none, some, ok, [], ◌∷◌, Result, pos}
use budget_warden.BudgetUnit.{BudgetUnit, as_str}
use budget_warden.Broker.{BudgetWarden, BudgetWardenBuilder}
use budget_warden.Config.{
  ConfigPolicy, PolicyConfig, WindowConfig, StrategyConfig, parse_unit, to_policy,
}
use budget_warden.Config.Words.{parse_unit-as_str}
use budget_warden.Decision
use budget_warden.Policy.{BudgetPolicy, closed_mode}
use budget_warden.Policy
use budget_warden.Store.Memory.Locked.{MemoryStore, memory_store}
use budget_warden.Window
use budget_warden.Tests.Data.{utc}

-- Words are read without regard to case and outer white space, and with dashes for underscores.
abbrev settings : ConfigPolicy
settings = record {
  name = "searches";
  provider = "acme";
  domain = some "web";
  resource = none;
  subject = none;
  unit = " Requests ";
  hard_limit = 250;
  window = WindowConfig.calendar_month "UTC";
  exhausted_action = "Use-Stale-Cache";
  low_budget_action = some "custom:slow-down";
  fail_mode = none;
  strategy = StrategyConfig.hard_limit_only;
}

abbrev expected : BudgetPolicy
expected = record {
  name = "searches";
  key = record { provider = "acme"; domain = some "web"; resource = none; subject = none };
  unit = BudgetUnit.requests;
  hard_limit = 250;
  window = Window.calendar_month "UTC";
  strategy = Policy.hard_limit_only;
  exhausted_action = Decision.use_stale_cache;
  low_budget_action = some (Decision.custom "slow_down");
  fail_mode = closed_mode;
}

reads_settings : to_policy utc settings ≡ ok expected
unfolding to_policy
reads_settings = refl

parse_unit-as_str_example : parse_unit (as_str BudgetUnit.tokens) ≡ ok BudgetUnit.tokens
parse_unit-as_str_example = parse_unit-as_str BudgetUnit.tokens (λ name e. cc)

-- A reader that finds one policy in every file.
abbrev reader : String → Result String PolicyConfig
reader input = ok (record { policies = settings ∷ [] })

abbrev fresh : BudgetWardenBuilder MemoryStore
fresh = record { store = some memory_store; policies = []; reservation_ttl = none }

abbrev warden : BudgetWarden MemoryStore
warden = record {
  store = memory_store;
  policies = record { policies = expected ∷ [] };
  reservation_ttl = pos 300_000_000_000;
}
