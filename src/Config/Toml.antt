-- ===== src/Config/Toml.antt =====
-- src/config/toml.rs: policies and wardens from the text of a settings file. `from_str` stands for the
-- function of the crate toml, with the text of its error.
use budget_warden.Broker.Setters.{push_policy}
use budget_warden.Base.{String, List, [], ◌∷◌, Result, map_err, ◌>>=◌}
use budget_warden.Broker.{BudgetWarden, BudgetWardenBuilder, build}
use budget_warden.Config.{PolicyConfig, to_policies}
use budget_warden.Error.{BudgetError, config_error}
use budget_warden.Policy.{BudgetPolicy}
use budget_warden.Policy.Valid.{IsSound}
use budget_warden.Registry
use budget_warden.Time.{Chrono}

module _ (from_str : String → Result String PolicyConfig) (c : Chrono) where
  unfoldable pub policies_from_toml_str : String → Result BudgetError (List BudgetPolicy)
  unfolding to_policies
  policies_from_toml_str input = do
    config ← map_err config_error (from_str input)
    to_policies c config.policies

  -- `fold(builder, BudgetWardenBuilder::policy)`: each policy is pushed at the end.
  abbrev pub with_policies :
      {S : Type 0} → List BudgetPolicy → BudgetWardenBuilder S → BudgetWardenBuilder S
  with_policies [] b = b
  with_policies (p ∷ ps) b = with_policies ps (push_policy p b)

  unfoldable pub warden_from_toml_str :
      {S : Type 0} → String → BudgetWardenBuilder S → Result BudgetError (BudgetWarden S)
  unfolding policies_from_toml_str build
  warden_from_toml_str input b = do
    policies ← policies_from_toml_str input
    build c (with_policies policies b)

  -- Every policy of a list is sound.
  abbrev pub AreSound : List BudgetPolicy → Type 0
  AreSound [] = Unit
  AreSound (p ∷ ps) = IsSound c p × AreSound ps
