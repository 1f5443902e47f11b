-- ===== src/Registry.antt =====
-- src/broker.rs: `PolicyRegistry`, which finds the policy of a key.
pub mod Best
use budget_warden.Base.{
  ℕ, ltb, if◌then◌else◌, String, string_eq, Bool, true, false, ◌||◌, Option, none, some, List, [],
  ◌∷◌, Result, ok, ◌>>◌, ◌>>=◌, fail_if,
}
use budget_warden.Error.{BudgetError, config_error}
use budget_warden.Key.{BudgetKey}
use budget_warden.Key.Pattern.{matches, specificity}
use budget_warden.Policy.{BudgetPolicy}

pub record PolicyRegistry : Type 0 where
  pub policies : List BudgetPolicy

-- `any(|candidate| candidate.name() == policy.name())`
unfoldable pub has_name : String → List BudgetPolicy → Bool
has_name name [] = false
has_name name (p ∷ ps) = string_eq p.name name || has_name name ps

unfoldable pub has_duplicate : List BudgetPolicy → Bool
unfolding has_name
has_duplicate [] = false
has_duplicate (p ∷ ps) = has_name p.name ps || has_duplicate ps

-- `PolicyRegistry::new`
unfoldable pub new : List BudgetPolicy → Result BudgetError PolicyRegistry
unfolding has_duplicate
new policies = do
  fail_if (has_duplicate policies) (config_error "policy names must be unique")
  ok (record { policies = policies })

-- `filter(|policy| policy.key().matches(key))`
unfoldable pub matching : BudgetKey → List BudgetPolicy → List BudgetPolicy
unfolding matches
matching key [] = []
matching key (p ∷ ps) = let rest = matching key ps in if matches p.key key then p ∷ rest else rest

-- `max_by_key`, which of several greatest elements returns the last: the loop of the iterator from
-- the element that is the best so far.
unfoldable pub best_of : BudgetPolicy → List BudgetPolicy → BudgetPolicy
unfolding specificity
best_of best [] = best
best_of best (p ∷ ps) =
    best_of (if ltb (specificity p.key) (specificity best.key) then best else p) ps

unfoldable pub most_specific : List BudgetPolicy → Option BudgetPolicy
unfolding best_of
most_specific [] = none
most_specific (p ∷ ps) = some (best_of p ps)

-- `PolicyRegistry::find`
unfoldable pub find : PolicyRegistry → BudgetKey → Option BudgetPolicy
unfolding matching most_specific
find registry key = most_specific (matching key registry.policies)
