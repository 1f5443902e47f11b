-- ===== src/Key.antt =====
-- src/key.rs: the key of a budget; the pattern of a policy is in the child `Pattern`.
pub mod Pattern
pub mod Laws
use budget_warden.Base.{String, String-discrete, append, is_blank, Result, ok, ◌>>=◌, ◌>>◌, fail_if}
use budget_warden.Error.{BudgetError, invalid_request}

pub record BudgetKey : Type 0 where
  pub provider : String
  pub domain : String
  pub resource : String
  pub subject : String

-- The derived `PartialEq`.
unfoldable pub BudgetKey-discrete : Discrete BudgetKey
unfolding String-discrete
BudgetKey-discrete = hlevel String-discrete

unfoldable pub validate_component : String → String → Result BudgetError (Unit {0})
validate_component name value =
    fail_if (is_blank value) (invalid_request (append name " must not be empty"))

unfoldable pub validate : BudgetKey → Result BudgetError (Unit {0})
unfolding validate_component
validate key = do
  validate_component "provider" key.provider
  validate_component "domain" key.domain
  validate_component "resource" key.resource
  validate_component "subject" key.subject

-- `BudgetKey::new`
unfoldable pub new : String → String → String → String → Result BudgetError BudgetKey
unfolding validate
new provider domain resource subject = do let key = made; validate key; ok key
  where
    made : BudgetKey
    made = record { provider = provider; domain = domain; resource = resource; subject = subject }
