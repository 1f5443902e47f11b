-- ===== src/Error.antt =====
-- src/error.rs: the errors of the policy engine and of a store.
use budget_warden.Base.{String}

pub data BudgetError : Type 0 where
  no_matching_policy : BudgetError
  invalid_request : String → BudgetError
  store_unavailable : BudgetError
  store_error : String → BudgetError
  reservation_not_found : BudgetError
  reservation_expired : BudgetError
  config_error : String → BudgetError
  window_error : String → BudgetError

pub data StoreError : Type 0 where
  unavailable : StoreError
  not_found : StoreError
  expired : StoreError
  invalid_input : String → StoreError
  other : String → StoreError

-- `impl From<StoreError> for BudgetError`
unfoldable pub from_store_error : StoreError → BudgetError
from_store_error unavailable = store_unavailable
from_store_error not_found = reservation_not_found
from_store_error expired = reservation_expired
from_store_error (invalid_input message) = store_error message
from_store_error (other message) = store_error message
