-- ===== src/Ids.antt =====
-- src/reservation.rs: the identifiers of reservations and the idempotency keys of clients.
use budget_warden.Base.{ℕ, String, is_blank, Result, ok, ◌>>◌, fail_if}
use budget_warden.Error.{BudgetError, invalid_request}

-- `ReservationId(u64)`
abbrev pub ReservationId : Type 0
ReservationId = ℕ

-- `IdempotencyKey(String)`
abbrev pub IdempotencyKey : Type 0
IdempotencyKey = String

-- `IdempotencyKey::new`
unfoldable pub new : String → Result BudgetError IdempotencyKey
new value = do
  fail_if (is_blank value) (invalid_request "idempotency key must not be empty")
  ok value
