-- ===== src/Request/Setters.antt =====
-- The setters of `BudgetRequestBuilder` in src/request.rs.
use budget_warden.Base.{ℕ, String, some}
use budget_warden.BudgetUnit.{BudgetUnit}
use budget_warden.Ids.{IdempotencyKey}
use budget_warden.Priority.{Priority}
use budget_warden.Request.{BudgetRequestBuilder}

abbrev pub set_subject : String → BudgetRequestBuilder → BudgetRequestBuilder
set_subject value b = record b { subject = value }

abbrev pub set_unit : BudgetUnit → BudgetRequestBuilder → BudgetRequestBuilder
set_unit value b = record b { unit = value }

abbrev pub set_amount : ℕ → BudgetRequestBuilder → BudgetRequestBuilder
set_amount value b = record b { amount = value }

abbrev pub set_priority : Priority → BudgetRequestBuilder → BudgetRequestBuilder
set_priority value b = record b { priority = value }

abbrev pub set_idempotency_key : IdempotencyKey → BudgetRequestBuilder → BudgetRequestBuilder
set_idempotency_key value b = record b { idempotency_key = some value }
