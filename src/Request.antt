-- ===== src/Request.antt =====
-- src/request.rs: a request for budget, and the builder that validates it.
pub mod Setters
use budget_warden.Base.{ℕ, ◌==◌, String, Option, none, [], Result, ok, ◌>>=◌, ◌>>◌, fail_if}
use budget_warden.Base.Map.{HashMap, insert}
use budget_warden.Base.{String-discrete}
use budget_warden.Error.{BudgetError, invalid_request}
use budget_warden.Ids.{IdempotencyKey}
use budget_warden.Key
use budget_warden.Key.{BudgetKey}
use budget_warden.Priority.{Priority, normal}
use budget_warden.BudgetUnit.{BudgetUnit, requests}

pub record BudgetRequest : Type 0 where
  pub key : BudgetKey
  pub unit : BudgetUnit
  pub amount : ℕ
  pub priority : Priority
  pub idempotency_key : Option IdempotencyKey
  pub metadata : HashMap String String

pub record BudgetRequestBuilder : Type 0 where
  pub provider : String
  pub domain : String
  pub resource : String
  pub subject : String
  pub unit : BudgetUnit
  pub amount : ℕ
  pub priority : Priority
  pub idempotency_key : Option IdempotencyKey
  pub metadata : HashMap String String

-- `BudgetRequest::builder`
abbrev pub builder : String → String → String → BudgetRequestBuilder
builder provider domain resource = record {
  provider = provider;
  domain = domain;
  resource = resource;
  subject = "global";
  unit = requests;
  amount = 1;
  priority = normal;
  idempotency_key = none;
  metadata = [];
}

-- `BudgetRequestBuilder::metadata`
unfoldable pub add_metadata : BudgetRequestBuilder → String → String → BudgetRequestBuilder
unfolding insert String-discrete
add_metadata b key value = record b { metadata = insert String-discrete key value b.metadata }

-- `BudgetRequestBuilder::build`
unfoldable pub build : BudgetRequestBuilder → Result BudgetError BudgetRequest
unfolding Key.new
build b = do
  fail_if (b.amount == 0) (invalid_request "amount must be greater than zero")
  key ← Key.new b.provider b.domain b.resource b.subject
  ok (record {
    key = key;
    unit = b.unit;
    amount = b.amount;
    priority = b.priority;
    idempotency_key = b.idempotency_key;
    metadata = b.metadata;
  })
