-- ===== src/Store.antt =====
-- src/store/contract.rs: what a store is told and what it answers.
pub mod Memory
pub mod Checks
pub mod Codec
pub mod Sql
pub mod Sqlite
pub mod Redis
use budget_warden.Base.{
  ℕ, ◌==◌, ltb, leb_ℤ, pos, saturating_add, String, String-discrete, append, Bool, true, false,
  Option, none, some, Result, ok, ◌>>=◌, ◌>>◌, fail_if,
}
use budget_warden.Error.{StoreError, invalid_input}
use budget_warden.Ids.{ReservationId, IdempotencyKey}
use budget_warden.Key.{BudgetKey, BudgetKey-discrete}
use budget_warden.BudgetUnit.{BudgetUnit, BudgetUnit-discrete, as_str}
use budget_warden.Time.{Timestamp, Duration}
use budget_warden.Window.{WindowBounds}

pub record StoreKey : Type 0 where
  pub policy_name : String
  pub budget_key : BudgetKey
  pub unit : BudgetUnit

-- The derived `PartialEq`.
unfoldable pub StoreKey-discrete : Discrete StoreKey
unfolding String-discrete BudgetKey-discrete BudgetUnit-discrete
StoreKey-discrete = hlevel (String-discrete, BudgetKey-discrete, BudgetUnit-discrete)

-- `a:rest`
abbrev joined : String → String → String
joined a rest = append a (append ":" rest)

-- `StoreKey::compact`
unfoldable pub compact : StoreKey → String
unfolding as_str
compact k = joined k.policy_name (
    joined k.budget_key.provider (
      joined k.budget_key.domain
        (joined k.budget_key.resource (joined k.budget_key.subject (as_str k.unit)))))

pub record StoreReservation : Type 0 where
  pub id : ReservationId
  pub expires_at : Timestamp

pub record CounterUsage : Type 0 where
  pub committed : ℕ
  pub reserved : ℕ

-- `CounterUsage::default`
abbrev pub no_usage : CounterUsage
no_usage = record { committed = 0; reserved = 0 }

-- `CounterUsage::used`
abbrev pub used : CounterUsage → ℕ
used u = saturating_add u.committed u.reserved

pub record StoreReservationResult : Type 0 where
  pub is_allowed : Bool
  pub reservation : Option StoreReservation
  pub usage : CounterUsage

abbrev pub allowed : StoreReservation → CounterUsage → StoreReservationResult
allowed r u = record { is_allowed = true; reservation = some r; usage = u }

abbrev pub denied : CounterUsage → StoreReservationResult
denied u = record { is_allowed = false; reservation = none; usage = u }

pub record ReserveRequest : Type 0 where
  pub key : StoreKey
  pub amount : ℕ
  pub hard_limit : ℕ
  pub effective_limit : ℕ
  pub reservation_ttl : Duration
  pub window : WindowBounds
  pub idempotency_key : Option IdempotencyKey
  pub now : Timestamp

-- `ReserveRequest::validate`
unfoldable pub validate : ReserveRequest → Result StoreError (Unit {0})
validate r = do
  fail_if (r.amount == 0) (invalid_input "amount must be greater than zero")
  fail_if (ltb r.hard_limit r.effective_limit)
      (invalid_input "effective limit must not exceed hard limit")
  fail_if (leb_ℤ r.reservation_ttl (pos 0)) (invalid_input "reservation ttl must be positive")

-- The trait `BudgetStore`, over the state `S` of the store. `commit` and `refund` read the system
-- clock: the instant that they read is their last argument but the state.
pub record BudgetStore (S : Type 0) : Type 0 where
  pub reserve_if_allowed : ReserveRequest → S → Result StoreError StoreReservationResult × S
  pub commit : ReservationId → Timestamp → S → Result StoreError (Unit {0}) × S
  pub refund : ReservationId → Timestamp → S → Result StoreError (Unit {0}) × S
  pub usage : StoreKey → WindowBounds → Timestamp → S → Result StoreError CounterUsage × S
