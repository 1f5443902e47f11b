-- ===== src/Reservation.antt =====
-- src/reservation.rs and src/decision.rs: the reservation that a caller commits or refunds, and the
-- decision that carries it. `S` is the state of the store. Telemetry has no effect on it.
use budget_warden.Base.{ℕ, String, Option, none, some, Result, err, map_err}
use budget_warden.Error.{BudgetError, StoreError, reservation_not_found, from_store_error}
use budget_warden.Decision.{DenialReason, FallbackAction}
use budget_warden.Ids.{ReservationId}
use budget_warden.Key.{BudgetKey}
use budget_warden.BudgetUnit.{BudgetUnit}
use budget_warden.Store.{BudgetStore}
use budget_warden.Time.{Timestamp}
use budget_warden.Usage.{UsageSnapshot}

pub record BudgetReservation (S : Type 0) : Type 0 where
  pub id : ReservationId
  pub policy_name : String
  pub key : BudgetKey
  pub amount : ℕ
  pub unit : BudgetUnit
  pub expires_at : Timestamp
  pub store : Option (BudgetStore S)

pub data BudgetDecision (S : Type 0) : Type 0 where
  allow_live : BudgetReservation S → UsageSnapshot → BudgetDecision S
  deny_live : DenialReason → UsageSnapshot → FallbackAction → BudgetDecision S

module _ {S : Type 0} where
  -- `BudgetReservation::new`
  abbrev pub attached :
      ReservationId
      → String
      → BudgetKey
      → ℕ
      → BudgetUnit
      → Timestamp
      → BudgetStore S
      → BudgetReservation S
  attached id policy_name key amount unit expires_at store = record {
    id = id;
    policy_name = policy_name;
    key = key;
    amount = amount;
    unit = unit;
    expires_at = expires_at;
    store = some store;
  }

  -- `BudgetReservation::preview`
  abbrev pub preview : String → BudgetKey → ℕ → BudgetUnit → Timestamp → BudgetReservation S
  preview policy_name key amount unit expires_at = record {
    id = 0;
    policy_name = policy_name;
    key = key;
    amount = amount;
    unit = unit;
    expires_at = expires_at;
    store = none;
  }

  abbrev pub lift_store : {A : Type 0} → Result StoreError A × S → Result BudgetError A × S
  lift_store (r, s) = (map_err from_store_error r, s)

  -- The system clock is read by the store, and given here.
  unfoldable pub commit : BudgetReservation S → Timestamp → S → Result BudgetError (Unit {0}) × S
  commit r now s = elim r.store [
    | none ↦ (err reservation_not_found, s)
    | some store ↦ lift_store (store.commit r.id now s)
  ]

  unfoldable pub refund : BudgetReservation S → Timestamp → S → Result BudgetError (Unit {0}) × S
  refund r now s = elim r.store [
    | none ↦ (err reservation_not_found, s)
    | some store ↦ lift_store (store.refund r.id now s)
  ]
