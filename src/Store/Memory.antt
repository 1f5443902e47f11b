-- ===== src/Store/Memory.antt =====
-- src/store/memory.rs: the state of the in-memory store and the removal of expired reservations.
-- Each call holds the write lock throughout, so it is one step on the state.
pub mod Reserve
pub mod Finish
pub mod Locked
pub mod Counters
pub mod Valid
pub mod Status
pub mod Lapse
pub mod Entering
pub mod Reserving
pub mod Settling
pub mod Ledger
pub mod History
pub mod Tasks
pub mod Granting
pub mod Replay
pub mod Cleanup
use budget_warden.Base.{
  ℕ, ◌+◌, ltb, leb_ℤ, saturating_add, saturating_sub, checked_add, ◌+ℤ◌, ℤ-discrete, String,
  String-discrete, Bool, true, false, ◌&&◌, Option, none, some, List, [], ◌∷◌, Result, ok, err,
  panic, if◌then◌else◌,
}
use budget_warden.Base.Map.{HashMap, get, insert, modify}
use budget_warden.Base.{ℕ_discrete}
use budget_warden.Error.{StoreError, not_found, other}
use budget_warden.Error
use budget_warden.Ids.{ReservationId, IdempotencyKey}
use budget_warden.Time.{Timestamp}
use budget_warden.Window.{WindowBounds}
use budget_warden.Store.{
  StoreKey, StoreKey-discrete, StoreReservationResult, CounterUsage, ReserveRequest, BudgetStore,
  no_usage, used, allowed, denied, validate,
}

pub record CounterKey : Type 0 where
  pub store_key : StoreKey
  pub window_start : Timestamp
  pub window_end : Timestamp

-- The derived `PartialEq`.
unfoldable pub CounterKey-discrete : Discrete CounterKey
unfolding StoreKey-discrete ℤ-discrete
CounterKey-discrete = hlevel (StoreKey-discrete, ℤ-discrete)

unfoldable pub index-discrete : Discrete (CounterKey × IdempotencyKey)
unfolding CounterKey-discrete String-discrete
index-discrete = hlevel (CounterKey-discrete, String-discrete)

-- `CounterKey::new`
abbrev pub counter_key : StoreKey → WindowBounds → CounterKey
counter_key key window = record {
  store_key = key;
  window_start = window.start;
  window_end = window.end;
}

pub data ReservationStatus : Type 0 where
  active committed refunded expired : ReservationStatus

pub record CounterRecord : Type 0 where
  pub committed : ℕ
  pub reserved : ℕ

pub record ReservationRecord : Type 0 where
  pub counter_key : CounterKey
  pub amount : ℕ
  pub expires_at : Timestamp
  pub status : ReservationStatus

pub record MemoryState : Type 0 where
  pub counters : HashMap CounterKey CounterRecord
  pub reservations : HashMap ReservationId ReservationRecord
  pub idempotency : HashMap (CounterKey × IdempotencyKey) ReservationId
  pub next_id : ℕ

-- `MemoryState::default`
abbrev pub empty : MemoryState
empty = record { counters = []; reservations = []; idempotency = []; next_id = 0 }

-- `CounterRecord::default`, and the record that a map holds or the default.
abbrev pub or_default : Option CounterRecord → CounterRecord
or_default none = record { committed = 0; reserved = 0 }
or_default (some c) = c

unfoldable pub counter_at : HashMap CounterKey CounterRecord → CounterKey → CounterRecord
counter_at m k = or_default (get CounterKey-discrete k m)

abbrev pub usage_of : CounterRecord → CounterUsage
usage_of c = record { committed = c.committed; reserved = c.reserved }

abbrev pub usage_for_counter : MemoryState → CounterKey → CounterUsage
usage_for_counter s k = usage_of (counter_at s.counters k)

-- `next_reservation_id`
unfoldable pub next_reservation_id : MemoryState → Result StoreError (ReservationId × MemoryState)
next_reservation_id s = elim (checked_add s.next_id 1) [
  | none ↦ err (other "reservation id overflow")
  | some id ↦ ok (id, record s { next_id = id })
]

abbrev pub is_active : ReservationStatus → Bool
is_active active = true
is_active _ = false

-- The condition of `filter_map` in `cleanup_expired`.
abbrev pub is_due : Timestamp → ReservationRecord → Bool
is_due now r = is_active r.status && leb_ℤ r.expires_at now

unfoldable pub expired_ids :
    Timestamp → HashMap ReservationId ReservationRecord → List ReservationId
expired_ids now [] = []
expired_ids now ((id, r) ∷ rs) =
    let rest = expired_ids now rs in if is_due now r then id ∷ rest else rest

abbrev pub release : ℕ → CounterRecord → CounterRecord
release amount c = record c { reserved = saturating_sub c.reserved amount }

abbrev pub set_status : ReservationStatus → ReservationRecord → ReservationRecord
set_status status r = record r { status = status }

-- One round of the loop in `cleanup_expired`.
unfoldable pub expire_one : ReservationId → MemoryState → MemoryState
expire_one id s = elim (get ℕ_discrete id s.reservations) [
  | none ↦ s
  | some r ↦ record s {
    counters = modify CounterKey-discrete r.counter_key (release r.amount) s.counters;
    reservations = modify ℕ_discrete id (set_status expired) s.reservations;
  }
]

unfoldable pub expire_all : List ReservationId → MemoryState → MemoryState
unfolding expire_one
expire_all [] s = s
expire_all (id ∷ ids) s = expire_all ids (expire_one id s)

unfoldable pub cleanup_expired : Timestamp → MemoryState → MemoryState
unfolding expired_ids expire_all
cleanup_expired now s = expire_all (expired_ids now s.reservations) s
