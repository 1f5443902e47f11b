-- ===== src/Store/Memory/Finish.antt =====
-- src/store/memory.rs: `commit`, `refund` and `usage` under the write lock.
use budget_warden.Base.{ℕ, saturating_add, saturating_sub, none, some, Result, ok, err, ℕ_discrete}
use budget_warden.Base.Map.{get, modify}
use budget_warden.Error.{StoreError, not_found, other}
use budget_warden.Error
use budget_warden.Ids.{ReservationId}
use budget_warden.Time.{Timestamp}
use budget_warden.Store.{CounterUsage}
use budget_warden.Store.Memory.{
  CounterKey, CounterKey-discrete, ReservationStatus, active, committed, refunded, expired,
  CounterRecord, ReservationRecord, MemoryState, usage_for_counter, cleanup_expired, release,
  set_status,
}

abbrev pub settle_commit : ℕ → CounterRecord → CounterRecord
settle_commit amount c = record {
  committed = saturating_add c.committed amount;
  reserved = saturating_sub c.reserved amount;
}

-- The `match` on the status in `commit` and in `refund`. They differ in what is done to the counter
-- and in the status that is set.
unfoldable pub finish_status :
    (ℕ → CounterRecord → CounterRecord)
    → ReservationStatus
    → ReservationId
    → ReservationRecord
    → ReservationStatus
    → MemoryState
    → Result StoreError (Unit {0}) × MemoryState
finish_status settle target id r committed s = (ok tt, s)
finish_status settle target id r refunded s = (ok tt, s)
finish_status settle target id r expired s = (err Error.expired, s)
finish_status settle target id r active s =
    elim (get CounterKey-discrete r.counter_key s.counters) [
      | none ↦ (err (other "reservation counter is missing"), s)
      | some _ ↦ (
        ok tt,
        record s {
          counters = modify CounterKey-discrete r.counter_key (settle r.amount) s.counters;
          reservations = modify ℕ_discrete id (set_status target) s.reservations;
        },
      )
    ]

unfoldable pub finish :
    (ℕ → CounterRecord → CounterRecord)
    → ReservationStatus
    → ReservationId
    → Timestamp
    → MemoryState
    → Result StoreError (Unit {0}) × MemoryState
unfolding cleanup_expired finish_status
finish settle target id now s0 =
    let s = cleanup_expired now s0 in
    elim (get ℕ_discrete id s.reservations) [
      | none ↦ (err not_found, s)
      | some r ↦ finish_status settle target id r r.status s
    ]

unfoldable pub commit_locked :
    ReservationId → Timestamp → MemoryState → Result StoreError (Unit {0}) × MemoryState
unfolding finish
commit_locked = finish settle_commit committed

unfoldable pub refund_locked :
    ReservationId → Timestamp → MemoryState → Result StoreError (Unit {0}) × MemoryState
unfolding finish
refund_locked = finish release refunded

unfoldable pub usage_locked :
    CounterKey → Timestamp → MemoryState → Result StoreError CounterUsage × MemoryState
unfolding cleanup_expired
usage_locked k now s0 = let s = cleanup_expired now s0 in (ok (usage_for_counter s k), s)
