-- ===== src/Tests/Retries.antt =====
-- Retries of src/store/memory.rs.
use budget_warden.Base.{◌≡◌, refl, some, ok, arith, pos, ◌+ℤ◌}
use budget_warden.Base.Map.{get}
use budget_warden.Store.{ReserveRequest, StoreReservation, CounterUsage, allowed}
use budget_warden.Store.Memory.{empty, cleanup_expired}
use budget_warden.Store.Memory.Replay.{retry, retry_replays}
use budget_warden.Store.Memory.Reserve.{reserve_locked}
use budget_warden.Store.Memory.Valid.{empty-IsValid}
use budget_warden.Time.{Timestamp}
use budget_warden.Tests.Data.{reserving}

abbrev keyed : ReserveRequest
keyed = record (reserving 6) { idempotency_key = some "job-1" }

abbrev soon : Timestamp
soon = pos 33_000_000_000

retry_replays_example :
    let s = (reserve_locked keyed empty).1 in
    (x : StoreReservation) × (u u' : CounterUsage) × ((reserve_locked keyed empty).0
      ≡ ok (allowed x u))
    × (reserve_locked (retry keyed soon) s ≡ (ok (allowed x u'), cleanup_expired soon s))
unfolding get ◌+ℤ◌
retry_replays_example =
    retry_replays keyed "job-1" soon empty empty-IsValid refl refl (omega arith) (omega arith)
      (omega arith) (omega arith) refl
