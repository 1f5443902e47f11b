-- ===== src/Tests/Store.antt =====
-- Runs of src/store/memory.rs and src/store/contract.rs.
use budget_warden.Base.{
  ◌+◌, ◌≡◌, false, inl, refl, some, ok, err, arith, pos, ◌+ℤ◌, List, [], ◌∷◌, ℕ_discrete,
}
use budget_warden.Base.Map.{get, insert, modify}
use budget_warden.Error.{StoreError}
use budget_warden.Error
use budget_warden.Store.{allowed}
use budget_warden.Store.Memory.{
  CounterKey, CounterKey-discrete, counter_at, counter_key, MemoryState, ReservationRecord, empty,
  cleanup_expired, active, committed,
}
use budget_warden.Store.Memory.Reserve.{reserve_locked}
use budget_warden.Store.Memory.Finish.{commit_locked, refund_locked, usage_locked}
use budget_warden.Store.Memory.Locked.{new, reserve_if_allowed}
use budget_warden.Store.Memory.Entering.{entered}
use budget_warden.Store.Memory.Lapse.{cleanup_expired-reservations, lapse_all}
use budget_warden.Store.Memory.Reserving.{reserve_locked-IsValid}
use budget_warden.Store.Memory.Settling.{commit_locked-IsValid}
use budget_warden.Store.Memory.Granting.{reserve_if_allowed-grants}
use budget_warden.Store.Memory.Ledger.{
  usage_locked-live, live, commit_locked-Settles, refund_locked-Settles, run_out_refused,
  settled_once, Settles,
}
use budget_warden.Store.Memory.Tasks.{Call, reserve, commit, refund, run, run-new-IsWithin}
use budget_warden.Store.Memory.History.{IsWithin}
use budget_warden.Store.Memory.Valid.{IsValid, empty-IsValid, spent}
use budget_warden.Time.{Timestamp}
use budget_warden.Tests.Data.{reserving, search_store_key, first_minute, noon}

abbrev searches : CounterKey
searches = counter_key search_store_key first_minute

abbrev later : Timestamp
later = pos 31_000_000_000

abbrev too_late : Timestamp
too_late = pos 36_000_000_000

-- A store that holds one reservation of six units, and the reservation.
unfoldable six_reserved : MemoryState
unfolding reserve_locked
six_reserved = (reserve_locked (reserving 6) empty).1

abbrev six : ReservationRecord
six = record {
  counter_key = searches;
  amount = 6;
  expires_at = pos 35_000_000_000;
  status = active;
}

six-IsValid : IsValid six_reserved
unfolding six_reserved
six-IsValid = reserve_locked-IsValid (reserving 6) empty (omega arith) (omega arith) empty-IsValid

six-found : get ℕ_discrete 1 six_reserved.reservations ≡ some six
unfolding six_reserved get counter_at insert ℕ_discrete ◌+ℤ◌
six-found = refl

cleanup_expired-reservations_example :
    (cleanup_expired too_late six_reserved).reservations
    ≡ lapse_all too_late six_reserved.reservations
cleanup_expired-reservations_example =
    cleanup_expired-reservations too_late six_reserved six-IsValid.distinct

usage_locked-live_example :
    ((usage_locked searches later six_reserved).0
      ≡ ok (record {
        committed = spent searches six_reserved;
        reserved = live later searches six_reserved;
      }))
    × IsValid (usage_locked searches later six_reserved).1
usage_locked-live_example = usage_locked-live searches later six_reserved six-IsValid

reserve_if_allowed-grants_example :
    let (answer, m) =
      reserve_if_allowed (reserving 4) (record { poisoned = false; state = six_reserved }) in
    (answer
      ≡ ok (
          allowed
            (record { id = six_reserved.next_id + 1; expires_at = noon +ℤ pos 5_000_000_000 })
            (record {
              committed = spent searches six_reserved;
              reserved = live noon searches six_reserved + 4;
            })))
    × (m.state.reservations
        ≡ insert ℕ_discrete
            (six_reserved.next_id + 1)
            (entered (reserving 4) searches)
            (lapse_all noon six_reserved.reservations))
    × (m.state.next_id ≡ six_reserved.next_id + 1)
    × (counter_at m.state.counters searches ≡ record {
      committed = spent searches six_reserved;
      reserved = live noon searches six_reserved + 4;
    })
    × IsValid m.state
unfolding six_reserved counter_at get insert CounterKey-discrete ◌+ℤ◌
reserve_if_allowed-grants_example =
    reserve_if_allowed-grants (reserving 4) (record { poisoned = false; state = six_reserved }) refl
      six-IsValid
      (record { amount_pos = omega arith; limited = omega arith; lasting = omega arith }) refl
      (omega arith) (omega arith) (omega arith)

commit_locked-Settles_example :
    Settles later six 6 six_reserved (commit_locked 1 later six_reserved)
commit_locked-Settles_example =
    commit_locked-Settles 1 later six_reserved six six-IsValid six-found refl refl

refund_locked-Settles_example :
    Settles later six 0 six_reserved (refund_locked 1 later six_reserved)
refund_locked-Settles_example =
    refund_locked-Settles 1 later six_reserved six six-IsValid six-found refl refl

run_out_refused_example :
    (commit_locked 1 too_late six_reserved
      ≡ (err Error.expired, cleanup_expired too_late six_reserved))
    × (refund_locked 1 too_late six_reserved
        ≡ (err Error.expired, cleanup_expired too_late six_reserved))
run_out_refused_example =
    run_out_refused 1 too_late six_reserved six six-IsValid six-found refl refl

-- The reservation is committed.
unfoldable six_spent : MemoryState
unfolding commit_locked
six_spent = (commit_locked 1 later six_reserved).1

six_spent-IsValid : IsValid six_spent
unfolding six_spent
six_spent-IsValid = commit_locked-IsValid 1 later six_reserved six-IsValid

six_spent-found : get ℕ_discrete 1 six_spent.reservations ≡ some (record six { status = committed })
unfolding six_spent six_reserved get counter_at insert ◌+ℤ◌ ℕ_discrete CounterKey-discrete modify
six_spent-found = refl

settled_once_example :
    (commit_locked 1 later six_spent ≡ (ok tt, cleanup_expired later six_spent))
    × (refund_locked 1 later six_spent ≡ (ok tt, cleanup_expired later six_spent))
settled_once_example =
    settled_once 1 later six_spent (record six { status = committed }) six_spent-IsValid
      six_spent-found (inl refl)

abbrev calls : List Call
calls = reserve (reserving 6) ∷ reserve (reserving 5) ∷ commit 1 later ∷ refund 2 later ∷ []

run-new-IsWithin_example : IsWithin searches 10 (run calls new).state
run-new-IsWithin_example = run-new-IsWithin searches 10 calls (
  record { small = omega arith; within = λ e. omega arith },
  (record { small = omega arith; within = λ e. omega arith }, tt),
)
