-- ===== src/Store/Memory/Locked.antt =====
-- src/store/memory.rs: the lock around the state, and the store as a `BudgetStore`.
use budget_warden.Base.{Bool, false, Result, ok, err, panic, if◌then◌else◌}
use budget_warden.Error.{StoreError, other}
use budget_warden.Store.{StoreReservationResult, ReserveRequest, validate, BudgetStore}
use budget_warden.Store.Memory.{counter_key, MemoryState, empty}
use budget_warden.Store.Memory.Reserve.{reserve_locked}
use budget_warden.Store.Memory.Finish.{commit_locked, refund_locked, usage_locked}

-- The `RwLock`: it is poisoned once a thread has panicked while it held the lock.
pub record MemoryStore : Type 0 where
  pub poisoned : Bool
  pub state : MemoryState

-- `MemoryStore::new`
abbrev pub new : MemoryStore
new = record { poisoned = false; state = empty }

-- `write_state`, and the body that runs under the lock.
unfoldable pub locked :
    {A : Type 0}
    → (MemoryState → Result StoreError A × MemoryState)
    → MemoryStore
    → Result StoreError A × MemoryStore
locked body m =
    if m.poisoned
    then (err (other "memory store lock is poisoned"), m)
    else (let (r, s) = body m.state in (r, record m { state = s }))

unfoldable pub reserve_if_allowed :
    ReserveRequest → MemoryStore → Result StoreError StoreReservationResult × MemoryStore
unfolding locked validate
reserve_if_allowed req m = elim (validate req) [
  | ok _ ↦ locked (reserve_locked req) m
  | err e ↦ (err e, m)
  | panic ↦ (panic, m)
]

-- `impl BudgetStore for MemoryStore`
abbrev pub memory_store : BudgetStore MemoryStore
memory_store = record {
  reserve_if_allowed = reserve_if_allowed;
  commit = λ id now. locked (commit_locked id now);
  refund = λ id now. locked (refund_locked id now);
  usage = λ key window now. locked (usage_locked (counter_key key window) now);
}
