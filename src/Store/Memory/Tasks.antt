-- ===== src/Store/Memory/Tasks.antt =====
-- Histories of the in-memory store (src/store/memory.rs). Tasks share the store and each call runs
-- under its write lock, so that what tasks do together is one sequence of calls, in some order.
use budget_warden.Base.{ℕ, List, [], ◌∷◌, arith, Result, inl, inr, Bool-cases}
use budget_warden.Ids.{ReservationId}
use budget_warden.Time.{Timestamp}
use budget_warden.Window.{WindowBounds}
use budget_warden.Error.{StoreError}
use budget_warden.Store.{StoreKey, ReserveRequest}
use budget_warden.Store.Memory.{CounterKey, MemoryState}
use budget_warden.Store.Memory.Reserve.{reserve_locked}
use budget_warden.Store.Memory.Finish.{commit_locked, refund_locked, usage_locked}
use budget_warden.Store.Memory.Locked.{MemoryStore, new, locked, memory_store, reserve_if_allowed}
use budget_warden.Store.Memory.Valid.{empty-IsValid}
use budget_warden.Store.Checks.{validate_cases}
use budget_warden.Store.Memory.History.{
  IsWithin, Respects, cleanup-IsWithin, reserve_locked-IsWithin, commit_locked-IsWithin,
  refund_locked-IsWithin,
}

-- A call of a task, with the instant that it reads from the system clock.
pub data Call : Type 0 where
  reserve : ReserveRequest → Call
  commit refund : ReservationId → Timestamp → Call
  usage : StoreKey → WindowBounds → Timestamp → Call

abbrev pub step : Call → MemoryStore → MemoryStore
step (reserve req) m = (memory_store.reserve_if_allowed req m).1
step (commit id now) m = (memory_store.commit id now m).1
step (refund id now) m = (memory_store.refund id now m).1
step (usage key window now) m = (memory_store.usage key window now m).1

unfoldable pub run : List Call → MemoryStore → MemoryStore
run [] m = m
run (c ∷ cs) m = run cs (step c m)

module _ (k : CounterKey) (ceiling : ℕ) where
  -- Every request for the counter in a history keeps to the ceiling, and no request has the hard
  -- limit `u64::MAX`, at which additions saturate.
  abbrev pub AllRespect : List Call → Type 0
  AllRespect [] = Unit
  AllRespect (reserve req ∷ cs) = Respects k ceiling req × AllRespect cs
  AllRespect (_ ∷ cs) = AllRespect cs

  pub locked-IsWithin :
      {A : Type 0} (body : MemoryState → Result StoreError A × MemoryState) (m : MemoryStore)
      → (IsWithin k ceiling m.state → IsWithin k ceiling (body m.state).1)
      → IsWithin k ceiling m.state
      → IsWithin k ceiling (locked body m).1.state
  unfolding locked
  locked-IsWithin body m keep w = elim (Bool-cases m.poisoned) [
    | inl e ↦ rw (e, locked) w
    | inr e ↦ rw (e, locked) (keep w)
  ]

  usage_locked-IsWithin :
      (key : CounterKey) (now : Timestamp) (s : MemoryState)
      → IsWithin k ceiling s
      → IsWithin k ceiling (usage_locked key now s).1
  unfolding usage_locked
  usage_locked-IsWithin key now s w = cleanup-IsWithin k ceiling now s w

  pub usage-IsWithin :
      (key : CounterKey) (now : Timestamp) (m : MemoryStore)
      → IsWithin k ceiling m.state
      → IsWithin k ceiling (locked (usage_locked key now) m).1.state
  usage-IsWithin key now m =
      locked-IsWithin (usage_locked key now) m (usage_locked-IsWithin key now m.state)

  pub reserve-IsWithin :
      (req : ReserveRequest) (m : MemoryStore)
      → Respects k ceiling req
      → IsWithin k ceiling m.state
      → IsWithin k ceiling (reserve_if_allowed req m).1.state
  unfolding reserve_if_allowed
  reserve-IsWithin req m p w = elim (validate_cases req) [
    | inl (e, f) ↦ rw (f, reserve_if_allowed) w
    | inr (f, t) ↦
        rw (f, reserve_if_allowed)
          (locked-IsWithin (reserve_locked req) m
            (reserve_locked-IsWithin k ceiling req m.state p t.limited t.amount_pos) w)
  ]

  step-IsWithin :
      (c : Call) (m : MemoryStore)
      → AllRespect (c ∷ [])
      → IsWithin k ceiling m.state
      → IsWithin k ceiling (step c m).state
  step-IsWithin (reserve req) m p w = reserve-IsWithin req m p.0 w
  step-IsWithin (commit id now) m p w =
      locked-IsWithin (commit_locked id now) m (commit_locked-IsWithin k ceiling id now m.state) w
  step-IsWithin (refund id now) m p w =
      locked-IsWithin (refund_locked id now) m (refund_locked-IsWithin k ceiling id now m.state) w
  step-IsWithin (usage key window now) m p w = usage-IsWithin _ now m w

  run-IsWithin :
      (cs : List Call) (m : MemoryStore)
      → AllRespect cs
      → IsWithin k ceiling m.state
      → IsWithin k ceiling (run cs m).state
  unfolding run
  run-IsWithin [] m p w = w
  run-IsWithin (reserve req ∷ cs) m p w =
      run-IsWithin cs _ p.1 (step-IsWithin (reserve req) m (p.0, tt) w)
  run-IsWithin (commit id now ∷ cs) m p w =
      run-IsWithin cs _ p (step-IsWithin (commit id now) m tt w)
  run-IsWithin (refund id now ∷ cs) m p w =
      run-IsWithin cs _ p (step-IsWithin (refund id now) m tt w)
  run-IsWithin (usage key window now ∷ cs) m p w =
      run-IsWithin cs _ p (step-IsWithin (usage key window now) m tt w)

  -- However the calls of the tasks that share a new store interleave, its state keeps the invariant,
  -- and what is committed or reserved on a counter never exceeds a ceiling to which the hard limits
  -- of all requests for that counter keep (no request has the hard limit `u64::MAX`).
  pub run-new-IsWithin : (cs : List Call) → AllRespect cs → IsWithin k ceiling (run cs new).state
  run-new-IsWithin cs p =
      run-IsWithin cs new p (record { valid = empty-IsValid; below = omega arith })
