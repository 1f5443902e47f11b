-- ===== src/Store/Sqlite/History.antt =====
-- Histories of the store of src/store/sqlite.rs: calls over connections whose requests may fail.
use budget_warden.Base.{ℕ, subst, sym, List, [], ◌∷◌, arith, Option, Result, String}
use budget_warden.Error.{StoreError}
use budget_warden.Store.{ReserveRequest, StoreKey}
use budget_warden.Store.Memory.{CounterKey}
use budget_warden.Store.Memory.Tasks
use budget_warden.Store.Memory.Tasks.{reserve, commit, refund}
use budget_warden.Store.Memory.Valid.{empty-IsValid}
use budget_warden.Store.Sql.{Tables, Engine, Event, Connection, begin, commit_transaction, empty}
use budget_warden.Store.Sql.Atomic.{Atomically, finished, unanswered, failed, overtaken, over}
use budget_warden.Store.Sqlite.{row_key, usage}
use budget_warden.Store.Sqlite.{reserve_if_allowed}
use budget_warden.Ids.{ReservationId}
use budget_warden.Store.Sqlite.Finish.{
  FinishAction, finish_reservation, commits, refunds, sqlite_store,
}
use budget_warden.Store.Sqlite.Atomicity.{
  reserve_if_allowed-IsAtomic, finish_reservation-IsAtomic, usage-IsAtomic,
}
use budget_warden.Store.Sqlite.Cleaning.{calm, cleanup_expired-calm, cleaned}
use budget_warden.Store.Sqlite.Keeping.{
  AreWithin, Keeps, OthersKeep, cleaned-AreWithin, reserve_if_allowed-AreWithin,
}
use budget_warden.Store.Sqlite.Settling.{finish-AreWithin}
use budget_warden.Store.Sqlite.Undisturbed.{load_usage-calm}
use budget_warden.Time.{Timestamp}
use budget_warden.Window.{WindowBounds}

-- A call of a task, and what becomes of its requests to the database.
pub record Attempt : Type 0 where
  pub call : Tasks.Call
  pub events : List Event

-- What is committed after a call.
abbrev pub attempt : Engine → Tasks.Call → List Event → Tables → Tables
attempt e (reserve request) es t =
    ((sqlite_store e).reserve_if_allowed request (over t t es)).1.durable
attempt e (commit id now) es t = ((sqlite_store e).commit id now (over t t es)).1.durable
attempt e (refund id now) es t = ((sqlite_store e).refund id now (over t t es)).1.durable
attempt e (Tasks.Call.usage key window now) es t =
    ((sqlite_store e).usage key window now (over t t es)).1.durable

unfoldable pub attempt_all : Engine → List Attempt → Tables → Tables
attempt_all e [] t = t
attempt_all e (a ∷ cs) t = attempt_all e cs (attempt e a.call a.events t)

module _ (k : CounterKey) (ceiling : ℕ) where
  -- Every request for the counter keeps to the ceiling.
  abbrev pub CallKeeps : Engine → Tasks.Call → Type 0
  CallKeeps e (reserve request) = Keeps k ceiling e request
  CallKeeps e _ = Unit

  abbrev pub AllKeep : Engine → List Attempt → Type 0
  AllKeep e [] = Unit
  AllKeep e (a ∷ cs) = CallKeeps e a.call × AllKeep e cs

  -- A call ends in one of the states that atomicity allows.
  atomic_rule :
      {A : Type 0} {e : Engine} {key : Option String} {d : Tables}
      {x y : Result StoreError A × Connection}
      → OthersKeep k ceiling e
      → AreWithin k ceiling d
      → AreWithin k ceiling y.1.durable
      → Atomically e key d x y
      → AreWithin k ceiling x.1.durable
  atomic_rule others a b (finished p q) = subst (AreWithin k ceiling) (sym q) b
  atomic_rule others a b (unanswered f p q) = subst (AreWithin k ceiling) (sym q) b
  atomic_rule others a b (failed f p q) = subst (AreWithin k ceiling) (sym q) a
  atomic_rule {d} others a b (overtaken s p q) = subst (AreWithin k ceiling) (sym q) (others d a)

  module _ (e : Engine) (others : OthersKeep k ceiling e) where
    usage-AreWithin :
        (key : StoreKey) (window : WindowBounds) (now : Timestamp) (d w : Tables)
        → AreWithin k ceiling d
        → AreWithin k ceiling (usage e key window now (calm d w)).1.durable
    unfolding usage begin commit_transaction
    usage-AreWithin key window now d w a =
        rw
          (
            cleanup_expired-calm e now d d,
            load_usage-calm e (row_key e key window) d (cleaned (e.stored now) d),
          )
          (cleaned-AreWithin k ceiling (e.stored now) d a)

    -- Each call, over a connection in any state.
    pub reserve-AreWithin :
        (request : ReserveRequest) (c : Connection)
        → Keeps k ceiling e request
        → AreWithin k ceiling c.durable
        → AreWithin k ceiling (reserve_if_allowed e request c).1.durable
    reserve-AreWithin request c keeps w =
        atomic_rule others w
          (reserve_if_allowed-AreWithin k ceiling e request keeps others c.durable c.working w)
          ((reserve_if_allowed-IsAtomic e request).atomically c.durable c.working c.events)

    settle-AreWithin :
        (action : FinishAction) (id : ReservationId) (now : Timestamp) (c : Connection)
        → AreWithin k ceiling c.durable
        → AreWithin k ceiling (finish_reservation e action id now c).1.durable
    settle-AreWithin action id now c w =
        atomic_rule others w (finish-AreWithin k ceiling e action id now c.durable w c.working)
          ((finish_reservation-IsAtomic e action id now).atomically c.durable c.working c.events)

    pub look-AreWithin :
        (key : StoreKey) (window : WindowBounds) (now : Timestamp) (c : Connection)
        → AreWithin k ceiling c.durable
        → AreWithin k ceiling (usage e key window now c).1.durable
    look-AreWithin key window now c w =
        atomic_rule others w (usage-AreWithin key window now c.durable c.working w)
          ((usage-IsAtomic e key window now).atomically c.durable c.working c.events)

    pub attempt-AreWithin :
        (c : Tasks.Call) (es : List Event) (t : Tables)
        → CallKeeps e c
        → AreWithin k ceiling t
        → AreWithin k ceiling (attempt e c es t)
    attempt-AreWithin (reserve request) es t keeps w = reserve-AreWithin request _ keeps w
    attempt-AreWithin (commit id now) es t keeps w = settle-AreWithin commits id now _ w
    attempt-AreWithin (refund id now) es t keeps w = settle-AreWithin refunds id now _ w
    attempt-AreWithin (Tasks.Call.usage key window now) es t keeps w =
        look-AreWithin key window now _ w

    run-AreWithin :
        (cs : List Attempt) (t : Tables)
        → AllKeep e cs
        → AreWithin k ceiling t
        → AreWithin k ceiling (attempt_all e cs t)
    unfolding attempt_all
    run-AreWithin [] t keeps w = w
    run-AreWithin (a ∷ cs) t keeps w =
        run-AreWithin cs _ keeps.1 (attempt-AreWithin a.call a.events t keeps.0 w)

    -- Whatever fails and whichever answers are lost, after any sequence of calls on empty tables the
    -- counters are the sums of their reservations, and what is committed or reserved on a counter does
    -- not exceed a ceiling to which the hard limits of all requests for that counter keep. What
    -- others commit between two transactions of a call keeps to that as well.
    pub attempt_all-AreWithin :
        (cs : List Attempt) → AllKeep e cs → AreWithin k ceiling (attempt_all e cs empty)
    attempt_all-AreWithin cs keeps =
        run-AreWithin cs empty keeps (record { valid = empty-IsValid; below = omega arith })
