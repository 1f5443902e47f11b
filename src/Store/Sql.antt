-- ===== src/Store/Sql.antt =====
-- The tables of migrations/sqlite/001_budget_warden.sql, and the connection over which
-- src/store/sqlite.rs reaches them. Instants are compared as the database does with their texts, whose
-- order is that of the instants. What is written passes the checks on the columns: a request has
-- been validated, and no unit is taken from a counter below zero.
pub mod Statements
pub mod View
pub mod Atomic
pub mod Reading
pub mod Entering
use budget_warden.Base.{
  ℕ, String, String-discrete, ℤ-discrete, Option, List, [], ◌∷◌, Result, ok, err, panic, Bool,
  if◌then◌else◌,
}
use budget_warden.Base.Map.{HashMap}
use budget_warden.Error.{StoreError, other}
use budget_warden.Time.{Timestamp}

-- The primary key of the counters, by which reservations name theirs.
pub record RowKey : Type 0 where
  pub store_key : String
  pub window_start : Timestamp
  pub window_end : Timestamp

unfoldable pub RowKey-discrete : Discrete RowKey
unfolding String-discrete ℤ-discrete
RowKey-discrete = hlevel (String-discrete, ℤ-discrete)

-- A row of `budget_warden_counters`. Its checks keep the two columns from being negative.
pub record CounterRow : Type 0 where
  pub committed : ℕ
  pub reserved : ℕ

-- The text of the column `status`: the words of its check, or another.
pub data Status : Type 0 where
  active committed refunded expired : Status
  other_status : String → Status

-- A row of `budget_warden_reservations`, whose key is `reservation_id`.
pub record ReservationRow : Type 0 where
  pub row_key : RowKey
  pub amount : ℕ
  pub status : Status
  pub expires_at : Timestamp
  pub idempotency_key : Option String

-- `sequence` is the last identifier that was given out.
pub record Tables : Type 0 where
  pub counters : HashMap RowKey CounterRow
  pub reservations : HashMap ℕ ReservationRow
  pub sequence : ℕ

abbrev pub empty : Tables
empty = record { counters = []; reservations = []; sequence = 0 }

-- What becomes of one request over the connection: it is carried out, it fails, or it is carried out
-- and the answer is lost, which the program sees as a failure.
pub data Event : Type 0 where
  works : Event
  fails lost : String → Event

-- What the database is to the program. `stored` is the instant that is read back when an instant has
-- been written; `between` is what other connections commit while this one is between two
-- transactions of one call; `checks_sums` says that a sum beyond `i64` is an error.
pub record Engine : Type 0 where
  pub stored : Timestamp → Timestamp
  pub between : Tables → Tables
  pub checks_sums : Bool
  pub overflow_error : String
  pub unique_error : String
  pub full_error : String

-- `durable` is what is committed, `working` what the open transaction sees. When no more events are
-- given, requests are carried out.
pub record Connection : Type 0 where
  pub durable : Tables
  pub working : Tables
  pub events : List Event

-- A step of a call: it answers, and it leaves the connection in some state also when it fails.
abbrev pub Call : Type 0 → Type 0
Call A = Connection → Result StoreError A × Connection

module _ {A : Type 0} where
  abbrev pub pure : A → Call A
  pure a c = (ok a, c)

  abbrev pub raise : StoreError → Call A
  raise e c = (err e, c)

  abbrev pub lift : Result StoreError A → Call A
  lift r c = (r, c)

-- `?`: what follows an answer.
abbrev pub and_then :
    {A B : Type 0}
    → (A → Call B)
    → Result StoreError A × Connection
    → Result StoreError B × Connection
and_then f (ok a, c) = f a c
and_then f (err e, c) = (err e, c)
and_then f (panic, c) = (panic, c)

infixl 5 ◌>>=◌ ◌>>◌
abbrev pub ◌>>=◌ : {A B : Type 0} → Call A → (A → Call B) → Call B
◌>>=◌ m f c = and_then f (m c)

abbrev pub ◌>>◌ : {B : Type 0} → Call (Unit {0}) → Call B → Call B
m >> k = m >>= λ _. k

abbrev pub next_event : List Event → Event × List Event
next_event [] = (works, [])
next_event (e ∷ es) = (e, es)

-- What a statement answers and leaves, on the tables that the open transaction sees. Its own failure
-- is an error with the text of `sql_error`, and a statement that fails has no effect.
abbrev pub answered :
    {A : Type 0} → Tables → Result String A × Tables → Result StoreError A × Tables
answered before (ok a, after) = (ok a, after)
answered before (err e, after) = (err (other e), before)
answered before (panic, after) = (panic, before)

abbrev pub run_statement : {A : Type 0} → (Tables → Result String A × Tables) → Event → Call A
run_statement statement works c =
    let (r, t) = answered c.working (statement c.working) in (r, record c { working = t })
run_statement statement (fails e) c = (err (other e), c)
run_statement statement (lost e) c = (err (other e), c)

unfoldable pub execute : {A : Type 0} → (Tables → Result String A × Tables) → Call A
execute statement c =
    run_statement statement (next_event c.events).0 (record c { events = (next_event c.events).1 })

-- A statement that reads, and one that writes.
abbrev pub select : {A : Type 0} → (Tables → A) → Call A
select f = execute (λ t. (ok (f t), t))

abbrev pub update : (Tables → Tables) → Call (Unit {0})
update f = execute (λ t. (ok tt, f t))

-- `pool.begin()`
abbrev pub run_begin : Event → Call (Unit {0})
run_begin works c = (ok tt, record c { working = c.durable })
run_begin (fails e) c = (err (other e), c)
run_begin (lost e) c = (err (other e), c)

unfoldable pub begin : Call (Unit {0})
begin c = run_begin (next_event c.events).0 (record c { events = (next_event c.events).1 })

-- `tx.commit()`. When the answer is lost, the changes are there nevertheless.
abbrev pub run_commit : Event → Call (Unit {0})
run_commit works c = (ok tt, record c { durable = c.working })
run_commit (fails e) c = (err (other e), c)
run_commit (lost e) c = (err (other e), record c { durable = c.working })

unfoldable pub commit_transaction : Call (Unit {0})
commit_transaction c =
    run_commit (next_event c.events).0 (record c { events = (next_event c.events).1 })

-- `tx.rollback()`. A transaction that is dropped is rolled back as well: the next one begins with
-- what is committed.
abbrev pub run_rollback : Event → Call (Unit {0})
run_rollback works c = (ok tt, record c { working = c.durable })
run_rollback (fails e) c = (err (other e), c)
run_rollback (lost e) c = (err (other e), c)

unfoldable pub rollback : Call (Unit {0})
rollback c = run_rollback (next_event c.events).0 (record c { events = (next_event c.events).1 })
