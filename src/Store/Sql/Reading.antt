-- ===== src/Store/Sql/Reading.antt =====
-- Transactions that only read (src/store/sqlite.rs).
use budget_warden.Base.{◌≡◌, refl, [], ◌∷◌, List, Result, ok, err, panic}
use budget_warden.Error.{StoreError}
use budget_warden.Store.Sql.{
  Tables, Event, works, fails, lost, Connection, Call, lift, pure, select, execute, begin,
  commit_transaction, ◌>>=◌, ◌>>◌, and_then,
}
use budget_warden.Store.Sql.Atomic.{over}

-- The transaction has changed nothing.
pub record IsUnchanged (d : Tables) (c : Connection) : Type 0 where
  pub durable : c.durable ≡ d
  pub working : c.working ≡ d

pub record IsReading {A : Type 0} (m : Call A) : Type 0 where
  pub reads : (d : Tables) (c : Connection) → IsUnchanged d c → IsUnchanged d (m c).1

module _ {A : Type 0} (f : Tables → A) where
  select-reads :
      (d x w : Tables) (es : List Event)
      → IsUnchanged d (over x w es)
      → IsUnchanged d (select f (over x w es)).1
  unfolding execute
  select-reads d x w [] h = h
  select-reads d x w (works ∷ es) h = record { durable = h.durable; working = h.working }
  select-reads d x w (fails g ∷ es) h = record { durable = h.durable; working = h.working }
  select-reads d x w (lost g ∷ es) h = record { durable = h.durable; working = h.working }

  pub select-IsReading : IsReading (select f)
  select-IsReading = record { reads = λ d c. select-reads d c.durable c.working c.events }

commit-reads :
    (d x w : Tables) (es : List Event)
    → IsUnchanged d (over x w es)
    → IsUnchanged d (commit_transaction (over x w es)).1
unfolding commit_transaction
commit-reads d x w [] h = record { durable = h.working; working = h.working }
commit-reads d x w (works ∷ es) h = record { durable = h.working; working = h.working }
commit-reads d x w (fails f ∷ es) h = record { durable = h.durable; working = h.working }
commit-reads d x w (lost f ∷ es) h = record { durable = h.working; working = h.working }

pub commit_transaction-IsReading : IsReading commit_transaction
commit_transaction-IsReading = record { reads = λ d c. commit-reads d c.durable c.working c.events }

pub lift-IsReading : {A : Type 0} (r : Result StoreError A) → IsReading (lift r)
lift-IsReading r = record { reads = λ d c h. h }

pub pure-IsReading : {A : Type 0} (a : A) → IsReading (pure a)
pure-IsReading a = record { reads = λ d c h. h }

module _ {A B : Type 0} {f : A → Call B} (k : (a : A) → IsReading (f a)) where
  and_then-IsUnchanged :
      (d : Tables) (x : Result StoreError A × Connection)
      → IsUnchanged d x.1
      → IsUnchanged d (and_then f x).1
  and_then-IsUnchanged d (ok a, c) h = (k a).reads d c h
  and_then-IsUnchanged d (err e, c) h = h
  and_then-IsUnchanged d (panic, c) h = h

  pub bind-IsReading : {m : Call A} → IsReading m → IsReading (m >>= f)
  bind-IsReading {m} q = record { reads = λ d c h. and_then-IsUnchanged d (m c) (q.reads d c h) }

-- A whole transaction.
pub begin-reads :
    {A : Type 0} {m : Call A}
    → IsReading m
    → (d w : Tables) (es : List Event)
    → ((begin >> m) (record { durable = d; working = w; events = es })).1.durable ≡ d
unfolding begin
begin-reads q d w [] = (q.reads d _ (record { durable = refl; working = refl })).durable
begin-reads q d w (works ∷ es) = (q.reads d _ (record { durable = refl; working = refl })).durable
begin-reads q d w (fails f ∷ es) = refl
begin-reads q d w (lost f ∷ es) = refl
