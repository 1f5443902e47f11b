-- ===== src/Store/Sqlite/Once.antt =====
-- Repeated attempts at `commit` and `refund` of src/store/sqlite.rs.
use budget_warden.Base.{
  ℕ, ◌+◌, ◌≤◌, ◌≡◌, refl, sym, ap, ◌∙◌, arith, List, [], ◌∷◌, some, none, false, leb_ℤ, ◌⊎◌, inl,
  inr, ok, ℕ_discrete, Result,
}
use budget_warden.Base.Map.{get, get-modify_self}
use budget_warden.Error.{StoreError}
use budget_warden.Store.Codec.{i64_max}
use budget_warden.Store.Memory.{CounterKey}
use budget_warden.Store.Memory.History.{in_use}
use budget_warden.Store.Memory.Valid.{held, spent}
use budget_warden.Store.Sql.{
  active, ReservationRow, Tables, Engine, Event, Connection, commit_transaction,
}
use budget_warden.Store.Sql.Atomic.{over, Atomically, finished, unanswered, failed, overtaken}
use budget_warden.Store.Sql.Entering.{counter, counter_at-counter}
use budget_warden.Store.Sql.Statements.{with_status}
use budget_warden.Store.Sql.View.{view, view_key, AreValid}
use budget_warden.Store.Sqlite.Agreement.{settles, moved_held, moved_spent}
use budget_warden.Store.Sqlite.Atomicity.{finish_reservation-IsAtomic}
use budget_warden.Store.Sqlite.Cleaning.{calm}
use budget_warden.Store.Sqlite.Finish.{
  FinishAction, commits, refunds, committed_delta, final_status, finish_status, finish_reservation,
}
use budget_warden.Store.Sqlite.Finishing.{settled_tables, finish_found}
use budget_warden.Store.Sqlite.Keeping.{AreWithin}
use budget_warden.Store.Sqlite.Settling.{settled-AreWithin}
use budget_warden.Time.{Timestamp}

-- An attempt: the instant that it reads, and what becomes of its requests.
abbrev pub Try : Type 0
Try = Timestamp × List Event

-- What is committed after a number of attempts.
unfoldable pub try_all : Engine → FinishAction → ℕ → List Try → Tables → Tables
try_all e action id [] t = t
try_all e action id ((now, es) ∷ tries) t =
    try_all e action id tries (finish_reservation e action id now (over t t es)).1.durable

-- Every attempt is made before an instant.
abbrev pub AllBefore : Timestamp → List Try → Type 0
AllBefore end [] = Unit
AllBefore end ((now, es) ∷ tries) = (leb_ℤ end now ≡ false) × AllBefore end tries

final_status-answer :
    (e : Engine) (action : FinishAction) (id : ℕ) (now : Timestamp) (r : ReservationRow)
    (t : Tables)
    → finish_status e action id now r (final_status action) (calm t t) ≡ (ok tt, calm t t)
unfolding finish_status commit_transaction
final_status-answer e commits id now r t = refl
final_status-answer e refunds id now r t = refl

one_of_two :
    {A : Type 0} (e : Engine) {d t : Tables} {x y : Result StoreError A × Connection}
    → y.1.durable ≡ t
    → Atomically e none d x y
    → (x.1.durable ≡ d) ⊎ (x.1.durable ≡ t)
one_of_two e q (finished p s) = inr (s ∙ q)
one_of_two e q (unanswered f p s) = inr (s ∙ q)
one_of_two e q (failed f p s) = inl s
one_of_two e q (overtaken k p s) = cc

module _ (e : Engine) (action : FinishAction) (id : ℕ) (d : Tables) (v : AreValid d)
    (small : id ≤ i64_max) (fits : (k : CounterKey) → in_use k (view d) ≤ i64_max)
    (r : ReservationRow) (found : get ℕ_discrete id d.reservations ≡ some r)
    (alive : r.status ≡ active) where
  abbrev done : Tables
  done = settled_tables action id r d

  settled_row_found :
      get ℕ_discrete id done.reservations ≡ some (with_status (final_status action) r)
  settled_row_found =
      get-modify_self ℕ_discrete id (with_status (final_status action)) r d.reservations found

  first_answer :
      (now : Timestamp) (w : Tables)
      → leb_ℤ r.expires_at now ≡ false
      → finish_reservation e action id now (calm d w) ≡ (ok tt, calm done done)
  unfolding finish_status
  first_answer now w lasts =
      rw (finish_found e action id now d w (ground arith) found, alive, lasts)
        (settles e action id now d v small fits r found alive)

  later_answer :
      (now : Timestamp) (w : Tables)
      → finish_reservation e action id now (calm done w) ≡ (ok tt, calm done done)
  later_answer now w =
      finish_found e action id now done w (ground arith) settled_row_found
      ∙ final_status-answer e action id now (with_status (final_status action) r) done

  try_all-state :
      (tries : List Try) (t : Tables)
      → AllBefore r.expires_at tries
      → (t ≡ d) ⊎ (t ≡ done)
      → (try_all e action id tries t ≡ d) ⊎ (try_all e action id tries t ≡ done)
  unfolding try_all
  try_all-state [] t before either = either
  try_all-state ((now, es) ∷ tries) t before (inl same) = rw same (
      try_all-state tries _ before.1 (
        one_of_two e (ap (λ x. x.1.durable) (first_answer now d before.0))
          ((finish_reservation-IsAtomic e action id now).atomically d d es)))
  try_all-state ((now, es) ∷ tries) t before (inr same) = rw same (
      try_all-state tries _ before.1 (
        inr (
          stays (
            one_of_two e (ap (λ x. x.1.durable) (later_answer now done))
              ((finish_reservation-IsAtomic e action id now).atomically done done es)))))
    where
      stays : {x : Tables} → (x ≡ done) ⊎ (x ≡ done) → x ≡ done
      stays (inl p) = p
      stays (inr p) = p

  -- The counter's row shows the units that have moved.
  row_moved :
      let k = view_key r.row_key in
      ((counter r.row_key done).reserved + r.amount ≡ held k (view d))
      × ((counter r.row_key done).committed ≡ spent k (view d) + committed_delta action r.amount)
  row_moved =
      let k = view_key r.row_key in
      let within : AreWithin k (in_use k (view d)) d = record { valid = v; below = omega arith } in
      let b =
        (settled-AreWithin k (in_use k (view d)) id r d found alive within action).valid.balanced
          k in
      let c = counter_at-counter r.row_key done in
      let shown : (counter r.row_key done).reserved ≡ held k (view done) =
        sym (ap (λ x. x.reserved) c) ∙ b.reserved in
      let paid : (counter r.row_key done).committed ≡ spent k (view done) =
        sym (ap (λ x. x.committed) c) ∙ b.committed in
      (
        omega (arith, shown, moved_held id d v action r found alive),
        omega (arith, paid, moved_spent id d v action r found alive),
      )

  -- After any number of attempts at a commit or a refund, whatever becomes of their requests, one more
  -- over an undisturbed connection succeeds, and the reservation's units have moved exactly once, in the
  -- rows of the reservations and in the row of their counter: for an active reservation in valid tables,
  -- attempts before it runs out, and numbers within `i64`.
  pub finish_reservation-once :
      (tries : List Try) (now : Timestamp) (w : Tables)
      → AllBefore r.expires_at tries
      → leb_ℤ r.expires_at now ≡ false
      → let (answer, c) =
          finish_reservation e action id now (calm (try_all e action id tries d) w) in
        let k = view_key r.row_key in
        (answer ≡ ok tt)
        × (held k (view c.durable) + r.amount ≡ held k (view d))
        × (spent k (view c.durable) ≡ spent k (view d) + committed_delta action r.amount)
        × ((counter r.row_key c.durable).reserved + r.amount ≡ held k (view d))
        × ((counter r.row_key c.durable).committed
            ≡ spent k (view d) + committed_delta action r.amount)
  finish_reservation-once tries now w before lasts =
      elim (try_all-state tries d before (inl refl)) [
        | inl p ↦
            rw (p, first_answer now w lasts)
              (
                refl,
                moved_held id d v action r found alive,
                moved_spent id d v action r found alive,
                row_moved.0,
                row_moved.1,
              )
        | inr p ↦
            rw (p, later_answer now w)
              (
                refl,
                moved_held id d v action r found alive,
                moved_spent id d v action r found alive,
                row_moved.0,
                row_moved.1,
              )
      ]
