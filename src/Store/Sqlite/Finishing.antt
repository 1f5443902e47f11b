-- ===== src/Store/Sqlite/Finishing.antt =====
-- `finish_reservation` of src/store/sqlite.rs, when no request fails: on every branch.
use budget_warden.Base.{
  ℕ, ◌+◌, ◌≤◌, ◌≡◌, refl, ap, arith, none, some, true, false, leb, ok, err, ℕ_discrete,
}
use budget_warden.Base.Map.{get, modify}
use budget_warden.Base.Sums.{weight-le-total}
use budget_warden.Error.{StoreError, not_found, other}
use budget_warden.Error
use budget_warden.Store.Codec.{i64_max, to_i64}
use budget_warden.Store.Memory
use budget_warden.Store.Memory.{CounterKey, CounterRecord, MemoryState, release, counter_at}
use budget_warden.Store.Memory.Finish.{settle_commit}
use budget_warden.Store.Memory.History.{in_use}
use budget_warden.Store.Memory.Status.{settled}
use budget_warden.Store.Memory.Valid.{active_weight}
use budget_warden.Store.Sql.{
  RowKey-discrete, CounterRow, active, committed, refunded, ReservationRow, Tables, Engine, begin,
  execute, commit_transaction,
}
use budget_warden.Store.Sql.Entering.{counter_at-counter}
use budget_warden.Store.Sql.Statements.{settle_counter, settled_row, sum_fails, update_status}
use budget_warden.Store.Sql.View.{
  view, view_key, view_row, view_status, AreValid, get-view_rows, view-with_status,
  view-modify_counter,
}
use budget_warden.Store.Sqlite.Finish.{
  FinishAction, commits, refunds, committed_delta, final_status, lapse, settle, finish_status,
  finish_reservation,
}
use budget_warden.Store.Sqlite.Cleaning.{calm, expired_row}
use budget_warden.Time.{Timestamp}

-- The tables after a reservation has been settled.
abbrev pub settled_tables : FinishAction → ℕ → ReservationRow → Tables → Tables
settled_tables action id r t = update_status id (final_status action) (record t {
  counters =
      modify RowKey-discrete r.row_key (settled_row r.amount (committed_delta action r.amount))
        t.counters;
})

-- What the actions are for the store in memory.
abbrev pub memory_settle : FinishAction → ℕ → CounterRecord → CounterRecord
memory_settle commits = settle_commit
memory_settle refunds = release

module _ (e : Engine) (action : FinishAction) (id : ℕ) (now : Timestamp) (d w : Tables) where
  pub lapse-calm :
      (r : ReservationRow)
      → lapse e id r (calm d d)
        ≡ (err Error.expired, calm (expired_row id r d) (expired_row id r d))
  unfolding lapse execute commit_transaction
  lapse-calm r = refl

  pub settle-calm :
      (r : ReservationRow)
      → sum_fails e (get RowKey-discrete r.row_key d.counters) (committed_delta action r.amount)
        ≡ false
      → settle e action id r (calm d d)
        ≡ (ok tt, calm (settled_tables action id r d) (settled_tables action id r d))
  unfolding settle execute settle_counter commit_transaction
  settle-calm r sums = rw sums refl

  pub settle_fails :
      (r : ReservationRow)
      → sum_fails e (get RowKey-discrete r.row_key d.counters) (committed_delta action r.amount)
        ≡ true
      → (settle e action id r (calm d d)).1.durable ≡ d
  unfolding settle execute settle_counter commit_transaction
  settle_fails r sums = rw sums refl

  pub finish_large :
      leb id i64_max ≡ false → (finish_reservation e action id now (calm d w)).1 ≡ calm d w
  unfolding finish_reservation to_i64
  finish_large large = rw large refl

  pub finish_missing :
      leb id i64_max ≡ true
      → get ℕ_discrete id d.reservations ≡ none
      → finish_reservation e action id now (calm d w) ≡ (err not_found, calm d d)
  unfolding finish_reservation to_i64 begin execute
  finish_missing small missing = rw (small, missing) refl

  pub finish_found :
      {r : ReservationRow}
      → leb id i64_max ≡ true
      → get ℕ_discrete id d.reservations ≡ some r
      → finish_reservation e action id now (calm d w)
        ≡ finish_status e action id now r r.status (calm d d)
  unfolding finish_reservation to_i64 begin execute
  finish_found small found = rw (small, found) refl

module _ (id : ℕ) (r : ReservationRow) (t : Tables) (v : AreValid t)
    (found : get ℕ_discrete id t.reservations ≡ some r) (alive : r.status ≡ active) where
  pub view_alive : (view_row r).status ≡ Memory.active
  view_alive = ap view_status alive

  -- The counter holds the reservation's units.
  pub room :
      (c : CounterRow)
      → get RowKey-discrete r.row_key t.counters ≡ some c
      → c.committed + r.amount ≤ in_use (view_key r.row_key) (view t)
  room c e =
      let k = (view_row r).counter_key in
      let b = v.balanced k in
      ground (
        arith,
        counter_at-counter r.row_key t,
        b.reserved,
        b.committed,
        view_alive,
        weight-le-total ℕ_discrete (active_weight k) id (view_row r) (view t).reservations
            (get-view_rows id t.reservations found),
      )

  pub view-settled :
      (action : FinishAction)
      → view (settled_tables action id r t)
        ≡ settled
            (memory_settle action)
            (view_status (final_status action))
            id
            (view_row r)
            (view t)
  view-settled commits =
      rw
        (
          view-with_status id committed t.reservations,
          view-modify_counter r.row_key (settled_row r.amount r.amount) (settle_commit r.amount)
              t.counters
              (λ c e. ground (arith, room c e, (v.balanced (view_key r.row_key)).bounded)),
        )
        refl
  view-settled refunds =
      rw
        (
          view-with_status id refunded t.reservations,
          view-modify_counter r.row_key (settled_row r.amount 0) (release r.amount) t.counters
              (λ c e. ground arith),
        )
        refl
