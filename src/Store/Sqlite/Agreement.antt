-- ===== src/Store/Sqlite/Agreement.antt =====
-- The answers of `commit` and `refund` of src/store/sqlite.rs, when no request fails, and the units
-- that they move.
use budget_warden.Base.{
  ℕ, ◌+◌, ◌≤◌, ◌≡◌, ◌≢◌, refl, sym, ap, ◌∙◌, arith, some, true, false, leb_ℤ, ok, ℕ_discrete,
  Option-cases, Bool-cases, inl, inr,
}
use budget_warden.Base.Map.{get}
use budget_warden.Store.Codec.{i64_max}
use budget_warden.Store.Memory
use budget_warden.Store.Memory.{
  CounterKey, MemoryState, ReservationRecord, is_due, cleanup_expired, release,
}
use budget_warden.Store.Memory.History.{in_use}
use budget_warden.Store.Memory.Settling.{held-settled, spent-committed, spent-refunded}
use budget_warden.Store.Memory.Valid.{held, spent}
use budget_warden.Store.Sql.{
  RowKey-discrete, Status, active, committed, refunded, expired, other_status, ReservationRow,
  Tables, Engine, commit_transaction, execute,
}
use budget_warden.Store.Sql.Statements.{sum_fails}
use budget_warden.Store.Sql.View.{
  view, view_key, view_row, view_status, AreValid, get-view_rows, view_rows-absent,
}
use budget_warden.Store.Sqlite.Finish.{
  FinishAction, commits, refunds, committed_delta, final_status, finish_status, finish_reservation,
  settle, lapse,
}
use budget_warden.Store.Sqlite.Cleaning.{calm}
use budget_warden.Store.Sqlite.Finishing.{
  settled_tables, room, memory_settle, settle-calm, finish_missing, finish_found, view-settled,
}
use budget_warden.Time.{Timestamp}
use budget_warden.Store.Sqlite.Counterpart.{
  committed_delta-le, finish_in_memory, is_known, missing_in_memory, expired_in_memory,
  settled_in_memory, refused_in_memory, accepted_in_memory,
}

ends : (action : FinishAction) → view_status (final_status action) ≢ Memory.active
ends commits = λ x. cc
ends refunds = λ x. cc

-- The units that a settlement moves.
module _ (id : ℕ) (d : Tables) (v : AreValid d) where
  pub moved_held :
      (action : FinishAction) (r : ReservationRow)
      → get ℕ_discrete id d.reservations ≡ some r
      → r.status ≡ active
      → held (view_key r.row_key) (view (settled_tables action id r d)) + r.amount
        ≡ held (view_key r.row_key) (view d)
  moved_held action r found alive =
      let seen = get-view_rows id d.reservations found in
      let viewed : (view_row r).status ≡ Memory.active = ap view_status alive in
      ap (λ s. held (view_key r.row_key) s + r.amount) (view-settled id r d v found alive action)
      ∙ ground (
        arith,
        held-settled (view d) id (view_row r) seen viewed (memory_settle action)
            (view_status (final_status action)) (view_key r.row_key) (ends action),
        viewed,
      )

  pub moved_spent :
      (action : FinishAction) (r : ReservationRow)
      → get ℕ_discrete id d.reservations ≡ some r
      → r.status ≡ active
      → spent (view_key r.row_key) (view (settled_tables action id r d))
        ≡ spent (view_key r.row_key) (view d) + committed_delta action r.amount
  moved_spent commits r found alive =
      let seen = get-view_rows id d.reservations found in
      let viewed : (view_row r).status ≡ Memory.active = ap view_status alive in
      ap (spent (view_key r.row_key)) (view-settled id r d v found alive commits)
      ∙ ground
          (arith, spent-committed (view d) id (view_row r) seen viewed (view_key r.row_key), viewed)
  moved_spent refunds r found alive =
      let seen = get-view_rows id d.reservations found in
      let viewed : (view_row r).status ≡ Memory.active = ap view_status alive in
      ap (spent (view_key r.row_key)) (view-settled id r d v found alive refunds)
      ∙ ground
          (arith, spent-refunded (view d) id (view_row r) seen viewed (view_key r.row_key), viewed)

module _ (e : Engine) (action : FinishAction) (id : ℕ) (now : Timestamp) (d : Tables)
    (v : AreValid d) (small : id ≤ i64_max)
    (fits : (k : CounterKey) → in_use k (view d) ≤ i64_max) where
  sums :
      (r : ReservationRow)
      → get ℕ_discrete id d.reservations ≡ some r
      → r.status ≡ active
      → (a : FinishAction)
      → sum_fails e (get RowKey-discrete r.row_key d.counters) (committed_delta a r.amount) ≡ false
  sums r found alive a = elim (Option-cases (get RowKey-discrete r.row_key d.counters)) [
    | inl n ↦ rw n refl
    | inr (c, n) ↦ rw n (
        ground (
          arith,
          committed_delta-le a r.amount,
          room id r d v found alive c n,
          fits (view_key r.row_key),
        ))
  ]

  pub settles :
      (r : ReservationRow)
      → get ℕ_discrete id d.reservations ≡ some r
      → r.status ≡ active
      → settle e action id r (calm d d)
        ≡ (ok tt, calm (settled_tables action id r d) (settled_tables action id r d))
  settles r found alive = settle-calm e action id now d d r (sums r found alive action)

  status-answers :
      (r : ReservationRow) (status : Status)
      → get ℕ_discrete id d.reservations ≡ some r
      → r.status ≡ status
      → is_known status ≡ true
      → (finish_status e action id now r status (calm d d)).0
        ≡ (finish_in_memory action id now (view d)).0
  unfolding finish_status commit_transaction lapse execute
  status-answers r active found s known = elim (Bool-cases (leb_ℤ r.expires_at now)) [
    | inl due ↦ rw due (
        sym (
          refused_in_memory id now (view d) v (view_row r) (get-view_rows id d.reservations found)
            (ap view_status s) (ground (arith, ap view_status s)) action))
    | inr lasts ↦
        rw (lasts, settles r found s)
          (sym (
            accepted_in_memory id now (view d) v (view_row r)
              (get-view_rows id d.reservations found) (ap view_status s)
              (ground (arith, ap view_status s)) action))
  ]
  status-answers r committed found s known = sym (
      settled_in_memory id now (view d) v (view_row r) (get-view_rows id d.reservations found)
        (inl (ap view_status s)) action)
  status-answers r refunded found s known = sym (
      settled_in_memory id now (view d) v (view_row r) (get-view_rows id d.reservations found)
        (inr (ap view_status s)) action)
  status-answers r expired found s known = sym (
      expired_in_memory action id now (view d) v (view_row r)
        (get-view_rows id d.reservations found) (ground (arith, s)))
  status-answers r (other_status word) found s known = cc

  -- A commit or a refund over an undisturbed connection answers as the store in memory would with the
  -- same reservations: for valid tables in which the status of the reservation is one of the four, and
  -- as long as the identifier and the counters are within `i64`.
  pub finish_reservation-answers :
      (x : Tables)
      → ((r : ReservationRow)
          → get ℕ_discrete id d.reservations ≡ some r
          → is_known r.status ≡ true)
      → (finish_reservation e action id now (calm d x)).0
        ≡ (finish_in_memory action id now (view d)).0
  finish_reservation-answers x known = elim (Option-cases (get ℕ_discrete id d.reservations)) [
    | inl missing ↦
        ap (λ y. y.0) (finish_missing e action id now d x (ground arith) missing)
        ∙ sym (
            missing_in_memory action id now (view d) v (view_rows-absent id d.reservations missing))
    | inr (r, found) ↦
        ap (λ y. y.0) (finish_found e action id now d x (ground arith) found)
        ∙ status-answers r r.status found refl (known r found)
  ]
