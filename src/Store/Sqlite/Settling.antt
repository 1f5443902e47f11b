-- ===== src/Store/Sqlite/Settling.antt =====
-- `commit` and `refund` of src/store/sqlite.rs, when no request fails, against those of the store in
-- memory (src/store/memory.rs).
use budget_warden.Base.{
  ℕ, ◌≡◌, refl, ap, arith, some, leb, leb_ℤ, ℕ_discrete, Option-cases, Bool-cases, inl, inr,
}
use budget_warden.Base.Map.{get}
use budget_warden.Store.Codec.{i64_max}
use budget_warden.Store.Memory
use budget_warden.Store.Memory.{
  CounterKey, MemoryState, ReservationRecord, is_due, set_status, cleanup_expired, release,
}
use budget_warden.Store.Memory.Cleanup.{expired-IsValid, held-expired, spent-expired}
use budget_warden.Store.Memory.Finish.{settle_commit}
use budget_warden.Store.Memory.History.{commit-below, refund-below}
use budget_warden.Store.Memory.Settling.{Finishes, settles, commit-IsValid, refund-IsValid}
use budget_warden.Store.Sql.{
  RowKey-discrete, Status, active, committed, refunded, expired, other_status, ReservationRow,
  Tables, Engine, commit_transaction, execute,
}
use budget_warden.Store.Sql.Statements.{sum_fails}
use budget_warden.Store.Sql.View.{view, view_row, view_status, get-view_rows}
use budget_warden.Store.Sqlite.Finish.{
  FinishAction, commits, refunds, committed_delta, finish_status, finish_reservation, settle, lapse,
}
use budget_warden.Store.Sqlite.Cleaning.{calm, expired_row, view-expired_row}
use budget_warden.Store.Sqlite.Finishing.{
  settled_tables, settle-calm, settle_fails, finish_large, finish_missing, finish_found,
  view-settled,
}
use budget_warden.Store.Sqlite.Keeping.{AreWithin}
use budget_warden.Time.{Timestamp}

module _ (k : CounterKey) (ceiling : ℕ) (id : ℕ) (r : ReservationRow) (t : Tables)
    (found : get ℕ_discrete id t.reservations ≡ some r) (alive : r.status ≡ active)
    (w : AreWithin k ceiling t) where
  seen : get ℕ_discrete id (view t).reservations ≡ some (view_row r)
  seen = get-view_rows id t.reservations found

  viewed_alive : (view_row r).status ≡ Memory.active
  viewed_alive = ap view_status alive

  expired-AreWithin : AreWithin k ceiling (expired_row id r t)
  expired-AreWithin = rw (view-expired_row id r t) (record {
    valid = expired-IsValid (view t) id (view_row r) seen viewed_alive w.valid;
    below = omega (
      arith,
      w.below,
      held-expired (view t) id (view_row r) seen viewed_alive k,
      spent-expired (view t) id (view_row r) seen viewed_alive k,
    );
  })

  pub settled-AreWithin :
      (action : FinishAction) → AreWithin k ceiling (settled_tables action id r t)
  settled-AreWithin commits = rw (view-settled id r t w.valid found alive commits) (
      let f : Finishes settle_commit Memory.committed id (view t) _ =
        settles (view_row r) seen viewed_alive refl in
      record {
        valid = commit-IsValid id (view t) f w.valid;
        below = commit-below k ceiling id (view t) f w.below;
      })
  settled-AreWithin refunds = rw (view-settled id r t w.valid found alive refunds) (
      let f : Finishes release Memory.refunded id (view t) _ =
        settles (view_row r) seen viewed_alive refl in
      record {
        valid = refund-IsValid id (view t) f w.valid;
        below = refund-below k ceiling id (view t) f w.below;
      })

module _ (k : CounterKey) (ceiling : ℕ) (e : Engine) (action : FinishAction) (id : ℕ)
    (now : Timestamp) (d : Tables) (w : AreWithin k ceiling d) where
  settle-AreWithin :
      (r : ReservationRow)
      → get ℕ_discrete id d.reservations ≡ some r
      → r.status ≡ active
      → AreWithin k ceiling (settle e action id r (calm d d)).1.durable
  settle-AreWithin r found alive =
      elim (Bool-cases (
        sum_fails e (get RowKey-discrete r.row_key d.counters) (committed_delta action r.amount))) [
          | inl large ↦ rw (settle_fails e action id now d d r large) w
          | inr sums ↦
              rw (settle-calm e action id now d d r sums)
                (settled-AreWithin k ceiling id r d found alive w action)
        ]

  finish_status-AreWithin :
      (r : ReservationRow) (status : Status)
      → get ℕ_discrete id d.reservations ≡ some r
      → r.status ≡ status
      → AreWithin k ceiling (finish_status e action id now r status (calm d d)).1.durable
  unfolding finish_status commit_transaction lapse execute
  finish_status-AreWithin r active found s = elim (Bool-cases (leb_ℤ r.expires_at now)) [
    | inl due ↦ rw due (expired-AreWithin k ceiling id r d found s w)
    | inr lasts ↦ rw lasts (settle-AreWithin r found s)
  ]
  finish_status-AreWithin r committed found s = w
  finish_status-AreWithin r refunded found s = w
  finish_status-AreWithin r expired found s = w
  finish_status-AreWithin r (other_status word) found s = w

  pub finish-AreWithin :
      (x : Tables) → AreWithin k ceiling (finish_reservation e action id now (calm d x)).1.durable
  finish-AreWithin x = elim (Bool-cases (leb id i64_max)) [
    | inr large ↦ rw (finish_large e action id now d x large) w
    | inl small ↦ elim (Option-cases (get ℕ_discrete id d.reservations)) [
      | inl missing ↦ rw (finish_missing e action id now d x small missing) w
      | inr (r, found) ↦
          rw (finish_found e action id now d x small found)
            (finish_status-AreWithin r r.status found refl)
    ]
  ]
