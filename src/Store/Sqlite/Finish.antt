-- ===== src/Store/Sqlite/Finish.antt =====
-- `commit` and `refund` of src/store/sqlite.rs, and its store as a `BudgetStore`.
use budget_warden.Base.{ℕ, leb_ℤ, Option, none, some, if◌then◌else◌, ℕ_discrete}
use budget_warden.Base.Map.{get}
use budget_warden.Error.{StoreError, not_found, other}
use budget_warden.Error
use budget_warden.Ids.{ReservationId}
use budget_warden.Store.{BudgetStore}
use budget_warden.Store.Codec.{to_i64}
use budget_warden.Store.Sql.{
  Status, active, committed, refunded, expired, other_status, ReservationRow, Engine, Connection,
  Call, raise, lift, ◌>>=◌, ◌>>◌, execute, select, update, begin, commit_transaction,
}
use budget_warden.Store.Sql.Statements.{release_counter, update_status, settle_counter}
use budget_warden.Time.{Timestamp}
use budget_warden.Store.Sqlite.{reserve_if_allowed, usage}

pub data FinishAction : Type 0 where
  commits refunds : FinishAction

-- `committed_delta` and `status` of `finish_reservation`.
abbrev pub committed_delta : FinishAction → ℕ → ℕ
committed_delta commits amount = amount
committed_delta refunds amount = 0

abbrev pub final_status : FinishAction → Status
final_status commits = committed
final_status refunds = refunded

module _ (e : Engine) where
  -- The arm `"active"` of `finish_reservation`, for a reservation that is due.
  unfoldable pub lapse : ℕ → ReservationRow → Call (Unit {0})
  unfolding execute commit_transaction
  lapse id r = do
    update (release_counter r.row_key r.amount)
    update (update_status id Status.expired)
    commit_transaction
    raise Error.expired

  -- The arm `"active"`, for a reservation that is not due.
  unfoldable pub settle : FinishAction → ℕ → ReservationRow → Call (Unit {0})
  unfolding execute settle_counter commit_transaction
  settle action id r = do
    execute (settle_counter e r.row_key r.amount (committed_delta action r.amount))
    update (update_status id (final_status action))
    commit_transaction

  -- The `match` on the status.
  unfoldable pub finish_status :
      FinishAction → ℕ → Timestamp → ReservationRow → Status → Call (Unit {0})
  unfolding lapse settle commit_transaction
  finish_status action id now r active =
      if leb_ℤ r.expires_at now then lapse id r else settle action id r
  finish_status action id now r committed = commit_transaction
  finish_status action id now r refunded = commit_transaction
  finish_status action id now r expired = do commit_transaction; raise Error.expired
  finish_status action id now r (other_status word) = raise (other "unknown reservation status")

  abbrev pub finish_row : FinishAction → ℕ → Timestamp → Option ReservationRow → Call (Unit {0})
  finish_row action id now none = raise not_found
  finish_row action id now (some r) = finish_status action id now r r.status

  -- `now` is what `Utc::now()` reads.
  unfoldable pub finish_reservation : FinishAction → ReservationId → Timestamp → Call (Unit {0})
  unfolding to_i64 begin execute finish_status
  finish_reservation action reservation_id now = do
    id ← lift (to_i64 reservation_id "reservation id")
    begin
    row ← select (λ t. get ℕ_discrete id t.reservations)
    finish_row action id now row

  abbrev pub commit : ReservationId → Timestamp → Call (Unit {0})
  commit = finish_reservation commits

  abbrev pub refund : ReservationId → Timestamp → Call (Unit {0})
  refund = finish_reservation refunds

  -- `impl BudgetStore for SqliteStore`
  abbrev pub sqlite_store : BudgetStore Connection
  sqlite_store = record {
    reserve_if_allowed = reserve_if_allowed e;
    commit = commit;
    refund = refund;
    usage = usage e;
  }
