-- ===== src/Store/Sqlite.antt =====
-- src/store/sqlite.rs: the calls of the store, each over one connection.
pub mod Finish
pub mod Cleaning
pub mod Quiet
pub mod Atomicity
pub mod Undisturbed
pub mod Granting
pub mod Keeping
pub mod Finishing
pub mod Settling
pub mod Counterpart
pub mod Agreement
pub mod History
pub mod Retry
pub mod Once
pub mod Keys
pub mod Replay
pub mod Repeat
use budget_warden.Base.{
  ℕ, ◌==◌, ◌+ℤ◌, leb_ℤ, pos, String, Bool, true, false, Option, none, some, List, [], ◌∷◌, Result,
  ok, err, panic, if◌then◌else◌, ℕ_discrete,
}
use budget_warden.Base.Map.{HashMap, get}
use budget_warden.Error.{StoreError, not_found, other}
use budget_warden.Error
use budget_warden.Ids.{ReservationId, IdempotencyKey}
use budget_warden.Store.{
  StoreKey, StoreReservationResult, CounterUsage, ReserveRequest, no_usage, allowed, denied,
  validate, BudgetStore,
}
use budget_warden.Store.Codec.{to_i64, id_from_i64, usage_from_i64, key}
use budget_warden.Store.Sql.{
  RowKey, RowKey-discrete, CounterRow, Status, active, committed, refunded, expired, other_status,
  ReservationRow, Tables, Engine, Connection, Call, pure, raise, lift, ◌>>=◌, ◌>>◌, execute, select,
  update, begin, commit_transaction, rollback,
}
use budget_warden.Store.Sql.Statements.{
  due_rows, release_counter, update_status, insert_or_ignore, reserve_counter, insert_reservation,
  first_live, settle_counter,
}
use budget_warden.Time.{Timestamp}
use budget_warden.Window.{WindowBounds}

module _ (e : Engine) where
  -- What is bound for a key and a window.
  unfoldable pub row_key : StoreKey → WindowBounds → RowKey
  unfolding key
  row_key k window = record {
    store_key = key k;
    window_start = e.stored window.start;
    window_end = e.stored window.end;
  }

  -- The loop of `cleanup_expired`.
  unfoldable pub expire_rows : HashMap ℕ ReservationRow → Call (Unit {0})
  unfolding execute
  expire_rows [] = pure tt
  expire_rows ((id, r) ∷ rows) = do
    update (release_counter r.row_key r.amount)
    update (update_status id Status.expired)
    expire_rows rows

  unfoldable pub cleanup_expired : Timestamp → Call (Unit {0})
  unfolding expire_rows execute due_rows
  cleanup_expired now = do
    rows ← select (λ t. due_rows (e.stored now) t.reservations)
    expire_rows rows

  abbrev pub usage_or_default : Option CounterRow → Result StoreError CounterUsage
  usage_or_default none = ok no_usage
  usage_or_default (some c) = usage_from_i64 (pos c.committed) (pos c.reserved)

  unfoldable pub load_usage : RowKey → Call CounterUsage
  unfolding execute usage_from_i64
  load_usage k = do
    row ← select (λ t. get RowKey-discrete k t.counters)
    lift (usage_or_default row)

  abbrev pub replayed : RowKey → Option (ℕ × ReservationRow) → Call (Option StoreReservationResult)
  replayed k none = pure none
  replayed k (some (id, r)) = do
    usage ← load_usage k
    reservation_id ← lift (id_from_i64 (pos id))
    pure (some (allowed (record { id = reservation_id; expires_at = r.expires_at }) usage))

  unfoldable pub existing_idempotent_reservation :
      RowKey → IdempotencyKey → Call (Option StoreReservationResult)
  unfolding execute load_usage first_live id_from_i64
  existing_idempotent_reservation k idempotency_key = do
    row ← select (λ t. first_live k idempotency_key t.reservations)
    replayed k row

  unfoldable pub existing_from_pool :
      RowKey → Option IdempotencyKey → Call (Option StoreReservationResult)
  unfolding begin commit_transaction existing_idempotent_reservation
  existing_from_pool k none = pure none
  existing_from_pool k (some idempotency_key) = do
    begin
    result ← existing_idempotent_reservation k idempotency_key
    commit_transaction
    pure result

  -- Other connections may commit here.
  abbrev pub others : Call (Unit {0})
  others c = (ok tt, record c { durable = e.between c.durable })

  -- The arms of the `match` on the answer of the insertion.
  abbrev pub or_raise : Option StoreReservationResult → StoreError → Call StoreReservationResult
  or_raise none error = raise error
  or_raise (some result) error = pure result

  unfoldable pub insertion_failed :
      RowKey → Option IdempotencyKey → StoreError → Call StoreReservationResult
  unfolding rollback existing_from_pool
  insertion_failed k none error = raise error
  insertion_failed k (some idempotency_key) error = do
    rollback
    others
    result ← existing_from_pool k (some idempotency_key)
    or_raise result error

  unfoldable pub inserted : RowKey → Timestamp → ℕ → Call StoreReservationResult
  unfolding load_usage commit_transaction id_from_i64
  inserted k expires_at id = do
    usage ← load_usage k
    commit_transaction
    reservation_id ← lift (id_from_i64 (pos id))
    pure (allowed (record { id = reservation_id; expires_at = expires_at }) usage)

  abbrev pub on_insertion :
      RowKey → Timestamp → Option IdempotencyKey → Result StoreError ℕ → Call StoreReservationResult
  on_insertion k expires_at idempotency_key (ok id) = inserted k expires_at id
  on_insertion k expires_at idempotency_key (err error) = insertion_failed k idempotency_key error
  on_insertion k expires_at idempotency_key panic = lift panic

  unfoldable pub insert_row :
      RowKey → ℕ → Timestamp → Option IdempotencyKey → Call StoreReservationResult
  unfolding execute insert_reservation insertion_failed inserted
  insert_row k amount expires_at idempotency_key c =
      let (answer, c') =
        execute
          (insert_reservation e (record {
            row_key = k;
            amount = amount;
            status = Status.active;
            expires_at = e.stored expires_at;
            idempotency_key = idempotency_key;
          }))
          c in
      on_insertion k expires_at idempotency_key answer c'

  abbrev pub deny : RowKey → Call StoreReservationResult
  deny k = do usage ← load_usage k; commit_transaction; pure (denied usage)

  -- `reserve_if_allowed`, where no reservation is replayed.
  unfoldable pub reserve_row :
      RowKey → ℕ → ℕ → Timestamp → Option IdempotencyKey → Call StoreReservationResult
  unfolding execute insert_or_ignore reserve_counter load_usage commit_transaction insert_row
  reserve_row k amount limit expires_at idempotency_key = do
    update (λ t. record t { counters = insert_or_ignore k t.counters })
    changed ← execute (reserve_counter e k amount limit)
    if changed == 0 then deny k else insert_row k amount expires_at idempotency_key

  abbrev pub look_up : RowKey → Option IdempotencyKey → Call (Option StoreReservationResult)
  look_up k none = pure none
  look_up k (some idempotency_key) = existing_idempotent_reservation k idempotency_key

  abbrev pub replay_or_reserve :
      RowKey
      → ℕ
      → ℕ
      → Timestamp
      → Option IdempotencyKey
      → Option StoreReservationResult
      → Call StoreReservationResult
  replay_or_reserve k amount limit expires_at idempotency_key none =
      reserve_row k amount limit expires_at idempotency_key
  replay_or_reserve k amount limit expires_at idempotency_key (some result) = do
    commit_transaction
    pure result

  -- The first transaction of `reserve_if_allowed`, from its begin on.
  unfoldable pub reserve_transaction : ReserveRequest → ℕ → ℕ → Call StoreReservationResult
  unfolding begin cleanup_expired existing_idempotent_reservation reserve_row commit_transaction
      row_key
  reserve_transaction request amount limit = do
    begin
    cleanup_expired request.now
    found ← look_up (row_key request.key request.window) request.idempotency_key
    replay_or_reserve (row_key request.key request.window) amount limit
        (request.now +ℤ request.reservation_ttl) request.idempotency_key found

  unfoldable pub reserve_if_allowed : ReserveRequest → Call StoreReservationResult
  unfolding validate to_i64 reserve_transaction
  reserve_if_allowed request = do
    lift (validate request)
    amount ← lift (to_i64 request.amount "amount")
    limit ← lift (to_i64 request.effective_limit "effective limit")
    reserve_transaction request amount limit

  unfoldable pub usage : StoreKey → WindowBounds → Timestamp → Call CounterUsage
  unfolding begin cleanup_expired load_usage commit_transaction row_key
  usage k window now = do
    begin
    cleanup_expired now
    result ← load_usage (row_key k window)
    commit_transaction
    pure result
