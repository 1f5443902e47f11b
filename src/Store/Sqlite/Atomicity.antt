-- ===== src/Store/Sqlite/Atomicity.antt =====
-- The calls of src/store/sqlite.rs, when some of their requests fail: what they leave behind.
use budget_warden.Base.{
  leb_ℤ, ℕ_discrete, if◌then◌else◌, ℕ, refl, Option, none, some, Bool, true, false, Result, ok, err,
  panic, ◌==◌,
}
use budget_warden.Base.Map.{get}
use budget_warden.Store.Sql.Statements.{
  release_counter, update_status, reserve_counter, insert_or_ignore, settle_counter,
}
use budget_warden.Store.Sql.Atomic.{select-IsQuiet, update-IsQuiet}
use budget_warden.Error.{StoreError}
use budget_warden.Ids.{ReservationId, IdempotencyKey}
use budget_warden.Store.{StoreKey, StoreReservationResult, ReserveRequest, validate}
use budget_warden.Store.Codec.{to_i64}
use budget_warden.Store.Sql.{
  RowKey, Status, active, committed, refunded, expired, other_status, ReservationRow, Tables,
  Engine, Connection,
}
use budget_warden.Store.Sql.Atomic.{
  Quietly, alike, broken, Atomically, finished, IsAtomic, lift-IsQuiet, raise-IsAtomic,
  execute-IsQuiet, begin-IsQuiet, commit_transaction-IsAtomic, bind-IsAtomic, then-IsAtomic,
}
use budget_warden.Store.Sqlite.{
  inserted, on_insertion, insert_row, reserve_row, replay_or_reserve, reserve_transaction,
  reserve_if_allowed, usage, row_key, deny,
}
use budget_warden.Store.Sqlite.Finish.{
  lapse, settle, finish_status, finish_row, finish_reservation, FinishAction,
}
use budget_warden.Store.Sqlite.Finish.{committed_delta, final_status}
use budget_warden.Store.Sqlite.Quiet.{
  cleanup_expired-IsQuiet, load_usage-IsQuiet, look_up-IsQuiet, insertion_failed-Atomically,
}
use budget_warden.Time.{Timestamp}
use budget_warden.Window.{WindowBounds}

module _ (e : Engine) where
  inserted-IsAtomic :
      (k : RowKey) (expires_at : Timestamp) (key : Option IdempotencyKey) (id : ℕ)
      → IsAtomic e key (inserted e k expires_at id)
  unfolding inserted
  inserted-IsAtomic k expires_at key id =
      bind-IsAtomic (load_usage-IsQuiet e k)
        (λ u. then-IsAtomic _ (λ a. (_, λ c. refl)) commit_transaction-IsAtomic)

  on_insertion-Atomically :
      (k : RowKey) (expires_at : Timestamp) (key : Option IdempotencyKey) (d : Tables)
      {x y : Result StoreError ℕ × Connection}
      → Quietly d x y
      → Atomically e key d
          (on_insertion e k expires_at key x.0 x.1)
          (on_insertion e k expires_at key y.0 y.1)
  on_insertion-Atomically k t key d (alike (ok id) w es p q) =
      rw (p, q) ((inserted-IsAtomic k t key id).atomically d w es)
  on_insertion-Atomically k t key d (alike (err f) w es p q) =
      rw (p, q) (insertion_failed-Atomically e k key f d _ _ refl)
  on_insertion-Atomically k t key d (alike panic w es p q) = rw (p, q) (finished refl refl)
  on_insertion-Atomically k t key d (broken f c p q) =
      rw p (insertion_failed-Atomically e k key f d c _ q)

  insert_row-IsAtomic :
      (k : RowKey) (amount : ℕ) (expires_at : Timestamp) (key : Option IdempotencyKey)
      → IsAtomic e key (insert_row e k amount expires_at key)
  unfolding insert_row
  insert_row-IsAtomic k amount t key = record {
    atomically = λ d w es. on_insertion-Atomically k t key d ((execute-IsQuiet _).quietly d w es);
  }

  deny-IsAtomic : (k : RowKey) (key : Option IdempotencyKey) → IsAtomic e key (deny e k)
  deny-IsAtomic k key =
      bind-IsAtomic (load_usage-IsQuiet e k)
        (λ u. then-IsAtomic _ (λ a. (_, λ c. refl)) commit_transaction-IsAtomic)

  changed-IsAtomic :
      (k : RowKey) (amount : ℕ) (expires_at : Timestamp) (key : Option IdempotencyKey) (b : Bool)
      → IsAtomic e key (if b then deny e k else insert_row e k amount expires_at key)
  changed-IsAtomic k amount t key true = deny-IsAtomic k key
  changed-IsAtomic k amount t key false = insert_row-IsAtomic k amount t key

  reserve_row-IsAtomic :
      (k : RowKey) (amount limit : ℕ) (expires_at : Timestamp) (key : Option IdempotencyKey)
      → IsAtomic e key (reserve_row e k amount limit expires_at key)
  unfolding reserve_row
  reserve_row-IsAtomic k amount limit t key =
      bind-IsAtomic (update-IsQuiet (λ t. record t { counters = insert_or_ignore k t.counters }))
        (λ a.
          bind-IsAtomic (execute-IsQuiet (reserve_counter e k amount limit))
            (λ changed. changed-IsAtomic k amount t key (changed == 0)))

  replay_or_reserve-IsAtomic :
      (k : RowKey) (amount limit : ℕ) (expires_at : Timestamp) (key : Option IdempotencyKey)
      (o : Option StoreReservationResult)
      → IsAtomic e key (replay_or_reserve e k amount limit expires_at key o)
  replay_or_reserve-IsAtomic k amount limit t key none = reserve_row-IsAtomic k amount limit t key
  replay_or_reserve-IsAtomic k amount limit t key (some result) =
      then-IsAtomic _ (λ a. (_, λ c. refl)) commit_transaction-IsAtomic

  reserve_transaction-IsAtomic :
      (request : ReserveRequest) (amount limit : ℕ)
      → IsAtomic e request.idempotency_key (reserve_transaction e request amount limit)
  unfolding reserve_transaction
  reserve_transaction-IsAtomic request amount limit = bind-IsAtomic begin-IsQuiet (λ a.
      bind-IsAtomic (cleanup_expired-IsQuiet e request.now) (λ b.
        bind-IsAtomic
          (look_up-IsQuiet e (row_key e request.key request.window) request.idempotency_key)
          (replay_or_reserve-IsAtomic _ amount limit _ request.idempotency_key)))

  -- `reserve_if_allowed` is one step, whichever of its requests fail: it leaves the committed tables
  -- as they were, or as the undisturbed call leaves them, and then it answers as that does or with an
  -- error; for a request with an idempotency key also as others have left them.
  pub reserve_if_allowed-IsAtomic :
      (request : ReserveRequest) → IsAtomic e request.idempotency_key (reserve_if_allowed e request)
  unfolding reserve_if_allowed
  reserve_if_allowed-IsAtomic request = bind-IsAtomic (lift-IsQuiet (validate request)) (λ a.
      bind-IsAtomic (lift-IsQuiet (to_i64 request.amount "amount")) (λ amount.
        bind-IsAtomic (lift-IsQuiet (to_i64 request.effective_limit "effective limit"))
          (reserve_transaction-IsAtomic request amount)))

  lapse-IsAtomic : (id : ℕ) (r : ReservationRow) → IsAtomic e none (lapse e id r)
  unfolding lapse
  lapse-IsAtomic id r = bind-IsAtomic (update-IsQuiet (release_counter r.row_key r.amount)) (λ a.
      bind-IsAtomic (update-IsQuiet (update_status id Status.expired))
        (λ b. then-IsAtomic _ (λ a. (_, λ c. refl)) commit_transaction-IsAtomic))

  settle-IsAtomic :
      (action : FinishAction) (id : ℕ) (r : ReservationRow) → IsAtomic e none (settle e action id r)
  unfolding settle
  settle-IsAtomic action id r =
      bind-IsAtomic
        (execute-IsQuiet (settle_counter e r.row_key r.amount (committed_delta action r.amount)))
        (λ a.
          bind-IsAtomic (update-IsQuiet (update_status id (final_status action)))
            (λ b. commit_transaction-IsAtomic))

  active-IsAtomic :
      (action : FinishAction) (id : ℕ) (r : ReservationRow) (due : Bool)
      → IsAtomic e none (if due then lapse e id r else settle e action id r)
  active-IsAtomic action id r true = lapse-IsAtomic id r
  active-IsAtomic action id r false = settle-IsAtomic action id r

  finish_status-IsAtomic :
      (action : FinishAction) (id : ℕ) (now : Timestamp) (r : ReservationRow) (status : Status)
      → IsAtomic e none (finish_status e action id now r status)
  unfolding finish_status
  finish_status-IsAtomic action id now r active =
      active-IsAtomic action id r (leb_ℤ r.expires_at now)
  finish_status-IsAtomic action id now r committed = commit_transaction-IsAtomic
  finish_status-IsAtomic action id now r refunded = commit_transaction-IsAtomic
  finish_status-IsAtomic action id now r expired =
      then-IsAtomic _ (λ a. (_, λ c. refl)) commit_transaction-IsAtomic
  finish_status-IsAtomic action id now r (other_status word) = raise-IsAtomic _

  finish_row-IsAtomic :
      (action : FinishAction) (id : ℕ) (now : Timestamp) (o : Option ReservationRow)
      → IsAtomic e none (finish_row e action id now o)
  finish_row-IsAtomic action id now none = raise-IsAtomic _
  finish_row-IsAtomic action id now (some r) = finish_status-IsAtomic action id now r r.status

  -- `commit` and `refund` are one step, whichever of their requests fail: they leave the committed
  -- tables as they were, or as the undisturbed call leaves them, and then they answer as that does or
  -- with an error.
  pub finish_reservation-IsAtomic :
      (action : FinishAction) (id : ReservationId) (now : Timestamp)
      → IsAtomic e none (finish_reservation e action id now)
  unfolding finish_reservation
  finish_reservation-IsAtomic action id now =
      bind-IsAtomic (lift-IsQuiet (to_i64 id "reservation id")) (λ id.
        bind-IsAtomic begin-IsQuiet (λ a.
          bind-IsAtomic (select-IsQuiet (λ t. get ℕ_discrete id t.reservations))
            (finish_row-IsAtomic action id now)))

  pub usage-IsAtomic :
      (k : StoreKey) (window : WindowBounds) (now : Timestamp)
      → IsAtomic e none (usage e k window now)
  unfolding usage
  usage-IsAtomic k window now = bind-IsAtomic begin-IsQuiet (λ a.
      bind-IsAtomic (cleanup_expired-IsQuiet e now) (λ b.
        bind-IsAtomic (load_usage-IsQuiet e (row_key e k window))
          (λ u. then-IsAtomic _ (λ a. (_, λ c. refl)) commit_transaction-IsAtomic)))
