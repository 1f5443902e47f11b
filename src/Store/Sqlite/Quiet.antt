-- ===== src/Store/Sqlite/Quiet.antt =====
-- The parts of the calls of src/store/sqlite.rs that come before a commit, when some of their requests
-- fail.
use budget_warden.Base.{
  ℕ, ◌≡◌, refl, subst, ◌∙◌, ap, List, [], ◌∷◌, Option, none, some, Result, ok, err, pos,
}
use budget_warden.Base.Map.{HashMap, get}
use budget_warden.Store.Sql.Statements.{release_counter, update_status, due_rows, first_live}
use budget_warden.Store.Sql.Atomic.{select-IsQuiet, update-IsQuiet}
use budget_warden.Store.Sql.{RowKey-discrete}
use budget_warden.Store.Sql.Reading.{
  IsReading, select-IsReading, commit_transaction-IsReading, lift-IsReading, pure-IsReading,
  bind-IsReading, begin-reads,
}
use budget_warden.Error.{StoreError, other}
use budget_warden.Ids.{IdempotencyKey}
use budget_warden.Store.{StoreReservationResult}
use budget_warden.Store.Codec.{id_from_i64}
use budget_warden.Store.Sql.{
  RowKey, Status, ReservationRow, Tables, Engine, Connection, Event, works, fails, lost, rollback,
  ◌>>=◌,
}
use budget_warden.Store.Sql.Atomic.{
  Atomically, failed, overtaken, IsQuiet, lift-IsQuiet, pure-IsQuiet, bind-IsQuiet, IsSilent,
  and_then-same, over,
}
use budget_warden.Store.Sqlite.{
  expire_rows, cleanup_expired, load_usage, usage_or_default, replayed,
  existing_idempotent_reservation, existing_from_pool, insertion_failed, look_up, or_raise,
}
use budget_warden.Time.{Timestamp}

module _ (e : Engine) where
  expire_rows-IsQuiet : (rows : HashMap ℕ ReservationRow) → IsQuiet (expire_rows e rows)
  unfolding expire_rows
  expire_rows-IsQuiet [] = pure-IsQuiet tt
  expire_rows-IsQuiet ((id, r) ∷ rows) =
      bind-IsQuiet (update-IsQuiet (release_counter r.row_key r.amount)) (λ a.
        bind-IsQuiet (update-IsQuiet (update_status id Status.expired))
          (λ b. expire_rows-IsQuiet rows))

  pub cleanup_expired-IsQuiet : (now : Timestamp) → IsQuiet (cleanup_expired e now)
  unfolding cleanup_expired
  cleanup_expired-IsQuiet now =
      bind-IsQuiet (select-IsQuiet (λ t. due_rows (e.stored now) t.reservations))
        expire_rows-IsQuiet

  pub load_usage-IsQuiet : (k : RowKey) → IsQuiet (load_usage e k)
  unfolding load_usage
  load_usage-IsQuiet k =
      bind-IsQuiet (select-IsQuiet (λ t. get RowKey-discrete k t.counters))
        (λ row. lift-IsQuiet (usage_or_default e row))

  replayed-IsQuiet : (k : RowKey) (o : Option (ℕ × ReservationRow)) → IsQuiet (replayed e k o)
  replayed-IsQuiet k none = pure-IsQuiet none
  replayed-IsQuiet k (some (id, r)) =
      bind-IsQuiet (load_usage-IsQuiet k)
        (λ u. bind-IsQuiet (lift-IsQuiet (id_from_i64 (pos id))) (λ i. pure-IsQuiet _))

  existing-IsQuiet :
      (k : RowKey) (key : IdempotencyKey) → IsQuiet (existing_idempotent_reservation e k key)
  unfolding existing_idempotent_reservation
  existing-IsQuiet k key =
      bind-IsQuiet (select-IsQuiet (λ t. first_live k key t.reservations)) (replayed-IsQuiet k)

  pub look_up-IsQuiet : (k : RowKey) (key : Option IdempotencyKey) → IsQuiet (look_up e k key)
  look_up-IsQuiet k none = pure-IsQuiet none
  look_up-IsQuiet k (some key) = existing-IsQuiet k key

  replayed-IsReading : (k : RowKey) (o : Option (ℕ × ReservationRow)) → IsReading (replayed e k o)
  unfolding load_usage
  replayed-IsReading k none = pure-IsReading none
  replayed-IsReading k (some (id, r)) =
      bind-IsReading
        (λ u. bind-IsReading (λ i. pure-IsReading _) (lift-IsReading (id_from_i64 (pos id))))
        (bind-IsReading (λ row. lift-IsReading (usage_or_default e row))
          (select-IsReading (λ t. get RowKey-discrete k t.counters)))

  existing_from_pool-reads :
      (k : RowKey) (key : IdempotencyKey) (d w : Tables) (es : List Event)
      → (existing_from_pool e k (some key) (over d w es)).1.durable ≡ d
  unfolding existing_from_pool existing_idempotent_reservation
  existing_from_pool-reads k key = begin-reads (
      bind-IsReading
        (λ result. bind-IsReading (λ u. pure-IsReading result) commit_transaction-IsReading)
        (bind-IsReading (replayed-IsReading k)
          (select-IsReading (λ t. first_live k key t.reservations))))

  or_raise-IsSilent :
      (error : StoreError) (o : Option StoreReservationResult) → IsSilent (or_raise e o error)
  or_raise-IsSilent error none = (err error, λ c. refl)
  or_raise-IsSilent error (some result) = (ok result, λ c. refl)

  -- After the rollback, others may commit, and the call only reads.
  second_look :
      (k : RowKey) (key : IdempotencyKey) (error : StoreError) (x w : Tables) (es : List Event)
      → ((existing_from_pool e k (some key) >>= λ result. or_raise e result error)
          (over x w es)).1.durable
        ≡ x
  second_look k key error x w es =
      ap (λ c. c.durable)
        (and_then-same (λ result. or_raise e result error) (or_raise-IsSilent error)
          (existing_from_pool e k (some key) (over x w es)))
      ∙ existing_from_pool-reads k key x w es

  pub insertion_failed-durable :
      (k : RowKey) (key : IdempotencyKey) (error : StoreError) (x w : Tables)
      → (insertion_failed e k (some key) error (over x w [])).1.durable ≡ e.between x
  unfolding insertion_failed rollback
  insertion_failed-durable k key error x w = second_look k key error (e.between x) x []

  failed_insertion :
      (k : RowKey) (key : IdempotencyKey) (error : StoreError) (x w : Tables) (es : List Event)
      (y : Result StoreError StoreReservationResult × Connection)
      → Atomically e (some key) x (insertion_failed e k (some key) error (over x w es)) y
  unfolding insertion_failed rollback
  failed_insertion k key error x w [] y =
      overtaken key refl (second_look k key error (e.between x) x [])
  failed_insertion k key error x w (works ∷ es) y =
      overtaken key refl (second_look k key error (e.between x) x es)
  failed_insertion k key error x w (fails f ∷ es) y = failed (other f) refl refl
  failed_insertion k key error x w (lost f ∷ es) y = failed (other f) refl refl

  pub insertion_failed-Atomically :
      (k : RowKey) (key : Option IdempotencyKey) (error : StoreError) (d : Tables) (c : Connection)
      (y : Result StoreError StoreReservationResult × Connection)
      → c.durable ≡ d
      → Atomically e key d (insertion_failed e k key error c) y
  unfolding insertion_failed
  insertion_failed-Atomically k none error d c y p = failed error refl p
  insertion_failed-Atomically k (some key) error d c y p =
      subst (λ x. Atomically e (some key) x (insertion_failed e k (some key) error c) y) p
        (failed_insertion k key error c.durable c.working c.events y)
