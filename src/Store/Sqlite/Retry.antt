-- ===== src/Store/Sqlite/Retry.antt =====
-- A retry in src/store/sqlite.rs after the reservation with its idempotency key has run out.
use budget_warden.Base.{
  ℕ, ◌≤◌, ◌≡◌, refl, ◌∙◌, arith, [], ◌∷◌, none, some, true, Bool-cases, Option-cases, inl, inr, ok,
  leb, ◌+ℤ◌, ℕ_discrete,
}
use budget_warden.Base.Map.{HashMap, get, modify}
use budget_warden.Error.{StoreError, other}
use budget_warden.Ids.{IdempotencyKey}
use budget_warden.Store.{ReserveRequest, allowed, validate}
use budget_warden.Store.Codec.{i64_max, to_i64, id_from_i64}
use budget_warden.Store.Sql.{
  RowKey, RowKey-discrete, ReservationRow, Status, Tables, Engine, begin, execute, rollback,
  commit_transaction,
}
use budget_warden.Store.Sql.Entering.{counter}
use budget_warden.Store.Sql.Statements.{
  first_live, is_taken, has_key, with_status, insert_reservation, due_rows,
}
use budget_warden.Store.Sqlite.{
  row_key, reserve_row, insert_row, insertion_failed, existing_from_pool, load_usage,
  existing_idempotent_reservation, reserve_transaction, reserve_if_allowed,
}
use budget_warden.Store.Sqlite.Cleaning.{
  calm, cleaned, expired_rows, expired_row, cleanup_expired-calm,
}
use budget_warden.Store.Sqlite.Undisturbed.{total, counted, row_usage, reserve_counter_cases}
use budget_warden.Time.{Timestamp}

module _ (k : RowKey) (key : IdempotencyKey) where
  first_live-is_taken :
      {x : ℕ × ReservationRow} (rs : HashMap ℕ ReservationRow)
      → first_live k key rs ≡ some x
      → is_taken k key rs ≡ true
  unfolding first_live is_taken
  first_live-is_taken [] e = cc
  first_live-is_taken ((id, r) ∷ rs) e = elim (Bool-cases (has_key k key r)) [
    | inl same ↦ rw same refl
    | inr differs ↦ rw differs (first_live-is_taken rs (rw differs at e))
  ]

  modify-is_taken :
      (id : ℕ) (status : Status) (rs : HashMap ℕ ReservationRow)
      → is_taken k key (modify ℕ_discrete id (with_status status) rs) ≡ is_taken k key rs
  unfolding is_taken modify
  modify-is_taken id status [] = refl
  modify-is_taken id status ((j, r) ∷ rs) = elim (ℕ_discrete j id) [
    | yes p ↦ ground arith
    | no p ↦ ground (arith, modify-is_taken id status rs)
  ]

  pub expired_rows-is_taken :
      (rows : HashMap ℕ ReservationRow) (t : Tables)
      → is_taken k key (expired_rows rows t).reservations ≡ is_taken k key t.reservations
  expired_rows-is_taken [] t = refl
  expired_rows-is_taken ((id, r) ∷ rows) t =
      expired_rows-is_taken rows (expired_row id r t)
      ∙ modify-is_taken id Status.expired t.reservations

module _ (e : Engine) (k : RowKey) (key : IdempotencyKey) (d : Tables) (alone : e.between d ≡ d)
    (id : ℕ) (r : ReservationRow) (found : first_live k key d.reservations ≡ some (id, r)) where
  second_answer :
      (error : StoreError) (w : Tables)
      → insertion_failed e k (some key) error (calm d w) ≡ (
        ok (allowed (record { id = id; expires_at = r.expires_at }) (row_usage (counter k d))),
        calm d d,
      )
  unfolding insertion_failed rollback existing_from_pool existing_idempotent_reservation begin
      execute commit_transaction id_from_i64 load_usage
  second_answer error w = elim (Option-cases (get RowKey-discrete k d.counters)) [
    | inl n ↦ rw (alone, found, n) refl
    | inr (c, n) ↦ rw (alone, found, n) refl
  ]

  retried_row :
      (amount limit : ℕ) (expires_at : Timestamp) (w : Tables)
      → is_taken k key w.reservations ≡ true
      → limit ≤ i64_max
      → total e k amount w ≤ limit
      → reserve_row e k amount limit expires_at (some key) (calm d w) ≡ (
        ok (allowed (record { id = id; expires_at = r.expires_at }) (row_usage (counter k d))),
        calm d d,
      )
  unfolding reserve_row insert_row execute insert_reservation
  retried_row amount limit expires_at w taken small fits =
      elim (reserve_counter_cases e k amount limit w) [
        | inl (_, large, _) ↦ absurd (omega arith)
        | inr (inl (beyond, _)) ↦ absurd (omega arith)
        | inr (inr (_, p)) ↦
            rw (p, taken, second_answer (other e.unique_error) (counted e k amount w)) refl
      ]

retried_transaction :
    (e : Engine) (request : ReserveRequest) (key : IdempotencyKey) (d w : Tables) (id : ℕ)
    (r : ReservationRow)
    → request.idempotency_key ≡ some key
    → e.between d ≡ d
    → first_live (row_key e request.key request.window) key d.reservations ≡ some (id, r)
    → first_live
        (row_key e request.key request.window)
        key
        (cleaned (e.stored request.now) d).reservations
      ≡ none
    → request.effective_limit ≤ i64_max
    → total e
        (row_key e request.key request.window)
        request.amount
        (cleaned (e.stored request.now) d)
      ≤ request.effective_limit
    → reserve_transaction e request request.amount request.effective_limit (calm d w) ≡ (
      ok (
          allowed
            (record { id = id; expires_at = r.expires_at })
            (row_usage (counter (row_key e request.key request.window) d))),
      calm d d,
    )
unfolding reserve_transaction begin execute existing_idempotent_reservation
retried_transaction e request key d w id r keyed alone found lapsed small fits =
    let k = row_key e request.key request.window in
    let c = cleaned (e.stored request.now) d in
    let taken : is_taken k key c.reservations ≡ true =
      expired_rows-is_taken k key (due_rows (e.stored request.now) d.reservations) d
      ∙ first_live-is_taken k key d.reservations found in
    rw (cleanup_expired-calm e request.now d d, keyed, lapsed)
      (retried_row e k key d alone id r found request.amount request.effective_limit
        (request.now +ℤ request.reservation_ttl) c taken small fits)

-- A request whose idempotency key belongs to a reservation that has run out, and that would fit, is
-- granted that reservation again: the insertion breaks the unique index, the rollback undoes the
-- clean-up, and the second look finds the reservation still active. The request is valid, its
-- numbers are within `i64`, no row with its key is live once what is due has expired, and no
-- other connection commits during the call.
pub retry_after_expiry :
    (e : Engine) (request : ReserveRequest) (key : IdempotencyKey) (d w : Tables) (id : ℕ)
    (r : ReservationRow)
    → validate request ≡ ok tt
    → request.idempotency_key ≡ some key
    → request.amount ≤ i64_max
    → request.effective_limit ≤ i64_max
    → e.between d ≡ d
    → first_live (row_key e request.key request.window) key d.reservations ≡ some (id, r)
    → first_live
        (row_key e request.key request.window)
        key
        (cleaned (e.stored request.now) d).reservations
      ≡ none
    → total e
        (row_key e request.key request.window)
        request.amount
        (cleaned (e.stored request.now) d)
      ≤ request.effective_limit
    → reserve_if_allowed e request (calm d w) ≡ (
      ok (
          allowed
            (record { id = id; expires_at = r.expires_at })
            (row_usage (counter (row_key e request.key request.window) d))),
      calm d d,
    )
unfolding reserve_if_allowed to_i64
retry_after_expiry e request key d w id r valid keyed amount_fits limit_fits alone found lapsed
      fits =
    let a : leb request.amount i64_max ≡ true = ground arith in
    let l : leb request.effective_limit i64_max ≡ true = ground arith in
    rw (valid, a, l)
      (retried_transaction e request key d w id r keyed alone found lapsed limit_fits fits)
