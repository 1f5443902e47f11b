-- ===== src/Store/Sqlite/Replay.antt =====
-- A retry in src/store/sqlite.rs while the reservation with its idempotency key is live.
use budget_warden.Base.{
  ℕ, ◌+◌, ◌≤◌, ◌<◌, ◌≡◌, refl, arith, some, true, false, Option-cases, inl, inr, ok, leb,
}
use budget_warden.Base.Map.{get}
use budget_warden.Ids.{IdempotencyKey}
use budget_warden.Store.{ReserveRequest, allowed, validate}
use budget_warden.Store.Codec.{i64_max, to_i64, id_from_i64}
use budget_warden.Store.Sql.{
  RowKey, RowKey-discrete, ReservationRow, Tables, Engine, begin, execute, commit_transaction,
}
use budget_warden.Store.Sql.Entering.{counter, granted, new_row}
use budget_warden.Store.Sql.Statements.{first_live, is_taken, insert_reservation}
use budget_warden.Store.Sqlite.{
  row_key, reserve_row, insert_row, existing_idempotent_reservation, reserve_transaction,
  reserve_if_allowed, load_usage,
}
use budget_warden.Store.Sqlite.Cleaning.{calm, cleaned, cleanup_expired-calm}
use budget_warden.Store.Sqlite.Undisturbed.{
  total, counted, row_usage, inserted-calm, reserve_counter_cases,
}
use budget_warden.Time.{Timestamp}

-- A reservation with a key that no row has.
module _ (e : Engine) (k : RowKey) (key : IdempotencyKey) (amount limit : ℕ)
    (expires_at : Timestamp) (d w : Tables) (small : limit ≤ i64_max) (more : w.sequence < i64_max)
    (fits : total e k amount w ≤ limit) (free : is_taken k key w.reservations ≡ false) where
  abbrev row : ReservationRow
  row = new_row k amount (e.stored expires_at) (some key)

  inserts : insert_reservation e row (counted e k amount w) ≡ (ok (w.sequence + 1), granted k row w)
  unfolding insert_reservation
  inserts = let room : leb i64_max w.sequence ≡ false = ground arith in rw (free, room) refl

  pub keyed_row_grants : reserve_row e k amount limit expires_at (some key) (calm d w) ≡ (
    ok (
        allowed
          (record { id = w.sequence + 1; expires_at = expires_at })
          (row_usage (counter k (granted k row w)))),
    calm (granted k row w) (granted k row w),
  )
  unfolding reserve_row execute insert_row
  keyed_row_grants = elim (reserve_counter_cases e k amount limit w) [
    | inl (_, large, _) ↦ absurd (omega arith)
    | inr (inl (beyond, _)) ↦ absurd (omega arith)
    | inr (inr (_, p)) ↦
        rw (p, inserts, inserted-calm e k expires_at (w.sequence + 1) d (granted k row w)) refl
  ]

replayed_transaction :
    (e : Engine) (request : ReserveRequest) (key : IdempotencyKey) (d w : Tables) (id : ℕ)
    (r : ReservationRow)
    → request.idempotency_key ≡ some key
    → first_live
        (row_key e request.key request.window)
        key
        (cleaned (e.stored request.now) d).reservations
      ≡ some (id, r)
    → reserve_transaction e request request.amount request.effective_limit (calm d w) ≡ (
      ok (
          allowed
            (record { id = id; expires_at = r.expires_at })
            (row_usage
              (counter (row_key e request.key request.window) (cleaned (e.stored request.now) d)))),
      calm (cleaned (e.stored request.now) d) (cleaned (e.stored request.now) d),
    )
unfolding reserve_transaction begin execute existing_idempotent_reservation commit_transaction
    load_usage id_from_i64
replayed_transaction e request key d w id r keyed live =
    let k = row_key e request.key request.window in
    elim (Option-cases (get RowKey-discrete k (cleaned (e.stored request.now) d).counters)) [
      | inl n ↦ rw (cleanup_expired-calm e request.now d d, keyed, live, n) refl
      | inr (c, n) ↦ rw (cleanup_expired-calm e request.now d d, keyed, live, n) refl
    ]

-- A live row with the key of a request is the answer.
pub replayed_row :
    (e : Engine) (request : ReserveRequest) (key : IdempotencyKey) (d w : Tables) (id : ℕ)
    (r : ReservationRow)
    → validate request ≡ ok tt
    → request.idempotency_key ≡ some key
    → request.amount ≤ i64_max
    → request.effective_limit ≤ i64_max
    → first_live
        (row_key e request.key request.window)
        key
        (cleaned (e.stored request.now) d).reservations
      ≡ some (id, r)
    → reserve_if_allowed e request (calm d w) ≡ (
      ok (
          allowed
            (record { id = id; expires_at = r.expires_at })
            (row_usage
              (counter (row_key e request.key request.window) (cleaned (e.stored request.now) d)))),
      calm (cleaned (e.stored request.now) d) (cleaned (e.stored request.now) d),
    )
unfolding reserve_if_allowed to_i64
replayed_row e request key d w id r valid keyed amount_fits limit_fits live =
    let a : leb request.amount i64_max ≡ true = ground arith in
    let l : leb request.effective_limit i64_max ≡ true = ground arith in
    rw (valid, a, l) (replayed_transaction e request key d w id r keyed live)
