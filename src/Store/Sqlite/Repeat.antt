-- ===== src/Store/Sqlite/Repeat.antt =====
-- A request with an idempotency key, made twice of src/store/sqlite.rs.
use budget_warden.Base.{
  if_pos, string_eq_iff, ℕ, ◌+◌, ◌≤◌, ◌<◌, ◌≡◌, refl, ◌∙◌, arith, [], ◌∷◌, none, some, true, false,
  Bool-cases, inl, inr, ok, leb, leb_ℤ, ◌+ℤ◌, ℕ_discrete,
}
use budget_warden.Base.Map.{HashMap, get}
use budget_warden.Ids.{IdempotencyKey}
use budget_warden.Store.{ReserveRequest, CounterUsage, allowed, validate}
use budget_warden.Store.Codec.{i64_max, to_i64}
use budget_warden.Store.Sql.{
  RowKey, RowKey-discrete, ReservationRow, Tables, Engine, begin, execute,
}
use budget_warden.Store.Sql.Entering.{counter, granted, new_row}
use budget_warden.Store.Sql.Statements.{first_live, is_taken, has_key, due_rows}
use budget_warden.Store.Sql.View.{AreValid}
use budget_warden.Store.Sqlite.{
  row_key, reserve_row, existing_idempotent_reservation, reserve_transaction, reserve_if_allowed,
}
use budget_warden.Store.Sqlite.Cleaning.{
  calm, cleaned, cleaned-AreValid, cleanup_expired-calm, absent_row,
}
use budget_warden.Store.Sqlite.Granting.{
  demand_rows, committed-cleaned, reserved-cleaned, sequence-cleaned,
}
use budget_warden.Store.Sqlite.Keys.{
  first_live-IsOnly, expired_rows-IsOnly, insert-IsOnly, due_rows-IsAbsent,
}
use budget_warden.Store.Sqlite.Replay.{keyed_row_grants, replayed_row}
use budget_warden.Store.Sqlite.Retry.{expired_rows-is_taken}
use budget_warden.Store.Sqlite.Undisturbed.{row_usage}
use budget_warden.Time.{Timestamp}

first_live-free :
    (k : RowKey) (key : IdempotencyKey) (rs : HashMap ℕ ReservationRow)
    → is_taken k key rs ≡ false
    → first_live k key rs ≡ none
unfolding first_live is_taken
first_live-free k key [] free = refl
first_live-free k key ((id, r) ∷ rs) free = elim (Bool-cases (has_key k key r)) [
  | inl same ↦ absurd (ground arith)
  | inr differs ↦ rw differs (first_live-free k key rs (ground arith))
]

has_key-new_row :
    (k : RowKey) (key : IdempotencyKey) (amount : ℕ) (expires_at : Timestamp)
    → has_key k key (new_row k amount expires_at (some key)) ≡ true
has_key-new_row k key amount expires_at =
    rw (if_pos (RowKey-discrete k k) refl) ((string_eq_iff key key).1 refl)

fresh_transaction :
    (e : Engine) (request : ReserveRequest) (key : IdempotencyKey) (amount limit : ℕ) (d w : Tables)
    → request.idempotency_key ≡ some key
    → first_live
        (row_key e request.key request.window)
        key
        (cleaned (e.stored request.now) d).reservations
      ≡ none
    → reserve_transaction e request amount limit (calm d w)
      ≡ reserve_row e
          (row_key e request.key request.window)
          amount
          limit
          (request.now +ℤ request.reservation_ttl)
          (some key)
          (calm d (cleaned (e.stored request.now) d))
unfolding reserve_transaction begin execute existing_idempotent_reservation
fresh_transaction e request key amount limit d w keyed none_live =
    rw (cleanup_expired-calm e request.now d d, keyed, none_live) refl

module _ (e : Engine) (request : ReserveRequest) (key : IdempotencyKey) (later : Timestamp)
    (d w : Tables) (v : AreValid d) (valid : validate request ≡ ok tt)
    (keyed : request.idempotency_key ≡ some key) (amount_fits : request.amount ≤ i64_max)
    (limit_fits : request.effective_limit ≤ i64_max) (more : d.sequence < i64_max)
    (free : is_taken (row_key e request.key request.window) key d.reservations ≡ false)
    (fits : demand_rows e request d w ≤ request.effective_limit)
    (lasts : leb_ℤ (e.stored (request.now +ℤ request.reservation_ttl)) (e.stored later)
      ≡ false) where
  abbrev k : RowKey
  k = row_key e request.key request.window

  abbrev now : Timestamp
  now = e.stored request.now

  abbrev clean : Tables
  clean = cleaned now d

  abbrev row : ReservationRow
  row = new_row k request.amount (e.stored (request.now +ℤ request.reservation_ttl)) (some key)

  -- The tables after the first call.
  abbrev first : Tables
  first = granted k row clean

  free_clean : is_taken k key clean.reservations ≡ false
  free_clean = expired_rows-is_taken k key (due_rows now d.reservations) d ∙ free

  first_answer : reserve_if_allowed e request (calm d w) ≡ (
    ok (
        allowed
          (record { id = clean.sequence + 1; expires_at = request.now +ℤ request.reservation_ttl })
          (row_usage (counter k first))),
    calm first first,
  )
  unfolding reserve_if_allowed to_i64
  first_answer =
      let a : leb request.amount i64_max ≡ true = ground arith in
      let l : leb request.effective_limit i64_max ≡ true = ground arith in
      let n = sequence-cleaned now k d v in
      let c = committed-cleaned now k d v in
      let r = reserved-cleaned now k d v in
      rw (valid, a, l)
        (fresh_transaction e request key request.amount request.effective_limit d w keyed
            (first_live-free k key clean.reservations free_clean)
          ∙ keyed_row_grants e k key request.amount request.effective_limit
              (request.now +ℤ request.reservation_ttl) d clean limit_fits (omega (arith, n))
              (ground (arith, c, r)) free_clean)

  absent : get ℕ_discrete (clean.sequence + 1) clean.reservations ≡ none
  absent =
      absent_row (clean.sequence + 1) clean.reservations
        ((cleaned-AreValid now d v).fresh (clean.sequence + 1) (omega arith))

  found :
      first_live k key (cleaned (e.stored later) first).reservations
      ≡ some (clean.sequence + 1, row)
  found =
      first_live-IsOnly k key (clean.sequence + 1) row _
        (has_key-new_row k key request.amount (e.stored (request.now +ℤ request.reservation_ttl)))
        refl
        (expired_rows-IsOnly k key (clean.sequence + 1) row
          (due_rows (e.stored later) first.reservations) first
          (due_rows-IsAbsent k key (clean.sequence + 1) row (e.stored later) clean.reservations
            absent (rw lasts refl))
          (insert-IsOnly k key (clean.sequence + 1) row clean.reservations free_clean absent))

  -- A request with a new idempotency key that fits is granted, and when it is made again before its
  -- reservation runs out it is granted the same reservation, and the second call only cleans up:
  -- for a valid request and valid tables, with numbers within `i64`, over undisturbed connections.
  pub reserve_again :
      let (answer, c) = reserve_if_allowed e request (calm d w) in
      let (second, c') = reserve_if_allowed e (record request { now = later }) c in
      ((u : CounterUsage) × (answer
          ≡ ok (
              allowed
                (record {
                  id = d.sequence + 1;
                  expires_at = request.now +ℤ request.reservation_ttl;
                })
                u)))
      × ((u : CounterUsage) × (second
            ≡ ok (
                allowed
                  (record {
                    id = d.sequence + 1;
                    expires_at = e.stored (request.now +ℤ request.reservation_ttl);
                  })
                  u)))
      × (c'.durable ≡ cleaned (e.stored later) c.durable)
  unfolding validate row_key
  reserve_again =
      let n = sequence-cleaned now k d v in
      rw
        (
          first_answer,
          replayed_row e (record request { now = later }) key first first (clean.sequence + 1) row
              valid keyed amount_fits limit_fits found,
        )
        (
          (row_usage (counter k first), rw n refl),
          (row_usage (counter k (cleaned (e.stored later) first)), rw n refl),
          refl,
        )
