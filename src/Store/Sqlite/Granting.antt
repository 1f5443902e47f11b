-- ===== src/Store/Sqlite/Granting.antt =====
-- When `reserve_if_allowed` of src/store/sqlite.rs grants a request, said by the rows of the
-- reservations alone.
use budget_warden.Base.{
  ℕ, ◌+◌, ◌≤◌, ◌<◌, ◌≡◌, refl, ap, ◌∙◌, arith, none, true, false, ◌&&◌, Bool-cases, inl, inr, ok,
  leb, ltb, ◌+ℤ◌, ◌⊎◌, Result, ℕ_discrete,
}
use budget_warden.Base.Map.{insert}
use budget_warden.Error.{StoreError}
use budget_warden.Store.{
  ReserveRequest, StoreReservationResult, CounterUsage, allowed, denied, validate,
}
use budget_warden.Store.Checks.{validate_cases}
use budget_warden.Store.Codec.{i64_max, to_i64}
use budget_warden.Store.Memory.Granting.{cleanup-next_id}
use budget_warden.Store.Memory.Lapse.{held-cleanup, spent-cleanup}
use budget_warden.Store.Memory.Ledger.{live}
use budget_warden.Store.Memory.Valid.{spent, held}
use budget_warden.Store.Sql.{RowKey, ReservationRow, Tables, Connection, Engine, begin}
use budget_warden.Store.Sql.Entering.{
  counter, counter_at-counter, new_row, granted-AreValid, ignored-AreValid,
}
use budget_warden.Store.Sql.View.{view, view_key, AreValid}
use budget_warden.Store.Sqlite.{row_key, reserve_row, reserve_transaction, reserve_if_allowed}
use budget_warden.Store.Sqlite.Cleaning.{
  calm, cleaned, view-cleaned, cleaned-AreValid, cleanup_expired-calm,
}
use budget_warden.Store.Sqlite.Undisturbed.{
  row_usage, reserve_row_grants, reserve_row_denies, counter-granted, counter-ignored,
}
use budget_warden.Time.{Timestamp}

-- The units of a counter that are committed, and those that are reserved at an instant.
abbrev pub spent_rows : RowKey → Tables → ℕ
spent_rows k t = spent (view_key k) (view t)

abbrev pub live_rows : Timestamp → RowKey → Tables → ℕ
live_rows now k t = live now (view_key k) (view t)

module _ (now : Timestamp) (k : RowKey) (t : Tables) (v : AreValid t) where
  pub committed-cleaned : (counter k (cleaned now t)).committed ≡ spent_rows k t
  committed-cleaned =
      let b = (cleaned-AreValid now t v).balanced (view_key k) in
      ground (
        arith,
        counter_at-counter k (cleaned now t),
        b.committed,
        ap (spent (view_key k)) (view-cleaned now t v),
        spent-cleanup now (view_key k) (view t) v.distinct,
      )

  pub reserved-cleaned : (counter k (cleaned now t)).reserved ≡ live_rows now k t
  reserved-cleaned =
      let b = (cleaned-AreValid now t v).balanced (view_key k) in
      ground (
        arith,
        counter_at-counter k (cleaned now t),
        b.reserved,
        ap (λ s. held (view_key k) s) (view-cleaned now t v),
        held-cleanup now (view_key k) (view t) v.distinct,
      )

  pub sequence-cleaned : (cleaned now t).sequence ≡ t.sequence
  sequence-cleaned = ap (λ s. s.next_id) (view-cleaned now t v) ∙ cleanup-next_id now (view t)

reserve_transaction-plain :
    (e : Engine) (request : ReserveRequest) (amount limit : ℕ) (d w : Tables)
    → request.idempotency_key ≡ none
    → reserve_transaction e request amount limit (calm d w)
      ≡ reserve_row e
          (row_key e request.key request.window)
          amount
          limit
          (request.now +ℤ request.reservation_ttl)
          none
          (calm d (cleaned (e.stored request.now) d))
unfolding reserve_transaction begin
reserve_transaction-plain e request amount limit d w plain =
    rw (cleanup_expired-calm e request.now d d, plain) refl

-- `reserve_if_allowed` without an idempotency key, up to its reservation.
pub reserve_if_allowed-plain :
    (e : Engine) (request : ReserveRequest) (d w : Tables)
    → validate request ≡ ok tt
    → request.idempotency_key ≡ none
    → request.amount ≤ i64_max
    → request.effective_limit ≤ i64_max
    → reserve_if_allowed e request (calm d w)
      ≡ reserve_row e
          (row_key e request.key request.window)
          request.amount
          request.effective_limit
          (request.now +ℤ request.reservation_ttl)
          none
          (calm d (cleaned (e.stored request.now) d))
unfolding reserve_if_allowed to_i64
reserve_if_allowed-plain e request d w valid plain amount_fits limit_fits =
    let a : leb request.amount i64_max ≡ true = ground arith in
    let l : leb request.effective_limit i64_max ≡ true = ground arith in
    rw (valid, a, l)
      (reserve_transaction-plain e request request.amount request.effective_limit d w plain)

module _ (e : Engine) (request : ReserveRequest) (d w : Tables) where
  abbrev k : RowKey
  k = row_key e request.key request.window

  abbrev now : Timestamp
  now = e.stored request.now

  -- What the counter would show at the request's instant, the request included.
  abbrev pub demand_rows : ℕ
  demand_rows = spent_rows k d + live_rows now k d + request.amount

  -- The row of the request.
  abbrev pub request_row : ReservationRow
  request_row = new_row k request.amount (e.stored (request.now +ℤ request.reservation_ttl)) none

  -- A call that grants the request, or denies it: what it answers, and what it commits.
  abbrev pub Grants : Result StoreError StoreReservationResult × Connection → Type 0
  Grants (answer, c) =
      let usage : CounterUsage = record {
        committed = spent_rows k d;
        reserved = live_rows now k d + request.amount;
      } in
      let expires_at = request.now +ℤ request.reservation_ttl in
      (answer ≡ ok (allowed (record { id = d.sequence + 1; expires_at = expires_at }) usage))
      × (c.durable.reservations
          ≡ insert ℕ_discrete (d.sequence + 1) request_row (cleaned now d).reservations)
      × (row_usage (counter k c.durable) ≡ usage)
      × AreValid c.durable

  abbrev pub Denies : Result StoreError StoreReservationResult × Connection → Type 0
  Denies (answer, c) =
      let usage : CounterUsage = record {
        committed = spent_rows k d;
        reserved = live_rows now k d;
      } in
      (answer ≡ ok (denied usage))
      × (c.durable.reservations ≡ (cleaned now d).reservations)
      × (row_usage (counter k c.durable) ≡ usage)
      × AreValid c.durable

  module _ (v : AreValid d) (valid : validate request ≡ ok tt)
      (plain : request.idempotency_key ≡ none) (amount_fits : request.amount ≤ i64_max)
      (limit_fits : request.effective_limit ≤ i64_max) (more : d.sequence < i64_max) where
    positive : 0 < request.amount
    positive = elim (validate_cases request) [ inl (f, p) ↦ cc | inr (p, sound) ↦ sound.amount_pos ]

    grants :
        demand_rows ≤ request.effective_limit → Grants (reserve_if_allowed e request (calm d w))
    grants fits =
        let c = committed-cleaned now k d v in
        let r = reserved-cleaned now k d v in
        let n = sequence-cleaned now k d v in
        let below : (counter k (cleaned now d)).committed
              + (counter k (cleaned now d)).reserved
              + request.amount
            ≤ request.effective_limit =
          omega (arith, c, r, fits) in
        rw
          (
            reserve_if_allowed-plain e request d w valid plain amount_fits limit_fits,
            reserve_row_grants e k request.amount request.effective_limit
                (request.now +ℤ request.reservation_ttl) d (cleaned now d) limit_fits
                (omega (arith, n)) below,
          )
          (
            rw (c, r, n) refl,
            rw n refl,
            rw (counter-granted e k request_row (cleaned now d), c, r) refl,
            granted-AreValid k request.amount request.effective_limit
                (e.stored (request.now +ℤ request.reservation_ttl)) none (cleaned now d)
                (omega (arith, below, limit_fits)) positive (cleaned-AreValid now d v),
          )

    denies :
        request.effective_limit < demand_rows
        → (e.checks_sums && ltb i64_max demand_rows) ≡ false
        → Denies (reserve_if_allowed e request (calm d w))
    denies beyond sums =
        let c = committed-cleaned now k d v in
        let r = reserved-cleaned now k d v in
        rw
          (
            reserve_if_allowed-plain e request d w valid plain amount_fits limit_fits,
            reserve_row_denies e k request.amount request.effective_limit
                (request.now +ℤ request.reservation_ttl) none d (cleaned now d) (rw (c, r) sums)
                (omega (arith, c, r, beyond)),
          )
          (
            rw (c, r) refl,
            refl,
            rw (counter-ignored e k (cleaned now d), c, r) refl,
            ignored-AreValid k (cleaned now d) (cleaned-AreValid now d v),
          )

    -- Over an undisturbed connection to valid tables, a valid request without an idempotency key is
    -- granted if it fits below its effective limit, and denied otherwise: as long as the database
    -- can hold the numbers and there are identifiers left. If it is granted, the committed tables
    -- have its row under the next identifier, next to the rows that were there; if it is denied,
    -- they have those only; rows that are due are expired. In both cases the counter's row shows
    -- the units of the answer, which are those of the rows, and the tables are valid.
    pub reserve_if_allowed-answers :
        (e.checks_sums && ltb i64_max demand_rows) ≡ false
        → ((demand_rows ≤ request.effective_limit)
            × Grants (reserve_if_allowed e request (calm d w)))
          ⊎ ((request.effective_limit < demand_rows)
              × Denies (reserve_if_allowed e request (calm d w)))
    reserve_if_allowed-answers sums = elim (Bool-cases (leb demand_rows request.effective_limit)) [
      | inl fits ↦ inl (ground arith, grants (ground arith))
      | inr beyond ↦ inr (ground arith, denies (ground arith) sums)
    ]
