-- ===== src/Store/Sqlite/Undisturbed.antt =====
-- `reserve_if_allowed` of src/store/sqlite.rs below the replay, when no request fails.
use budget_warden.Base.{
  ℕ, ◌+◌, ◌≤◌, ◌<◌, ◌≡◌, refl, ap, arith, Option, none, some, true, false, ◌&&◌, Bool-cases,
  Option-cases, inl, inr, ◌⊎◌, ok, err, leb, ltb, String,
}
use budget_warden.Base.Map.{get, modify, get-modify_self}
use budget_warden.Error.{StoreError, other}
use budget_warden.Ids.{IdempotencyKey}
use budget_warden.Store.{CounterUsage, allowed, denied}
use budget_warden.Store.Codec.{i64_max}
use budget_warden.Store.Sql.{
  RowKey, RowKey-discrete, CounterRow, ReservationRow, Tables, Engine, execute, commit_transaction,
}
use budget_warden.Store.Sql.Atomic.{over}
use budget_warden.Store.Sql.Entering.{
  counter, ignored, granted, new_row, get-insert_or_ignore, or_zero,
}
use budget_warden.Store.Sql.Statements.{
  reserve_counter, insert_or_ignore, insert_reservation, reserved_more, violates_unique,
}
use budget_warden.Store.Sqlite.{
  load_usage, reserve_row, insert_row, inserted, insertion_failed, deny,
}
use budget_warden.Store.Sqlite.Cleaning.{calm}
use budget_warden.Store.Sqlite.Quiet.{insertion_failed-durable}
use budget_warden.Time.{Timestamp}

abbrev pub row_usage : CounterRow → CounterUsage
row_usage c = record { committed = c.committed; reserved = c.reserved }

module _ (e : Engine) (k : RowKey) where
  pub load_usage-calm :
      (d w : Tables) → load_usage e k (calm d w) ≡ (ok (row_usage (counter k w)), calm d w)
  unfolding load_usage execute
  load_usage-calm d w = elim (Option-cases (get RowKey-discrete k w.counters)) [
    | inl n ↦ rw n refl
    | inr (c, n) ↦ rw n refl
  ]

  -- What the counter would show with the request.
  abbrev pub total : ℕ → Tables → ℕ
  total amount t = (counter k t).committed + (counter k t).reserved + amount

  -- The counter with the request, before the reservation has its row.
  abbrev pub counted : ℕ → Tables → Tables
  counted amount t = record t {
    counters = modify RowKey-discrete k (reserved_more amount) (insert_or_ignore k t.counters);
  }

  pub reserve_counter_cases :
      (amount limit : ℕ) (t : Tables)
      → ((e.checks_sums ≡ true)
          × (i64_max < total amount t)
          × (reserve_counter e k amount limit (ignored k t) ≡ (err e.overflow_error, ignored k t)))
        ⊎ ((limit < total amount t)
            × (reserve_counter e k amount limit (ignored k t) ≡ (ok 0, ignored k t)))
        ⊎ ((total amount t ≤ limit)
            × (reserve_counter e k amount limit (ignored k t) ≡ (ok 1, counted amount t)))
  unfolding reserve_counter
  reserve_counter_cases amount limit t =
      let g = get-insert_or_ignore k t.counters in
      elim (Bool-cases (e.checks_sums && ltb i64_max (total amount t))) [
        | inl large ↦ inl (ground arith, ground arith, rw (g, reserve_counter, large) refl)
        | inr small ↦ elim (Bool-cases (leb (total amount t) limit)) [
          | inl fits ↦ inr (inr (ground arith, rw (g, reserve_counter, small, fits) refl))
          | inr over ↦ inr (inl (ground arith, rw (g, reserve_counter, small, over) refl))
        ]
      ]

  insert_reservation_cases :
      (amount : ℕ) (r : ReservationRow) (t : Tables)
      → ((f : String) × (insert_reservation e r (counted r.amount t) ≡ (err f, counted r.amount t)))
        ⊎ (insert_reservation e r (counted r.amount t) ≡ (ok (t.sequence + 1), granted k r t))
  unfolding insert_reservation
  insert_reservation_cases amount r t =
      elim (Bool-cases (violates_unique r.row_key r.idempotency_key t.reservations)) [
        | inl taken ↦ inl (e.unique_error, rw (taken, insert_reservation) refl)
        | inr free ↦ elim (Bool-cases (leb i64_max t.sequence)) [
          | inl full ↦ inl (e.full_error, rw (free, full, insert_reservation) refl)
          | inr more ↦ inr (rw (free, more, insert_reservation) refl)
        ]
      ]

  pub inserted-calm :
      (expires_at : Timestamp) (id : ℕ) (d w : Tables)
      → inserted e k expires_at id (calm d w) ≡ (
        ok (allowed (record { id = id; expires_at = expires_at }) (row_usage (counter k w))),
        calm w w,
      )
  unfolding inserted commit_transaction
  inserted-calm expires_at id d w = rw (load_usage-calm d w) refl

  deny-calm :
      (d w : Tables) → deny e k (calm d w) ≡ (ok (denied (row_usage (counter k w))), calm w w)
  unfolding commit_transaction
  deny-calm d w = rw (load_usage-calm d w) refl

  -- The tables that the call leaves when nothing fails: a rule for what holds of them.
  module _ {ℓ} (P : Tables → Type ℓ) (amount limit : ℕ) (expires_at : Timestamp)
      (key : Option IdempotencyKey) (d w : Tables) where
    abbrev row : ReservationRow
    row = new_row k amount (e.stored expires_at) key

    insertion_failed_rule :
        (o : Option IdempotencyKey) (error : StoreError) (t : Tables)
        → P d
        → P (e.between d)
        → P (insertion_failed e k o error (calm d t)).1.durable
    unfolding insertion_failed
    insertion_failed_rule none error t same between = same
    insertion_failed_rule (some key) error t same between =
        rw (insertion_failed-durable e k key error d t) between

    insert_row_rule :
        P d
        → P (e.between d)
        → P (granted k row w)
        → P (insert_row e k amount expires_at key (calm d (counted amount w))).1.durable
    unfolding insert_row execute
    insert_row_rule same between new = elim (insert_reservation_cases amount row w) [
      | inl (f, p) ↦ rw p (insertion_failed_rule key (other f) (counted amount w) same between)
      | inr p ↦ rw (p, inserted-calm expires_at (w.sequence + 1) d (granted k row w)) new
    ]

    pub reserve_row_rule :
        P d
        → P (e.between d)
        → P (ignored k w)
        → (total amount w ≤ limit → P (granted k row w))
        → P (reserve_row e k amount limit expires_at key (calm d w)).1.durable
    unfolding reserve_row execute
    reserve_row_rule same between kept new = elim (reserve_counter_cases amount limit w) [
      | inl (_, _, p) ↦ rw p same
      | inr (inl (_, p)) ↦ rw (p, deny-calm d (ignored k w)) kept
      | inr (inr (fits, p)) ↦ rw p (insert_row_rule same between (new fits))
    ]

  pub counter-ignored : (w : Tables) → counter k (ignored k w) ≡ counter k w
  counter-ignored w = ap or_zero (get-insert_or_ignore k w.counters)

  pub counter-granted :
      (r : ReservationRow) (w : Tables)
      → counter k (granted k r w) ≡ reserved_more r.amount (counter k w)
  counter-granted r w = ap or_zero (
      get-modify_self RowKey-discrete k (reserved_more r.amount) _ (insert_or_ignore k w.counters)
        (get-insert_or_ignore k w.counters))

  inserts :
      (amount : ℕ) (expires_at : Timestamp) (w : Tables)
      → w.sequence < i64_max
      → insert_reservation e (new_row k amount expires_at none) (counted amount w)
        ≡ (ok (w.sequence + 1), granted k (new_row k amount expires_at none) w)
  unfolding insert_reservation
  inserts amount expires_at w more =
      let room : leb i64_max w.sequence ≡ false = ground arith in rw room refl

  pub reserve_row_grants :
      (amount limit : ℕ) (expires_at : Timestamp) (d w : Tables)
      → limit ≤ i64_max
      → w.sequence < i64_max
      → total amount w ≤ limit
      → let t = granted k (new_row k amount (e.stored expires_at) none) w in
        reserve_row e k amount limit expires_at none (calm d w) ≡ (
          ok (
              allowed
                (record { id = w.sequence + 1; expires_at = expires_at })
                (record {
                  committed = (counter k w).committed;
                  reserved = (counter k w).reserved + amount;
                })),
          calm t t,
        )
  unfolding reserve_row execute insert_row
  reserve_row_grants amount limit expires_at d w small more fits =
      elim (reserve_counter_cases amount limit w) [
        | inl (_, large, _) ↦ absurd (omega arith)
        | inr (inl (beyond, _)) ↦ absurd (omega arith)
        | inr (inr (_, p)) ↦
            rw
              (
                p,
                inserts amount (e.stored expires_at) w more,
                inserted-calm expires_at (w.sequence + 1) d
                    (granted k (new_row k amount (e.stored expires_at) none) w),
                counter-granted (new_row k amount (e.stored expires_at) none) w,
              )
              refl
      ]

  pub reserve_row_denies :
      (amount limit : ℕ) (expires_at : Timestamp) (key : Option IdempotencyKey) (d w : Tables)
      → (e.checks_sums && ltb i64_max (total amount w)) ≡ false
      → limit < total amount w
      → reserve_row e k amount limit expires_at key (calm d w)
        ≡ (ok (denied (row_usage (counter k w))), calm (ignored k w) (ignored k w))
  unfolding reserve_row execute
  reserve_row_denies amount limit expires_at key d w plain beyond =
      elim (reserve_counter_cases amount limit w) [
        | inl (checks, large, _) ↦ absurd (ground arith)
        | inr (inl (_, p)) ↦ rw (p, deny-calm d (ignored k w), counter-ignored w) refl
        | inr (inr (fits, _)) ↦ absurd (omega arith)
      ]
