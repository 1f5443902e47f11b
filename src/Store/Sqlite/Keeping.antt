-- ===== src/Store/Sqlite/Keeping.antt =====
-- `reserve_if_allowed` of src/store/sqlite.rs, when no request fails: the invariant of the tables, and a
-- ceiling.
use budget_warden.Base.{
  ℕ, ◌+◌, ◌≤◌, ◌<◌, ◌≡◌, refl, arith, Option, none, some, Bool-cases, inl, inr, ok, leb, String,
  ◌+ℤ◌,
}
use budget_warden.Ids.{IdempotencyKey}
use budget_warden.Store.{ReserveRequest, StoreReservationResult, allowed}
use budget_warden.Store.Checks.{validate_cases}
use budget_warden.Store.Codec.{i64_max, to_i64, id_from_i64}
use budget_warden.Store.Memory.{CounterKey}
use budget_warden.Store.Memory.History.{IsWithin, cleanup-IsWithin, entering-below}
use budget_warden.Store.Sql.{
  RowKey, ReservationRow, Tables, Engine, begin, execute, commit_transaction,
}
use budget_warden.Store.Sql.Entering.{
  counter, ignored, granted, new_row, ignored-AreValid, granted-AreValid, view-granted, proxy,
  counter_at-counter,
}
use budget_warden.Store.Sql.Statements.{first_live}
use budget_warden.Store.Sql.View.{view, view_key}
use budget_warden.Store.Sqlite.{
  row_key, reserve_transaction, reserve_if_allowed, look_up, replay_or_reserve, replayed,
  existing_idempotent_reservation,
}
use budget_warden.Store.Sqlite.Cleaning.{calm, cleaned, view-cleaned, cleanup_expired-calm}
use budget_warden.Store.Sqlite.Undisturbed.{row_usage, load_usage-calm, reserve_row_rule}
use budget_warden.Time.{Timestamp}

-- A lookup changes nothing.
module _ (e : Engine) (k : RowKey) (d w : Tables) where
  replayed-calm :
      (o : Option (ℕ × ReservationRow))
      → (p : Option StoreReservationResult) × (replayed e k o (calm d w) ≡ (ok p, calm d w))
  unfolding id_from_i64
  replayed-calm none = (none, refl)
  replayed-calm (some (id, r)) = (
    some (allowed (record { id = id; expires_at = r.expires_at }) (row_usage (counter k w))),
    rw (load_usage-calm e k d w) refl,
  )

  pub look_up-calm :
      (key : Option IdempotencyKey)
      → (p : Option StoreReservationResult) × (look_up e k key (calm d w) ≡ (ok p, calm d w))
  unfolding existing_idempotent_reservation execute
  look_up-calm none = (none, refl)
  look_up-calm (some key) = replayed-calm (first_live k key w.reservations)

-- The rows of one counter are within a ceiling.
abbrev pub AreWithin : CounterKey → ℕ → Tables → Type 0
AreWithin k ceiling t = IsWithin k ceiling (view t)

module _ (k : CounterKey) (ceiling : ℕ) where
  ignored-AreWithin :
      (j : RowKey) (t : Tables) → AreWithin k ceiling t → AreWithin k ceiling (ignored j t)
  ignored-AreWithin j t w = record { valid = ignored-AreValid j t w.valid; below = w.below }

  pub cleaned-AreWithin :
      (now : Timestamp) (t : Tables) → AreWithin k ceiling t → AreWithin k ceiling (cleaned now t)
  cleaned-AreWithin now t w =
      rw (view-cleaned now t w.valid) (cleanup-IsWithin k ceiling now (view t) w)

  granted-AreWithin :
      (j : RowKey) (amount limit : ℕ) (expires_at : Timestamp) (key : Option String) (t : Tables)
      → limit ≤ i64_max
      → (view_key j ≡ k → limit ≤ ceiling)
      → 0 < amount
      → (counter j t).committed + (counter j t).reserved + amount ≤ limit
      → AreWithin k ceiling t
      → AreWithin k ceiling (granted j (new_row j amount expires_at key) t)
  granted-AreWithin j amount limit expires_at key t small within positive fits w =
      rw (view-granted j amount limit expires_at key t (omega arith)) (record {
        valid =
            rw⁻¹ (view-granted j amount limit expires_at key t (omega arith))
              (granted-AreValid j amount limit expires_at key t (omega arith) positive w.valid);
        below =
            entering-below k ceiling (proxy j amount limit expires_at) (view t)
              (record { small = omega arith; within = within }) (omega arith) positive w
              (ground (arith, counter_at-counter j t));
      })

  -- What the ceiling asks of a request, whose counter in the database is that of `row_key`.
  abbrev pub Keeps : Engine → ReserveRequest → Type 0
  Keeps e request =
      view_key (row_key e request.key request.window) ≡ k → request.hard_limit ≤ ceiling

  -- What other connections commit keeps the rows valid and within the ceiling.
  abbrev pub OthersKeep : Engine → Type 0
  OthersKeep e = (t : Tables) → AreWithin k ceiling t → AreWithin k ceiling (e.between t)

  module _ (e : Engine) (request : ReserveRequest) (keeps : Keeps e request)
      (others : OthersKeep e) where
    replay_or_reserve-AreWithin :
        (d w : Tables) (p : Option StoreReservationResult)
        → 0 < request.amount
        → request.effective_limit ≤ request.hard_limit
        → request.effective_limit ≤ i64_max
        → AreWithin k ceiling d
        → AreWithin k ceiling w
        → AreWithin k ceiling
            (replay_or_reserve e
              (row_key e request.key request.window)
              request.amount
              request.effective_limit
              (request.now +ℤ request.reservation_ttl)
              request.idempotency_key
              p
              (calm d w)).1.durable
    unfolding commit_transaction
    replay_or_reserve-AreWithin d w (some result) positive limited small a b = b
    replay_or_reserve-AreWithin d w none positive limited small a b =
        reserve_row_rule e (row_key e request.key request.window) (AreWithin k ceiling)
          request.amount request.effective_limit (request.now +ℤ request.reservation_ttl)
          request.idempotency_key d w a (others d a) (ignored-AreWithin _ w b)
          (λ fits.
            granted-AreWithin _ request.amount request.effective_limit _ request.idempotency_key w
              small (λ same. omega (arith, keeps same)) positive fits b)

    pub reserve_transaction-AreWithin :
        (d w : Tables)
        → 0 < request.amount
        → request.effective_limit ≤ request.hard_limit
        → request.effective_limit ≤ i64_max
        → AreWithin k ceiling d
        → AreWithin k ceiling
            (reserve_transaction e request request.amount request.effective_limit
              (calm d w)).1.durable
    unfolding reserve_transaction begin
    reserve_transaction-AreWithin d w positive limited small a =
        let c = cleaned-AreWithin (e.stored request.now) d a in
        let (p, q) =
          look_up-calm e (row_key e request.key request.window) d (cleaned (e.stored request.now) d)
            request.idempotency_key in
        rw (cleanup_expired-calm e request.now d d, q)
          (replay_or_reserve-AreWithin d (cleaned (e.stored request.now) d) p positive limited small
            a c)

    pub reserve_if_allowed-AreWithin :
        (d w : Tables)
        → AreWithin k ceiling d
        → AreWithin k ceiling (reserve_if_allowed e request (calm d w)).1.durable
    unfolding reserve_if_allowed to_i64
    reserve_if_allowed-AreWithin d w a = elim (validate_cases request) [
      | inl (f, p) ↦ rw p a
      | inr (p, t) ↦ elim (Bool-cases (leb request.amount i64_max)) [
        | inr large ↦ rw (p, large) a
        | inl fits ↦ elim (Bool-cases (leb request.effective_limit i64_max)) [
          | inr large ↦ rw (p, fits, large) a
          | inl small ↦
              rw (p, fits, small)
                (reserve_transaction-AreWithin d w t.amount_pos t.limited (ground arith) a)
        ]
      ]
    ]
