-- ===== src/Store/Sql/Entering.antt =====
-- What the statements of a reservation (src/store/sqlite.rs) do to the tables.
use budget_warden.Base.{
  ℕ, ◌+◌, ◌≤◌, ◌<◌, ◌≡◌, refl, ap, ◌∙◌, arith, [], ◌∷◌, Option, none, some, Option-cases, inl, inr,
  ℕ_discrete, ◌+ℤ◌, pos, negsuc, u64_max, String, saturating_add,
}
use budget_warden.Base.Map.{HashMap, get, insert, modify}
use budget_warden.Base.Translate.{translate-insert}
use budget_warden.Store.{ReserveRequest}
use budget_warden.Store.Memory.{CounterKey, CounterKey-discrete, counter_at}
use budget_warden.Store.Memory.Counters.{counter_at-insert}
use budget_warden.Store.Memory.Reserve.{enter}
use budget_warden.Store.Memory.Reserving.{entering}
use budget_warden.Store.Memory.Entering.{enter-IsValid}
use budget_warden.Store.Sql.{RowKey, RowKey-discrete, CounterRow, ReservationRow, Status, Tables}
use budget_warden.Store.Sql.Statements.{insert_or_ignore, zero_row, reserved_more}
use budget_warden.Store.Sql.View.{
  view, view_key, view_counter, view_counters, view_key-injective, counter_at-view, view-insert_row,
  AreValid,
}
use budget_warden.Time.{Timestamp}

abbrev pub or_zero : Option CounterRow → CounterRow
or_zero none = zero_row
or_zero (some c) = c

-- The counter of a key, zeros where it has no row.
abbrev pub counter : RowKey → Tables → CounterRow
counter k t = or_zero (get RowKey-discrete k t.counters)

module _ (k : RowKey) where
  pub get-insert_or_ignore :
      (m : HashMap RowKey CounterRow)
      → get RowKey-discrete k (insert_or_ignore k m) ≡ some (or_zero (get RowKey-discrete k m))
  unfolding insert_or_ignore get
  get-insert_or_ignore [] = ground arith
  get-insert_or_ignore ((j, c) ∷ m) = elim (RowKey-discrete j k) [
    | yes p ↦ ground arith
    | no p ↦ ground (arith, get-insert_or_ignore m)
  ]

  modify-insert_or_ignore :
      (f : CounterRow → CounterRow) (m : HashMap RowKey CounterRow)
      → modify RowKey-discrete k f (insert_or_ignore k m)
        ≡ insert RowKey-discrete k (f (or_zero (get RowKey-discrete k m))) m
  unfolding insert_or_ignore get insert modify
  modify-insert_or_ignore f [] = ground arith
  modify-insert_or_ignore f ((j, c) ∷ m) = elim (RowKey-discrete j k) [
    | yes p ↦ ground arith
    | no p ↦ ground (arith, modify-insert_or_ignore f m)
  ]

  insert_or_ignore_lem :
      (m : HashMap RowKey CounterRow)
      → insert_or_ignore k m ≡ insert RowKey-discrete k (or_zero (get RowKey-discrete k m)) m
  unfolding insert_or_ignore get insert
  insert_or_ignore_lem [] = refl
  insert_or_ignore_lem ((j, c) ∷ m) = elim (RowKey-discrete j k) [
    | yes p ↦ ground arith
    | no p ↦ ground (arith, insert_or_ignore_lem m)
  ]

-- The tables after `INSERT OR IGNORE`.
abbrev pub ignored : RowKey → Tables → Tables
ignored k t = record t { counters = insert_or_ignore k t.counters }

view-insert_counter :
    (k : RowKey) (c : CounterRow) (m : HashMap RowKey CounterRow)
    → view_counters (insert RowKey-discrete k c m)
      ≡ insert CounterKey-discrete (view_key k) (view_counter c) (view_counters m)
view-insert_counter k c m =
    translate-insert RowKey-discrete CounterKey-discrete view_key view_counter view_key-injective k
      c m

pub counter_at-counter :
    (k : RowKey) (t : Tables)
    → counter_at (view_counters t.counters) (view_key k) ≡ view_counter (counter k t)
counter_at-counter k t = elim (Option-cases (get RowKey-discrete k t.counters)) [
  | inl e ↦ ground (arith, counter_at-view k t.counters)
  | inr (c, e) ↦ ground (arith, counter_at-view k t.counters)
]

-- A row of zeros shows what no row shows.
counter_at-ignored :
    (k : RowKey) (t : Tables) (j : CounterKey)
    → counter_at (view_counters (ignored k t).counters) j ≡ counter_at (view_counters t.counters) j
counter_at-ignored k t j =
    rw (insert_or_ignore_lem k t.counters, view-insert_counter k (counter k t) t.counters)
      (elim (CounterKey-discrete (view_key k) j) [
        | yes p ↦ ground (
          arith,
          counter_at-insert (view_counters t.counters) (view_key k) j (view_counter (counter k t)),
          counter_at-counter k t,
        )
        | no p ↦ ground (
          arith,
          counter_at-insert (view_counters t.counters) (view_key k) j (view_counter (counter k t)),
        )
      ])

pub ignored-AreValid : (k : RowKey) (t : Tables) → AreValid t → AreValid (ignored k t)
ignored-AreValid k t v = record {
  distinct = v.distinct;
  fresh = v.fresh;
  balanced = λ j. record {
    reserved = ap (λ c. c.reserved) (counter_at-ignored k t j) ∙ (v.balanced j).reserved;
    committed = ap (λ c. c.committed) (counter_at-ignored k t j) ∙ (v.balanced j).committed;
    bounded = (v.balanced j).bounded;
  };
  positive = v.positive;
  remembered = v.remembered;
}

-- The row that is inserted, and the tables that a granted reservation leaves.
abbrev pub new_row : RowKey → ℕ → Timestamp → Option String → ReservationRow
new_row k amount expires_at key = record {
  row_key = k;
  amount = amount;
  status = Status.active;
  expires_at = expires_at;
  idempotency_key = key;
}

abbrev pub granted : RowKey → ReservationRow → Tables → Tables
granted k r t = record {
  counters = modify RowKey-discrete k (reserved_more r.amount) (insert_or_ignore k t.counters);
  reservations = insert ℕ_discrete (t.sequence + 1) r t.reservations;
  sequence = t.sequence + 1;
}

-- The request that the store in memory is given for the same effect.
abbrev pub proxy : RowKey → ℕ → ℕ → Timestamp → ReserveRequest
proxy k amount limit expires_at = record {
  key = (view_key k).store_key;
  amount = amount;
  hard_limit = limit;
  effective_limit = limit;
  reservation_ttl = expires_at;
  window = record { start = k.window_start; end = k.window_end };
  idempotency_key = none;
  now = pos 0;
}

zero_add : (n : Timestamp) → pos 0 +ℤ n ≡ n
unfolding ◌+ℤ◌
zero_add (pos n) = ground arith
zero_add (negsuc n) = ground arith

pub unsaturated : (m n : ℕ) → m + n ≤ u64_max → saturating_add m n ≡ m + n
unsaturated m n fits = ground arith

module _ (k : RowKey) (amount limit : ℕ) (expires_at : Timestamp) (key : Option String)
    (t : Tables) where
  pub view-granted :
      (counter k t).committed + (counter k t).reserved + amount ≤ u64_max
      → view (granted k (new_row k amount expires_at key) t)
        ≡ entering (proxy k amount limit expires_at) (view_key k) (view t)
  unfolding enter
  view-granted fits =
      rw
        (
          modify-insert_or_ignore k (reserved_more amount) t.counters,
          view-insert_counter k (reserved_more amount (counter k t)) t.counters,
          view-insert_row (t.sequence + 1) (new_row k amount expires_at key) t.reservations,
          zero_add expires_at,
          counter_at-counter k t,
          unsaturated (counter k t).reserved amount (omega arith),
        )
        refl

  pub granted-AreValid :
      (counter k t).committed + (counter k t).reserved + amount ≤ u64_max
      → 0 < amount
      → AreValid t
      → AreValid (granted k (new_row k amount expires_at key) t)
  granted-AreValid fits positive v = rw (view-granted fits) (
      enter-IsValid (proxy k amount limit expires_at) (view_key k) (view t) v positive
        (ground (arith, counter_at-counter k t)))
