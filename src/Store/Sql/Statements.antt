-- ===== src/Store/Sql/Statements.antt =====
-- The statements of src/store/sqlite.rs, on the tables. Sums are exact: a database that computes a sum
-- beyond `i64` in floating point finds it above every limit too.
use budget_warden.Base.{
  ℕ, ◌+◌, leb, ltb, leb_ℤ, saturating_sub, String, string_eq, ite, Bool, true, false, ◌&&◌, ◌||◌,
  Option, none, some, [], ◌∷◌, Result, ok, err, if◌then◌else◌, ℕ_discrete,
}
use budget_warden.Base.Map.{HashMap, get, insert, modify}
use budget_warden.Time.{Timestamp}
use budget_warden.Store.Codec.{i64_max}
use budget_warden.Store.Sql.{
  RowKey, RowKey-discrete, CounterRow, Status, active, committed, ReservationRow, Tables, Engine,
}

abbrev pub is_active : Status → Bool
is_active active = true
is_active _ = false

-- `status IN ('active', 'committed')`
abbrev pub is_live : Status → Bool
is_live active = true
is_live committed = true
is_live _ = false

-- `status = 'active' AND expires_at <= ?`
abbrev pub is_due : Timestamp → ReservationRow → Bool
is_due now r = is_active r.status && leb_ℤ r.expires_at now

-- `SELECT reservation_id, … WHERE status = 'active' AND expires_at <= ?`
unfoldable pub due_rows : Timestamp → HashMap ℕ ReservationRow → HashMap ℕ ReservationRow
due_rows now [] = []
due_rows now ((id, r) ∷ rs) =
    let rest = due_rows now rs in if is_due now r then (id, r) ∷ rest else rest

-- `MAX(reserved - ?, 0)`
abbrev pub released : ℕ → CounterRow → CounterRow
released amount c = record c { reserved = saturating_sub c.reserved amount }

abbrev pub release_counter : RowKey → ℕ → Tables → Tables
release_counter k amount t = record t {
  counters = modify RowKey-discrete k (released amount) t.counters;
}

-- `UPDATE … SET status = ? WHERE reservation_id = ?`
abbrev pub with_status : Status → ReservationRow → ReservationRow
with_status status r = record r { status = status }

abbrev pub update_status : ℕ → Status → Tables → Tables
update_status id status t = record t {
  reservations = modify ℕ_discrete id (with_status status) t.reservations;
}

-- `INSERT OR IGNORE … VALUES (?, ?, ?, 0, 0)`
abbrev pub zero_row : CounterRow
zero_row = record { committed = 0; reserved = 0 }

unfoldable pub insert_or_ignore : RowKey → HashMap RowKey CounterRow → HashMap RowKey CounterRow
insert_or_ignore k [] = (k, zero_row) ∷ []
insert_or_ignore k ((j, c) ∷ m) =
    let rest = insert_or_ignore k m in ite (RowKey-discrete j k) ((j, c) ∷ m) ((j, c) ∷ rest)

-- `UPDATE … SET reserved = reserved + ? WHERE … AND committed + reserved + ? <= ?`, and the number of
-- rows that it changes.
abbrev pub reserved_more : ℕ → CounterRow → CounterRow
reserved_more amount c = record c { reserved = c.reserved + amount }

unfoldable pub reserve_counter : Engine → RowKey → ℕ → ℕ → Tables → Result String ℕ × Tables
reserve_counter e k amount limit t = elim (get RowKey-discrete k t.counters) [
  | none ↦ (ok 0, t)
  | some c ↦
      let sum = c.committed + c.reserved + amount in
      if e.checks_sums && ltb i64_max sum
      then (err e.overflow_error, t)
      else if leb sum limit
      then (
        ok 1,
        record t { counters = modify RowKey-discrete k (reserved_more amount) t.counters },
      )
      else (ok 0, t)
]

-- The unique index on the idempotency keys of a counter.
abbrev pub same_key : Option String → String → Bool
same_key none key = false
same_key (some old) key = string_eq old key

abbrev pub has_key : RowKey → String → ReservationRow → Bool
has_key k key r = ite (RowKey-discrete r.row_key k) (same_key r.idempotency_key key) false

unfoldable pub is_taken : RowKey → String → HashMap ℕ ReservationRow → Bool
is_taken k key [] = false
is_taken k key ((id, r) ∷ rs) = has_key k key r || is_taken k key rs

abbrev pub violates_unique : RowKey → Option String → HashMap ℕ ReservationRow → Bool
violates_unique k none rs = false
violates_unique k (some key) rs = is_taken k key rs

-- `INSERT INTO budget_warden_reservations … RETURNING reservation_id`
unfoldable pub insert_reservation : Engine → ReservationRow → Tables → Result String ℕ × Tables
unfolding is_taken
insert_reservation e r t =
    if violates_unique r.row_key r.idempotency_key t.reservations
    then (err e.unique_error, t)
    else if leb i64_max t.sequence
    then (err e.full_error, t)
    else (
      ok (t.sequence + 1),
      record t {
        reservations = insert ℕ_discrete (t.sequence + 1) r t.reservations;
        sequence = t.sequence + 1;
      },
    )

-- `SELECT … WHERE … AND idempotency_key = ? AND status IN ('active', 'committed') LIMIT 1`
unfoldable pub first_live : RowKey → String → HashMap ℕ ReservationRow → Option (ℕ × ReservationRow)
first_live k key [] = none
first_live k key ((id, r) ∷ rs) =
    let rest = first_live k key rs in
    if has_key k key r && is_live r.status then some (id, r) else rest

-- `SET reserved = MAX(reserved - ?, 0), committed = committed + ?`
abbrev pub settled_row : ℕ → ℕ → CounterRow → CounterRow
settled_row amount delta c = record {
  committed = c.committed + delta;
  reserved = saturating_sub c.reserved amount;
}

-- The sum is checked where the counter is there.
abbrev pub sum_fails : Engine → Option CounterRow → ℕ → Bool
sum_fails e none delta = false
sum_fails e (some c) delta = e.checks_sums && ltb i64_max (c.committed + delta)

unfoldable pub settle_counter : Engine → RowKey → ℕ → ℕ → Tables → Result String (Unit {0}) × Tables
settle_counter e k amount delta t =
    if sum_fails e (get RowKey-discrete k t.counters) delta then (err e.overflow_error, t) else (
      ok tt,
      record t { counters = modify RowKey-discrete k (settled_row amount delta) t.counters },
    )
