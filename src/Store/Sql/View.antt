-- ===== src/Store/Sql/View.antt =====
-- The tables of the databases (migrations/), seen as a state of the store of src/store/memory.rs: a
-- counter's text is the name of a policy, and no idempotency key is remembered.
use budget_warden.Base.{
  ℕ, ◌≡◌, refl, ap, arith, [], Option, none, some, ℕ_discrete, Option-cases, inl, inr,
}
use budget_warden.Base.Map.{HashMap, get, modify, insert}
use budget_warden.Base.Translate.{translate, get-translate, translate-modify, translate-insert}
use budget_warden.BudgetUnit.{requests}
use budget_warden.Store.Memory.{
  CounterKey, CounterKey-discrete, CounterRecord, ReservationRecord, ReservationStatus, MemoryState,
  counter_at, or_default, set_status,
}
use budget_warden.Store.Memory
use budget_warden.Store.Memory.Valid.{IsValid}
use budget_warden.Store.Sql.{
  RowKey, RowKey-discrete, CounterRow, Status, active, committed, refunded, expired, other_status,
  ReservationRow, Tables,
}
use budget_warden.Store.Sql.Statements.{with_status}

abbrev pub view_key : RowKey → CounterKey
view_key k = record {
  store_key = record {
    policy_name = k.store_key;
    budget_key = record { provider = ""; domain = ""; resource = ""; subject = "" };
    unit = requests;
  };
  window_start = k.window_start;
  window_end = k.window_end;
}

-- Another word is one of an ended reservation.
abbrev pub view_status : Status → ReservationStatus
view_status active = Memory.active
view_status committed = Memory.committed
view_status refunded = Memory.refunded
view_status expired = Memory.expired
view_status (other_status _) = Memory.expired

abbrev pub view_counter : CounterRow → CounterRecord
view_counter c = record { committed = c.committed; reserved = c.reserved }

abbrev pub view_row : ReservationRow → ReservationRecord
view_row r = record {
  counter_key = view_key r.row_key;
  amount = r.amount;
  expires_at = r.expires_at;
  status = view_status r.status;
}

abbrev pub same_id : ℕ → ℕ
same_id id = id

abbrev pub view_counters : HashMap RowKey CounterRow → HashMap CounterKey CounterRecord
view_counters = translate view_key view_counter

abbrev pub view_rows : HashMap ℕ ReservationRow → HashMap ℕ ReservationRecord
view_rows = translate same_id view_row

abbrev pub view : Tables → MemoryState
view t = record {
  counters = view_counters t.counters;
  reservations = view_rows t.reservations;
  idempotency = [];
  next_id = t.sequence;
}

-- The tables' invariant: every counter shows the sums of its reservations, within `u64`.
abbrev pub AreValid : Tables → Type 0
AreValid t = IsValid (view t)

pub view_key-injective : (i j : RowKey) → view_key i ≡ view_key j → i ≡ j
view_key-injective i j e =
    ap
      (λ k. record {
        store_key = k.store_key.policy_name;
        window_start = k.window_start;
        window_end = k.window_end;
      })
      e

pub get-view_rows :
    (id : ℕ) (rs : HashMap ℕ ReservationRow) {r : ReservationRow}
    → get ℕ_discrete id rs ≡ some r
    → get ℕ_discrete id (view_rows rs) ≡ some (view_row r)
get-view_rows id rs e =
    ground (arith, get-translate ℕ_discrete ℕ_discrete same_id view_row (λ i j p. p) id rs)

pub view_rows-absent :
    (id : ℕ) (rs : HashMap ℕ ReservationRow)
    → get ℕ_discrete id rs ≡ none
    → get ℕ_discrete id (view_rows rs) ≡ none
view_rows-absent id rs e =
    ground (arith, get-translate ℕ_discrete ℕ_discrete same_id view_row (λ i j p. p) id rs)

pub view-with_status :
    (id : ℕ) (status : Status) (rs : HashMap ℕ ReservationRow)
    → view_rows (modify ℕ_discrete id (with_status status) rs)
      ≡ modify ℕ_discrete id (set_status (view_status status)) (view_rows rs)
view-with_status id status rs =
    translate-modify ℕ_discrete ℕ_discrete same_id view_row (λ i j p. p) id _ _ rs (λ r e. refl)

pub view-insert_row :
    (id : ℕ) (r : ReservationRow) (rs : HashMap ℕ ReservationRow)
    → view_rows (insert ℕ_discrete id r rs) ≡ insert ℕ_discrete id (view_row r) (view_rows rs)
view-insert_row id r rs =
    translate-insert ℕ_discrete ℕ_discrete same_id view_row (λ i j p. p) id r rs

pub view-modify_counter :
    (k : RowKey) (f : CounterRow → CounterRow) (g : CounterRecord → CounterRecord)
    (m : HashMap RowKey CounterRow)
    → ((c : CounterRow)
        → get RowKey-discrete k m ≡ some c
        → view_counter (f c) ≡ g (view_counter c))
    → view_counters (modify RowKey-discrete k f m)
      ≡ modify CounterKey-discrete (view_key k) g (view_counters m)
view-modify_counter k f g m =
    translate-modify RowKey-discrete CounterKey-discrete view_key view_counter view_key-injective k
      f g m

-- The row of a counter, or zeros.
abbrev pub row_or_zero : Option CounterRow → CounterRecord
row_or_zero none = record { committed = 0; reserved = 0 }
row_or_zero (some c) = view_counter c

pub counter_at-view :
    (k : RowKey) (m : HashMap RowKey CounterRow)
    → counter_at (view_counters m) (view_key k) ≡ row_or_zero (get RowKey-discrete k m)
unfolding counter_at
counter_at-view k m =
    let e =
      get-translate RowKey-discrete CounterKey-discrete view_key view_counter view_key-injective k
        m in
    elim (Option-cases (get RowKey-discrete k m)) [
      | inl n ↦ ground (arith, e)
      | inr (c, n) ↦ ground (arith, e)
    ]
