-- ===== src/Store/Memory/Valid.antt =====
-- The invariant of the in-memory store (src/store/memory.rs): its counters are the sums of its
-- reservations.
use budget_warden.Base.{
  ℕ, ◌+◌, ◌≤◌, ◌<◌, ◌≡◌, refl, ite, if◌then◌else◌, Bool, true, false, none, some, [], ◌∷◌, u64_max,
  ℕ_discrete, arith, String,
}
use budget_warden.Base.Map.{HashMap, get}
use budget_warden.Base.Sums.{total}
use budget_warden.Ids.{ReservationId}
use budget_warden.Store.Memory.{
  CounterKey, CounterKey-discrete, index-discrete, ReservationStatus, committed, ReservationRecord,
  MemoryState, empty, counter_at, is_active,
}

abbrev pub is_committed : ReservationStatus → Bool
is_committed committed = true
is_committed _ = false

-- What a reservation adds to the active and to the committed units of a counter.
abbrev pub active_weight : CounterKey → ReservationRecord → ℕ
active_weight k r =
    ite (CounterKey-discrete r.counter_key k) (if is_active r.status then r.amount else 0) 0

abbrev pub committed_weight : CounterKey → ReservationRecord → ℕ
committed_weight k r =
    ite (CounterKey-discrete r.counter_key k) (if is_committed r.status then r.amount else 0) 0

-- The units that the reservations of a counter hold, and those that they have spent.
abbrev pub held : CounterKey → MemoryState → ℕ
held k s = total (active_weight k) s.reservations

abbrev pub spent : CounterKey → MemoryState → ℕ
spent k s = total (committed_weight k) s.reservations

-- One counter: it shows the sums, and they fit into a `u64`.
pub record IsBalanced (s : MemoryState) (k : CounterKey) : Type 0 where
  pub reserved : (counter_at s.counters k).reserved ≡ held k s
  pub committed : (counter_at s.counters k).committed ≡ spent k s
  pub bounded : spent k s + held k s ≤ u64_max

-- Every identifier is entered once.
abbrev pub IsDistinct : HashMap ReservationId ReservationRecord → Type 0
IsDistinct [] = Unit
IsDistinct ((id, r) ∷ rs) = (get ℕ_discrete id rs ≡ none) × IsDistinct rs

pub record IsValid (s : MemoryState) : Type 0 where
  pub distinct : IsDistinct s.reservations
  pub fresh : (id : ReservationId) → s.next_id < id → get ℕ_discrete id s.reservations ≡ none
  pub balanced : (k : CounterKey) → IsBalanced s k
  pub positive :
      (id : ReservationId) (r : ReservationRecord)
      → get ℕ_discrete id s.reservations ≡ some r
      → 0 < r.amount
  -- an idempotency key leads to a reservation of the same counter
  pub remembered :
      (k : CounterKey) (key : String) (id : ReservationId)
      → get index-discrete (k, key) s.idempotency ≡ some id
      → (r : ReservationRecord) × (get ℕ_discrete id s.reservations ≡ some r) × (r.counter_key ≡ k)

pub empty-IsValid : IsValid empty
unfolding get counter_at
empty-IsValid = record {
  distinct = tt;
  fresh = λ id h. refl;
  balanced = λ k. record { reserved = refl; committed = refl; bounded = omega arith };
  positive = λ id r e. cc;
  remembered = λ k key id e. absurd (cc);
}
