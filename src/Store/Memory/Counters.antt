-- ===== src/Store/Memory/Counters.antt =====
-- The counters of the in-memory store (src/store/memory.rs) under each write.
use budget_warden.Base.{◌≡◌, arith, ite, some, Option-cases, inl, inr, ℕ}
use budget_warden.Base.Map.{
  HashMap, get, insert, modify, get-insert_self, get-insert_ne, get-modify_self, get-modify_ne,
  modify_absent,
}
use budget_warden.Store.Memory.{CounterKey, CounterKey-discrete, CounterRecord, counter_at, release}

-- A counter that is not there is the default, which a release leaves alone.
pub counter_at-release :
    (m : HashMap CounterKey CounterRecord) (j k : CounterKey) (a : ℕ)
    → counter_at (modify CounterKey-discrete j (release a) m) k
      ≡ ite (CounterKey-discrete j k) (release a (counter_at m k)) (counter_at m k)
unfolding counter_at
counter_at-release m j k a = elim (Option-cases (get CounterKey-discrete j m)) [
  | inl e ↦ ground (arith, modify_absent CounterKey-discrete j (release a) m e)
  | inr (c, e) ↦ ground (
    arith,
    get-modify_self CounterKey-discrete j (release a) c m e,
    get-modify_ne CounterKey-discrete j k (release a) m,
  )
]

pub counter_at-modify :
    (m : HashMap CounterKey CounterRecord) (j k : CounterKey) (f : CounterRecord → CounterRecord)
    {c : CounterRecord}
    → get CounterKey-discrete j m ≡ some c
    → counter_at (modify CounterKey-discrete j f m) k
      ≡ ite (CounterKey-discrete j k) (f (counter_at m k)) (counter_at m k)
unfolding counter_at
counter_at-modify m j k f {c} e = ground (
  arith,
  get-modify_self CounterKey-discrete j f c m e,
  get-modify_ne CounterKey-discrete j k f m,
)

pub counter_at-insert :
    (m : HashMap CounterKey CounterRecord) (j k : CounterKey) (c : CounterRecord)
    → counter_at (insert CounterKey-discrete j c m) k
      ≡ ite (CounterKey-discrete j k) c (counter_at m k)
unfolding counter_at
counter_at-insert m j k c =
    ground
      (arith, get-insert_self CounterKey-discrete j c m, get-insert_ne CounterKey-discrete j k c m)
