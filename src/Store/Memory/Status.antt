-- ===== src/Store/Memory/Status.antt =====
-- The reservations of the in-memory store (src/store/memory.rs) when the status of one is set.
use budget_warden.Base.{
  [], ◌∷◌, ◌≡◌, ℕ_discrete, arith, some, none, Option-cases, inl, inr, refl, ◌∙◌, ℕ,
}
use budget_warden.Base.Map.{HashMap, get, modify, get-modify}
use budget_warden.Ids.{ReservationId}
use budget_warden.Store.Memory.{
  CounterKey, CounterKey-discrete, CounterRecord, ReservationRecord, ReservationStatus, MemoryState,
  set_status,
}
use budget_warden.Store.Memory.Valid.{IsDistinct, IsBalanced, IsValid}

pub modify-IsDistinct :
    (id : ReservationId) (f : ReservationRecord → ReservationRecord)
    (rs : HashMap ReservationId ReservationRecord)
    → IsDistinct rs
    → IsDistinct (modify ℕ_discrete id f rs)
unfolding modify
modify-IsDistinct id f [] d = tt
modify-IsDistinct id f ((j, r) ∷ rs) d =
    ground (arith, modify-IsDistinct id f rs d.1, get-modify ℕ_discrete id j f rs)

module _ (id j : ReservationId) (status : ReservationStatus)
    (rs : HashMap ReservationId ReservationRecord) where
  -- Nothing but the status changes,
  pub set_status-some :
      {r : ReservationRecord}
      → get ℕ_discrete j rs ≡ some r
      → (x : ReservationRecord) × (get ℕ_discrete j (modify ℕ_discrete id (set_status status) rs)
          ≡ some x)
        × (x.counter_key ≡ r.counter_key)
  set_status-some {r} e = elim (ℕ_discrete id j) [
    | yes p ↦ (
      set_status status r,
      ground (arith, get-modify ℕ_discrete id j (set_status status) rs),
      refl,
    )
    | no p ↦ (r, ground (arith, get-modify ℕ_discrete id j (set_status status) rs), refl)
  ]

  -- and no reservation appears.
  pub some-set_status :
      {x : ReservationRecord}
      → get ℕ_discrete j (modify ℕ_discrete id (set_status status) rs) ≡ some x
      → (r : ReservationRecord) × (get ℕ_discrete j rs ≡ some r) × (r.amount ≡ x.amount)
  some-set_status e = elim (Option-cases (get ℕ_discrete j rs)) [
    | inl n ↦ absurd (ground (arith, get-modify ℕ_discrete id j (set_status status) rs))
    | inr (r, n) ↦ (r, n, ground (arith, get-modify ℕ_discrete id j (set_status status) rs))
  ]

  pub set_status-none :
      get ℕ_discrete j rs ≡ none
      → get ℕ_discrete j (modify ℕ_discrete id (set_status status) rs) ≡ none
  set_status-none e = ground (arith, get-modify ℕ_discrete id j (set_status status) rs)

-- The state after a reservation has left the active status.
abbrev pub settled :
    (ℕ → CounterRecord → CounterRecord)
    → ReservationStatus
    → ReservationId
    → ReservationRecord
    → MemoryState
    → MemoryState
settled settle target id r s = record s {
  counters = modify CounterKey-discrete r.counter_key (settle r.amount) s.counters;
  reservations = modify ℕ_discrete id (set_status target) s.reservations;
}

-- Of the invariant, only the counters have to be looked at.
pub settled-IsValid :
    (settle : ℕ → CounterRecord → CounterRecord) (target : ReservationStatus) (id : ReservationId)
    (r : ReservationRecord) (s : MemoryState)
    → ((k : CounterKey) → IsBalanced s k → IsBalanced (settled settle target id r s) k)
    → IsValid s
    → IsValid (settled settle target id r s)
settled-IsValid settle target id r s keep v = record {
  distinct = modify-IsDistinct id (set_status target) s.reservations v.distinct;
  fresh = λ j h. set_status-none id j target s.reservations (v.fresh j h);
  balanced = λ k. keep k (v.balanced k);
  positive = λ j x e.
      let (y, f, same) = some-set_status id j target s.reservations e in
      omega (arith, v.positive j y f);
  remembered = λ k key j e.
      let (x, f, same) = v.remembered k key j e in
      let (y, g, kept) = set_status-some id j target s.reservations f in (y, g, kept ∙ same);
}
