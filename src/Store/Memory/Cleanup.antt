-- ===== src/Store/Memory/Cleanup.antt =====
-- The removal of expired reservations (src/store/memory.rs, `cleanup_expired`) keeps the invariant.
use budget_warden.Base.{
  ◌+◌, ◌≡◌, ◌≢◌, ◌∙◌, List, [], ◌∷◌, none, some, arith, Bool-cases, inl, inr, ℕ_discrete,
}
use budget_warden.Base.Map.{HashMap, get, modify, get-modify_ne}
use budget_warden.Base.Sums.{total-modify}
use budget_warden.Ids.{ReservationId}
use budget_warden.Time.{Timestamp}
use budget_warden.Store.Memory.{
  CounterKey, active, expired, ReservationRecord, MemoryState, is_due, expired_ids, expire_one,
  expire_all, cleanup_expired, release, set_status,
}
use budget_warden.Store.Memory.Counters.{counter_at-release}
use budget_warden.Store.Memory.Status.{settled, settled-IsValid}
use budget_warden.Store.Memory.Valid.{
  IsValid, IsBalanced, IsDistinct, active_weight, committed_weight, held, spent,
}

-- The state after an active reservation has expired.
abbrev pub expired_state : ReservationId → ReservationRecord → MemoryState → MemoryState
expired_state = settled release expired

module _ (s : MemoryState) (id : ReservationId) (r : ReservationRecord)
    (found : get ℕ_discrete id s.reservations ≡ some r) (alive : r.status ≡ active) where
  pub held-expired : (k : CounterKey) → held k (expired_state id r s) + active_weight k r ≡ held k s
  held-expired k = ground (
    arith,
    total-modify ℕ_discrete (active_weight k) id (set_status expired) r s.reservations found,
  )

  pub spent-expired : (k : CounterKey) → spent k (expired_state id r s) ≡ spent k s
  spent-expired k = ground (
    arith,
    total-modify ℕ_discrete (committed_weight k) id (set_status expired) r s.reservations found,
  )

  expired-IsBalanced : (k : CounterKey) → IsBalanced s k → IsBalanced (expired_state id r s) k
  expired-IsBalanced k b = record {
    reserved =
        ground (arith, held-expired k, counter_at-release s.counters r.counter_key k r.amount);
    committed =
        ground (arith, spent-expired k, counter_at-release s.counters r.counter_key k r.amount);
    bounded = omega (arith, held-expired k, spent-expired k);
  }

  pub expired-IsValid : IsValid s → IsValid (expired_state id r s)
  expired-IsValid = settled-IsValid release expired id r s expired-IsBalanced

-- `id` is not in the list.
abbrev IsAbsent : ReservationId → List ReservationId → Type 0
IsAbsent id [] = Unit
IsAbsent id (j ∷ ids) = (id ≢ j) × IsAbsent id ids

-- The identifiers are those of different active reservations.
abbrev ArePending : List ReservationId → HashMap ReservationId ReservationRecord → Type 0
ArePending [] rs = Unit
ArePending (id ∷ ids) rs =
    ((r : ReservationRecord) × (get ℕ_discrete id rs ≡ some r) × (r.status ≡ active))
    × IsAbsent id ids
    × ArePending ids rs

modify-ArePending :
    (id : ReservationId) (ids : List ReservationId) (f : ReservationRecord → ReservationRecord)
    (rs : HashMap ReservationId ReservationRecord)
    → IsAbsent id ids
    → ArePending ids rs
    → ArePending ids (modify ℕ_discrete id f rs)
modify-ArePending id [] f rs h p = tt
modify-ArePending id (j ∷ ids) f rs h ((r, e, a), q, p) =
    ((r, get-modify_ne ℕ_discrete id j f rs h.0 ∙ e, a), q, modify-ArePending id ids f rs h.1 p)

cons-ArePending :
    (id : ReservationId) (r : ReservationRecord) (ids : List ReservationId)
    (rs : HashMap ReservationId ReservationRecord)
    → get ℕ_discrete id rs ≡ none
    → ArePending ids rs
    → IsAbsent id ids × ArePending ids ((id, r) ∷ rs)
unfolding get
cons-ArePending id r [] rs h p = (tt, tt)
cons-ArePending id r (j ∷ ids) rs h ((x, e, a), q, p) =
    let (l, m) = cons-ArePending id r ids rs h p in
    let ne : id ≢ j = λ same. cc in ((ne, l), ((x, ground arith, a), q, m))

expired_ids-ArePending :
    (now : Timestamp) (rs : HashMap ReservationId ReservationRecord)
    → IsDistinct rs
    → ArePending (expired_ids now rs) rs
unfolding expired_ids get
expired_ids-ArePending now [] d = tt
expired_ids-ArePending now ((id, r) ∷ rs) d =
    let (l, m) =
      cons-ArePending id r (expired_ids now rs) rs d.0 (expired_ids-ArePending now rs d.1) in
    elim (Bool-cases (is_due now r)) [
      | inl due ↦ rw due ((r, ground arith, ground arith), l, m)
      | inr alive ↦ rw alive m
    ]

expire_all-IsValid :
    (ids : List ReservationId) (s : MemoryState)
    → ArePending ids s.reservations
    → IsValid s
    → IsValid (expire_all ids s)
unfolding expire_all
expire_all-IsValid [] s p v = v
expire_all-IsValid (id ∷ ids) s ((r, e, a), q, p) v =
    rw (e, expire_one)
      (expire_all-IsValid ids (expired_state id r s)
        (modify-ArePending id ids (set_status expired) s.reservations q p)
        (expired-IsValid s id r e a v))

-- Cleaning up keeps the invariant.
pub cleanup_expired-IsValid :
    (now : Timestamp) (s : MemoryState) → IsValid s → IsValid (cleanup_expired now s)
unfolding cleanup_expired
cleanup_expired-IsValid now s v =
    expire_all-IsValid (expired_ids now s.reservations) s
      (expired_ids-ArePending now s.reservations v.distinct) v
