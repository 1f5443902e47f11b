-- ===== src/Store/Memory/Lapse.antt =====
-- What `cleanup_expired` (src/store/memory.rs) leaves: each reservation that is due has expired,
-- whatever the order in which they are visited.
use budget_warden.Base.{
  ℕ, ◌≤◌, ◌≡◌, ◌≢◌, refl, ap, ◌∙◌, ite, if◌then◌else◌, List, [], ◌∷◌, none, arith, ℕ_discrete, ◌&&◌,
  not,
}
use budget_warden.Base.Map.{HashMap, get, modify, modify_absent}
use budget_warden.Base.Sums.{total}
use mathlib.Core.Option
use budget_warden.Ids.{ReservationId}
use budget_warden.Time.{Timestamp}
use budget_warden.Store.Memory.{
  CounterKey, CounterKey-discrete, ReservationRecord, MemoryState, expired, is_active, is_due,
  expired_ids, expire_one, expire_all, cleanup_expired, set_status,
}
use budget_warden.Store.Memory.Valid.{IsDistinct, active_weight, committed_weight, held, spent}

-- The reservation at an instant.
abbrev pub lapse : Timestamp → ReservationRecord → ReservationRecord
lapse now r = if is_due now r then set_status expired r else r

abbrev pub lapse_all :
    Timestamp → HashMap ReservationId ReservationRecord → HashMap ReservationId ReservationRecord
lapse_all now [] = []
lapse_all now ((id, r) ∷ rs) = (id, lapse now r) ∷ lapse_all now rs

expire_keys :
    List ReservationId
    → HashMap ReservationId ReservationRecord
    → HashMap ReservationId ReservationRecord
expire_keys [] rs = rs
expire_keys (id ∷ ids) rs = expire_keys ids (modify ℕ_discrete id (set_status expired) rs)

expire_all-reservations :
    (ids : List ReservationId) (s : MemoryState)
    → (expire_all ids s).reservations ≡ expire_keys ids s.reservations
unfolding expire_all expire_keys
expire_all-reservations [] s = refl
expire_all-reservations (id ∷ ids) s =
    expire_all-reservations ids (expire_one id s) ∙ ap (expire_keys ids) one
  where
    one : (expire_one id s).reservations ≡ modify ℕ_discrete id (set_status expired) s.reservations
    one = ground (arith, modify_absent ℕ_discrete id (set_status expired) s.reservations)

abbrev IsAbsent : ReservationId → List ReservationId → Type 0
IsAbsent id [] = Unit
IsAbsent id (j ∷ ids) = (j ≢ id) × IsAbsent id ids

expire_keys-cons :
    (ids : List ReservationId) (id : ReservationId) (r : ReservationRecord)
    (rs : HashMap ReservationId ReservationRecord)
    → IsAbsent id ids
    → expire_keys ids ((id, r) ∷ rs) ≡ (id, r) ∷ expire_keys ids rs
unfolding expire_keys modify
expire_keys-cons [] id r rs h = refl
expire_keys-cons (j ∷ ids) id r rs h =
    ground (arith, expire_keys-cons ids id r (modify ℕ_discrete j (set_status expired) rs))

expired_ids-IsAbsent :
    (now : Timestamp) (id : ReservationId) (rs : HashMap ReservationId ReservationRecord)
    → get ℕ_discrete id rs ≡ none
    → IsAbsent id (expired_ids now rs)
unfolding expired_ids get
expired_ids-IsAbsent now id [] e = tt
expired_ids-IsAbsent now id ((j, r) ∷ rs) e = ground (arith, expired_ids-IsAbsent now id rs)

expire_keys-lapse :
    (now : Timestamp) (rs : HashMap ReservationId ReservationRecord)
    → IsDistinct rs
    → expire_keys (expired_ids now rs) rs ≡ lapse_all now rs
unfolding expired_ids expire_keys modify
expire_keys-lapse now [] d = refl
expire_keys-lapse now ((id, r) ∷ rs) d = ground (
  arith,
  expire_keys-cons (expired_ids now rs) id (lapse now r) rs (expired_ids-IsAbsent now id rs d.0),
  expire_keys-lapse now rs d.1,
)

-- Cleaning up changes the status of the reservations that are due, and of no other.
pub cleanup_expired-reservations :
    (now : Timestamp) (s : MemoryState)
    → IsDistinct s.reservations
    → (cleanup_expired now s).reservations ≡ lapse_all now s.reservations
unfolding cleanup_expired
cleanup_expired-reservations now s d =
    expire_all-reservations (expired_ids now s.reservations) s
    ∙ expire_keys-lapse now s.reservations d

-- What a reservation that is not due holds.
abbrev pub live_weight : Timestamp → CounterKey → ReservationRecord → ℕ
live_weight now k r =
    ite (CounterKey-discrete r.counter_key k)
      (if is_active r.status && not (is_due now r) then r.amount else 0) 0

pub held-lapse :
    (now : Timestamp) (k : CounterKey) (rs : HashMap ReservationId ReservationRecord)
    → total (active_weight k) (lapse_all now rs) ≡ total (live_weight now k) rs
held-lapse now k [] = refl
held-lapse now k ((id, r) ∷ rs) = ground (arith, held-lapse now k rs)

pub spent-lapse :
    (now : Timestamp) (k : CounterKey) (rs : HashMap ReservationId ReservationRecord)
    → total (committed_weight k) (lapse_all now rs) ≡ total (committed_weight k) rs
spent-lapse now k [] = refl
spent-lapse now k ((id, r) ∷ rs) = ground (arith, spent-lapse now k rs)

pub get-lapse :
    (now : Timestamp) (id : ReservationId) (rs : HashMap ReservationId ReservationRecord)
    → get ℕ_discrete id (lapse_all now rs) ≡ Option.map (lapse now) (get ℕ_discrete id rs)
unfolding get
get-lapse now id [] = refl
get-lapse now id ((j, r) ∷ rs) = ground (arith, get-lapse now id rs)

-- Cleaning up gives back what the reservations that are due hold, and changes no spending.
pub held-cleanup :
    (now : Timestamp) (k : CounterKey) (s : MemoryState)
    → IsDistinct s.reservations
    → held k (cleanup_expired now s) ≡ total (live_weight now k) s.reservations
held-cleanup now k s d =
    ap (total (active_weight k)) (cleanup_expired-reservations now s d)
    ∙ held-lapse now k s.reservations

pub spent-cleanup :
    (now : Timestamp) (k : CounterKey) (s : MemoryState)
    → IsDistinct s.reservations
    → spent k (cleanup_expired now s) ≡ spent k s
spent-cleanup now k s d =
    ap (total (committed_weight k)) (cleanup_expired-reservations now s d)
    ∙ spent-lapse now k s.reservations

pub live-le-active :
    (now : Timestamp) (k : CounterKey) (rs : HashMap ReservationId ReservationRecord)
    → total (live_weight now k) rs ≤ total (active_weight k) rs
live-le-active now k [] = omega arith
live-le-active now k ((id, r) ∷ rs) = ground (arith, live-le-active now k rs)

pub held-cleanup-le :
    (now : Timestamp) (k : CounterKey) (s : MemoryState)
    → IsDistinct s.reservations
    → held k (cleanup_expired now s) ≤ held k s
held-cleanup-le now k s d =
    omega (arith, held-cleanup now k s d, live-le-active now k s.reservations)
