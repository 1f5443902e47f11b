-- ===== src/Store/Memory/Settling.antt =====
-- `commit` and `refund` of src/store/memory.rs keep the invariant, and find their counter.
use budget_warden.Base.{
  ℕ, ◌+◌, ◌≡◌, ◌≢◌, refl, subst, none, some, arith, Option-cases, inl, inr, ◌⊎◌, Result, ok, err,
  ℕ_discrete,
}
use budget_warden.Base.Map.{get}
use budget_warden.Base.Sums.{total-modify, weight-le-total}
use budget_warden.Error.{StoreError, not_found, other}
use budget_warden.Error
use budget_warden.Ids.{ReservationId}
use budget_warden.Time.{Timestamp}
use budget_warden.Store.Memory.{
  CounterKey, CounterKey-discrete, CounterRecord, ReservationRecord, ReservationStatus, active,
  committed, refunded, expired, MemoryState, counter_at, cleanup_expired, release, set_status,
}
use budget_warden.Store.Memory.Finish.{
  settle_commit, finish, finish_status, commit_locked, refund_locked,
}
use budget_warden.Store.Memory.Counters.{counter_at-release, counter_at-modify}
use budget_warden.Store.Memory.Cleanup.{cleanup_expired-IsValid}
use budget_warden.Store.Memory.Status.{settled, settled-IsValid}
use budget_warden.Store.Memory.Valid.{
  IsValid, IsBalanced, held, spent, active_weight, committed_weight,
}

module _ (s : MemoryState) (id : ReservationId) (r : ReservationRecord)
    (found : get ℕ_discrete id s.reservations ≡ some r) (alive : r.status ≡ active) where
  -- The units of an active reservation are in its counter, which is therefore there.
  pub counter_found :
      IsValid s → (c : CounterRecord) × (get CounterKey-discrete r.counter_key s.counters ≡ some c)
  unfolding counter_at
  counter_found v = elim (Option-cases (get CounterKey-discrete r.counter_key s.counters)) [
    | inl missing ↦ absurd (
        ground (
          arith,
          v.positive id r found,
          (v.balanced r.counter_key).reserved,
          weight-le-total ℕ_discrete (active_weight r.counter_key) id r s.reservations found,
        ))
    | inr there ↦ there
  ]

  pub held-settled :
      (settle : ℕ → CounterRecord → CounterRecord) (target : ReservationStatus) (k : CounterKey)
      → target ≢ active
      → held k (settled settle target id r s) + active_weight k r ≡ held k s
  held-settled settle target k inactive = ground (
    arith,
    total-modify ℕ_discrete (active_weight k) id (set_status target) r s.reservations found,
  )

  pub spent-committed :
      (k : CounterKey)
      → spent k (settled settle_commit committed id r s) ≡ spent k s + active_weight k r
  spent-committed k = ground (
    arith,
    total-modify ℕ_discrete (committed_weight k) id (set_status committed) r s.reservations found,
  )

  pub spent-refunded : (k : CounterKey) → spent k (settled release refunded id r s) ≡ spent k s
  spent-refunded k = ground (
    arith,
    total-modify ℕ_discrete (committed_weight k) id (set_status refunded) r s.reservations found,
  )

  committed-IsBalanced :
      {c : CounterRecord}
      → get CounterKey-discrete r.counter_key s.counters ≡ some c
      → (k : CounterKey) → IsBalanced s k
      → IsBalanced (settled settle_commit committed id r s) k
  committed-IsBalanced e k b =
      let l = weight-le-total ℕ_discrete (active_weight k) id r s.reservations found in
      let m = counter_at-modify s.counters r.counter_key k (settle_commit r.amount) e in
      let h = held-settled settle_commit committed k (λ x. cc) in
      record {
        reserved = ground (arith, h, m);
        committed = ground (arith, spent-committed k, h, l, m);
        bounded = omega (arith, h, spent-committed k);
      }

  refunded-IsBalanced :
      (k : CounterKey) → IsBalanced s k → IsBalanced (settled release refunded id r s) k
  refunded-IsBalanced k b =
      let m = counter_at-release s.counters r.counter_key k r.amount in
      let h = held-settled release refunded k (λ x. cc) in
      record {
        reserved = ground (arith, h, m);
        committed = ground (arith, spent-refunded k, m);
        bounded = omega (arith, h, spent-refunded k);
      }

-- How `commit` and `refund` end, once the reservations that are due have expired: the reservation
-- is unknown, it has expired, it was settled before, or it is settled now. A missing counter, for
-- which the code has an error, is not among the cases.
pub data Finishes (settle : ℕ → CounterRecord → CounterRecord) (target : ReservationStatus)
    (id : ReservationId) (s : MemoryState) (result : Result StoreError (Unit {0}) × MemoryState)
    : Type 0 where
  unknown :
      get ℕ_discrete id s.reservations ≡ none
      → result ≡ (err not_found, s)
      → Finishes settle target id s result
  too_late :
      (r : ReservationRecord)
      → get ℕ_discrete id s.reservations ≡ some r
      → r.status ≡ expired
      → result ≡ (err Error.expired, s)
      → Finishes settle target id s result
  again :
      (r : ReservationRecord)
      → get ℕ_discrete id s.reservations ≡ some r
      → (r.status ≡ committed) ⊎ (r.status ≡ refunded)
      → result ≡ (ok tt, s)
      → Finishes settle target id s result
  settles :
      (r : ReservationRecord)
      → get ℕ_discrete id s.reservations ≡ some r
      → r.status ≡ active
      → result ≡ (ok tt, settled settle target id r s)
      → Finishes settle target id s result

finish_status-Finishes :
    (settle : ℕ → CounterRecord → CounterRecord) (target : ReservationStatus) (id : ReservationId)
    (s : MemoryState) (r : ReservationRecord) (status : ReservationStatus)
    → IsValid s
    → get ℕ_discrete id s.reservations ≡ some r
    → r.status ≡ status
    → Finishes settle target id s (finish_status settle target id r status s)
unfolding finish_status
finish_status-Finishes settle target id s r active v e a =
    let (c, f) = counter_found s id r e a v in settles r e a (rw (f, finish_status))
finish_status-Finishes settle target id s r committed v e a = again r e (inl a) refl
finish_status-Finishes settle target id s r refunded v e a = again r e (inr a) refl
finish_status-Finishes settle target id s r expired v e a = too_late r e a refl

pub finish-Finishes :
    (settle : ℕ → CounterRecord → CounterRecord) (target : ReservationStatus) (id : ReservationId)
    (now : Timestamp) (s : MemoryState)
    → IsValid s
    → Finishes settle target id (cleanup_expired now s) (finish settle target id now s)
unfolding finish
finish-Finishes settle target id now s v =
    elim (Option-cases (get ℕ_discrete id (cleanup_expired now s).reservations)) [
      | inl e ↦ unknown e (rw (e, finish))
      | inr (r, e) ↦
          rw (e, finish)
            (finish_status-Finishes settle target id (cleanup_expired now s) r r.status
              (cleanup_expired-IsValid now s v) e refl)
    ]

-- The status of the reservation decides between the cases.
module _ {settle : ℕ → CounterRecord → CounterRecord} {target : ReservationStatus}
    (id : ReservationId) (s : MemoryState) (r : ReservationRecord)
    (found : get ℕ_discrete id s.reservations ≡ some r)
    {result : Result StoreError (Unit {0}) × MemoryState} where
  pub Finishes-active :
      r.status ≡ active
      → Finishes settle target id s result
      → result ≡ (ok tt, settled settle target id r s)
  Finishes-active a (unknown e q) = cc
  Finishes-active a (too_late x e b q) = let same : x ≡ r = cc in cc
  Finishes-active a (again x e (inl b) q) = let same : x ≡ r = cc in cc
  Finishes-active a (again x e (inr b) q) = let same : x ≡ r = cc in cc
  Finishes-active a (settles x e b q) =
      let same : x ≡ r = cc in subst (λ y. result ≡ (ok tt, settled settle target id y s)) same q

  pub Finishes-again :
      (r.status ≡ committed) ⊎ (r.status ≡ refunded)
      → Finishes settle target id s result
      → result ≡ (ok tt, s)
  Finishes-again a (unknown e q) = cc
  Finishes-again a (too_late x e b q) = let same : x ≡ r = cc in ground arith
  Finishes-again a (again x e b q) = q
  Finishes-again a (settles x e b q) = let same : x ≡ r = cc in ground arith

  pub Finishes-too_late :
      r.status ≡ expired → Finishes settle target id s result → result ≡ (err Error.expired, s)
  Finishes-too_late a (unknown e q) = cc
  Finishes-too_late a (too_late x e b q) = q
  Finishes-too_late a (again x e b q) = let same : x ≡ r = cc in ground arith
  Finishes-too_late a (settles x e b q) = let same : x ≡ r = cc in cc

pub commit-IsValid :
    (id : ReservationId) (s : MemoryState) {result : Result StoreError (Unit {0}) × MemoryState}
    → Finishes settle_commit committed id s result
    → IsValid s
    → IsValid result.1
commit-IsValid id s (unknown e q) v = rw q v
commit-IsValid id s (too_late r e a q) v = rw q v
commit-IsValid id s (again r e a q) v = rw q v
commit-IsValid id s (settles r e a q) v =
    let (c, f) = counter_found s id r e a v in
    rw q (settled-IsValid settle_commit committed id r s (committed-IsBalanced s id r e a f) v)

pub refund-IsValid :
    (id : ReservationId) (s : MemoryState) {result : Result StoreError (Unit {0}) × MemoryState}
    → Finishes release refunded id s result
    → IsValid s
    → IsValid result.1
refund-IsValid id s (unknown e q) v = rw q v
refund-IsValid id s (too_late r e a q) v = rw q v
refund-IsValid id s (again r e a q) v = rw q v
refund-IsValid id s (settles r e a q) v =
    rw q (settled-IsValid release refunded id r s (refunded-IsBalanced s id r e a) v)

-- A commit keeps the invariant of the store, on every path through it.
pub commit_locked-IsValid :
    (id : ReservationId) (now : Timestamp) (s : MemoryState)
    → IsValid s
    → IsValid (commit_locked id now s).1
unfolding commit_locked
commit_locked-IsValid id now s v =
    commit-IsValid id _ (finish-Finishes settle_commit committed id now s v)
      (cleanup_expired-IsValid now s v)

-- A refund keeps the invariant of the store, on every path through it.
pub refund_locked-IsValid :
    (id : ReservationId) (now : Timestamp) (s : MemoryState)
    → IsValid s
    → IsValid (refund_locked id now s).1
unfolding refund_locked
refund_locked-IsValid id now s v =
    refund-IsValid id _ (finish-Finishes release refunded id now s v)
      (cleanup_expired-IsValid now s v)
