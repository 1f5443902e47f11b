-- ===== src/Store/Memory/Ledger.antt =====
-- The in-memory store of src/store/memory.rs as a ledger: what `usage`, `commit` and `refund` do,
-- said by the reservations alone.
use budget_warden.Base.{
  ℕ, ◌+◌, ◌≡◌, refl, ap, true, false, some, arith, ◌⊎◌, Result, ok, err, ℕ_discrete,
}
use budget_warden.Base.Map.{get}
use budget_warden.Base.Sums.{total}
use budget_warden.Error.{StoreError, not_found, other}
use budget_warden.Error
use budget_warden.Ids.{ReservationId}
use budget_warden.Time.{Timestamp}
use budget_warden.Store.Memory.{
  CounterKey, ReservationRecord, active, committed, refunded, expired, MemoryState, cleanup_expired,
  counter_at, release, is_due, set_status,
}
use budget_warden.Store.Memory.Finish.{settle_commit, commit_locked, refund_locked, usage_locked}
use budget_warden.Store.Memory.Cleanup.{cleanup_expired-IsValid}
use budget_warden.Store.Memory.Lapse.{
  lapse, live_weight, get-lapse, held-cleanup, spent-cleanup, cleanup_expired-reservations,
}
use budget_warden.Store.Memory.Settling.{
  Finishes-active, Finishes-again, Finishes-too_late, settles, finish-Finishes, held-settled,
  spent-committed, spent-refunded, commit-IsValid, refund-IsValid,
}
use budget_warden.Store.Memory.Valid.{IsValid, held, spent}

-- The active reservations of a counter that have not run out at an instant, in units.
abbrev pub live : Timestamp → CounterKey → MemoryState → ℕ
live now k s = total (live_weight now k) s.reservations

-- In a state that keeps the invariant, `usage` reports as committed the sum of the committed
-- reservations of the counter and as reserved the sum of its active reservations that have not run
-- out, and it leaves a state that keeps the invariant.
pub usage_locked-live :
    (k : CounterKey) (now : Timestamp) (s : MemoryState)
    → IsValid s
    → ((usage_locked k now s).0 ≡ ok (record { committed = spent k s; reserved = live now k s }))
      × IsValid (usage_locked k now s).1
unfolding usage_locked
usage_locked-live k now s v =
    let w = cleanup_expired-IsValid now s v in
    let b = w.balanced k in
    (
      ground (
        arith,
        b.reserved,
        b.committed,
        held-cleanup now k s v.distinct,
        spent-cleanup now k s v.distinct,
      ),
      w,
    )

pub get-cleanup :
    (now : Timestamp) (id : ReservationId) (r : ReservationRecord) (s : MemoryState)
    → IsValid s
    → get ℕ_discrete id s.reservations ≡ some r
    → get ℕ_discrete id (cleanup_expired now s).reservations ≡ some (lapse now r)
get-cleanup now id r s v e = ground (
  arith,
  ap (get ℕ_discrete id) (cleanup_expired-reservations now s v.distinct),
  get-lapse now id s.reservations,
)

-- What a call that has settled a reservation `r` has done: it succeeded, `r` is no longer among the
-- reservations that its counter holds, they have spent `paid` more units, and the counter itself
-- shows both.
abbrev pub Settles :
    Timestamp
    → ReservationRecord
    → ℕ
    → MemoryState
    → Result StoreError (Unit {0}) × MemoryState
    → Type 0
Settles now r paid s (result, s') =
    (result ≡ ok tt)
    × (held r.counter_key s' + r.amount ≡ live now r.counter_key s)
    × (spent r.counter_key s' ≡ spent r.counter_key s + paid)
    × ((counter_at s'.counters r.counter_key).reserved + r.amount ≡ live now r.counter_key s)
    × ((counter_at s'.counters r.counter_key).committed ≡ spent r.counter_key s + paid)

-- In a state that keeps the invariant the counter shows what the reservations say.
counted :
    (now : Timestamp) (r : ReservationRecord) (paid : ℕ) (s s' : MemoryState)
    → IsValid s'
    → held r.counter_key s' + r.amount ≡ live now r.counter_key s
    → spent r.counter_key s' ≡ spent r.counter_key s + paid
    → Settles now r paid s (ok tt, s')
counted now r paid s s' v h p =
    let b = v.balanced r.counter_key in
    (refl, h, p, omega (arith, b.reserved, h), omega (arith, b.committed, p))

module _ (id : ReservationId) (now : Timestamp) (s : MemoryState) (r : ReservationRecord)
    (v : IsValid s) (found : get ℕ_discrete id s.reservations ≡ some r) where
  alive :
      r.status ≡ active
      → is_due now r ≡ false
      → get ℕ_discrete id (cleanup_expired now s).reservations ≡ some r
  alive a d = ground (arith, get-cleanup now id r s v found)

  -- In a state that keeps the invariant, a commit of an active reservation that has not run out
  -- succeeds: the units of the reservation are no longer reserved and are committed instead, in the
  -- reservations and in their counter.
  pub commit_locked-Settles :
      r.status ≡ active → is_due now r ≡ false → Settles now r r.amount s (commit_locked id now s)
  unfolding commit_locked
  commit_locked-Settles a d =
      let s1 = cleanup_expired now s in
      let k = r.counter_key in
      rw
        (Finishes-active id s1 r (alive a d) a (finish-Finishes settle_commit committed id now s v))
        (counted now r r.amount s _
          (commit-IsValid id s1 (settles r (alive a d) a refl) (cleanup_expired-IsValid now s v))
          (ground (
            arith,
            held-settled s1 id r (alive a d) a settle_commit committed k (λ x. cc),
            held-cleanup now k s v.distinct,
          ))
          (ground
            (arith, spent-committed s1 id r (alive a d) a k, spent-cleanup now k s v.distinct)))

  -- In a state that keeps the invariant, a refund of an active reservation that has not run out
  -- succeeds: the units of the reservation are no longer reserved, and nothing more is committed,
  -- in the reservations and in their counter.
  pub refund_locked-Settles :
      r.status ≡ active → is_due now r ≡ false → Settles now r 0 s (refund_locked id now s)
  unfolding refund_locked
  refund_locked-Settles a d =
      let s1 = cleanup_expired now s in
      let k = r.counter_key in
      rw (Finishes-active id s1 r (alive a d) a (finish-Finishes release refunded id now s v)) (
        counted now r 0 s _
          (refund-IsValid id s1 (settles r (alive a d) a refl) (cleanup_expired-IsValid now s v))
          (ground (
            arith,
            held-settled s1 id r (alive a d) a release refunded k (λ x. cc),
            held-cleanup now k s v.distinct,
          ))
          (ground
            (arith, spent-refunded s1 id r (alive a d) a k, spent-cleanup now k s v.distinct)))

  -- In a state that keeps the invariant, an active reservation that has run out can be neither
  -- committed nor refunded: both fail with `ReservationExpired` and do nothing but clean up.
  pub run_out_refused :
      r.status ≡ active
      → is_due now r ≡ true
      → (commit_locked id now s ≡ (err Error.expired, cleanup_expired now s))
        × (refund_locked id now s ≡ (err Error.expired, cleanup_expired now s))
  unfolding commit_locked refund_locked
  run_out_refused a d =
      let s1 = cleanup_expired now s in
      let e : get ℕ_discrete id s1.reservations ≡ some (set_status expired r) =
        ground (arith, get-cleanup now id r s v found) in
      (
        Finishes-too_late id s1 (set_status expired r) e refl
            (finish-Finishes settle_commit committed id now s v),
        Finishes-too_late id s1 (set_status expired r) e refl
            (finish-Finishes release refunded id now s v),
      )

  -- In a state that keeps the invariant, a reservation that was committed or refunded is settled
  -- for good: a further commit or refund succeeds and does nothing but clean up.
  pub settled_once :
      (r.status ≡ committed) ⊎ (r.status ≡ refunded)
      → (commit_locked id now s ≡ (ok tt, cleanup_expired now s))
        × (refund_locked id now s ≡ (ok tt, cleanup_expired now s))
  unfolding commit_locked refund_locked
  settled_once a =
      let s1 = cleanup_expired now s in
      let e : get ℕ_discrete id s1.reservations ≡ some r =
        ground (arith, get-cleanup now id r s v found) in
      (
        Finishes-again id s1 r e a (finish-Finishes settle_commit committed id now s v),
        Finishes-again id s1 r e a (finish-Finishes release refunded id now s v),
      )
