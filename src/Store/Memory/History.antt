-- ===== src/Store/Memory/History.antt =====
-- A ceiling on one counter of the in-memory store (src/store/memory.rs), kept by every operation.
use budget_warden.Base.{ℕ, ◌+◌, ◌≤◌, ◌<◌, ◌≡◌, arith, u64_max, Result}
use budget_warden.Ids.{ReservationId}
use budget_warden.Time.{Timestamp}
use budget_warden.Error.{StoreError}
use budget_warden.Store.{ReserveRequest}
use budget_warden.Store.Memory.{
  CounterKey, CounterKey-discrete, counter_key, counter_at, MemoryState, cleanup_expired, committed,
  refunded, release,
}
use budget_warden.Store.Memory.Reserve.{reserve_locked}
use budget_warden.Store.Memory.Finish.{commit_locked, refund_locked, settle_commit}
use budget_warden.Store.Memory.Cleanup.{cleanup_expired-IsValid}
use budget_warden.Store.Memory.Entering.{held-enter, spent-enter}
use budget_warden.Store.Memory.Lapse.{held-cleanup-le, spent-cleanup}
use budget_warden.Store.Memory.Reserving.{
  reserve_new_rule, reserve_locked_rule, reserve_locked-IsValid, wanted, entering,
}
use budget_warden.Store.Memory.Settling.{
  Finishes, unknown, too_late, again, settles, finish-Finishes, commit_locked-IsValid,
  refund_locked-IsValid, held-settled, spent-committed, spent-refunded,
}
use budget_warden.Store.Memory.Valid.{IsValid, held, spent}

-- The units of a counter that are committed or reserved.
abbrev pub in_use : CounterKey → MemoryState → ℕ
in_use k s = spent k s + held k s

-- The invariant, with a ceiling on one counter.
pub record IsWithin (k : CounterKey) (ceiling : ℕ) (s : MemoryState) : Type 0 where
  pub valid : IsValid s
  pub below : in_use k s ≤ ceiling

module _ (k : CounterKey) (ceiling : ℕ) where
  pub cleanup-IsWithin :
      (now : Timestamp) (s : MemoryState)
      → IsWithin k ceiling s
      → IsWithin k ceiling (cleanup_expired now s)
  cleanup-IsWithin now s w = record {
    valid = cleanup_expired-IsValid now s w.valid;
    below = omega (
      arith,
      w.below,
      held-cleanup-le now k s w.valid.distinct,
      spent-cleanup now k s w.valid.distinct,
    );
  }

  -- What the ceiling asks of a request: it is valid, and if it is for the counter, its hard limit is
  -- within the ceiling.
  pub record Respects (req : ReserveRequest) : Type 0 where
    pub small : req.hard_limit < u64_max
    pub within : counter_key req.key req.window ≡ k → req.hard_limit ≤ ceiling

  pub entering-below :
      (req : ReserveRequest) (s : MemoryState)
      → Respects req
      → req.effective_limit ≤ req.hard_limit
      → 0 < req.amount
      → IsWithin k ceiling s
      → wanted req (counter_key req.key req.window) s ≤ req.effective_limit
      → in_use k (entering req (counter_key req.key req.window) s) ≤ ceiling
  entering-below req s p le pos w fits =
      let j = counter_key req.key req.window in
      let b = w.valid.balanced j in
      let room : (counter_at s.counters j).committed
            + (counter_at s.counters j).reserved
            + req.amount
          ≤ req.effective_limit =
        omega (arith, p.small) in
      let h = held-enter req j s w.valid pos (omega (arith, p.small, room)) k in
      let t = spent-enter req j s w.valid pos (omega (arith, p.small, room)) k in
      elim (CounterKey-discrete j k) [
        | yes e ↦ ground (arith, h, t, p.within e, room, b.reserved, b.committed, w.below)
        | no n ↦ ground (arith, h, t, w.below)
      ]

  pub reserve_locked-IsWithin :
      (req : ReserveRequest) (s : MemoryState)
      → Respects req
      → req.effective_limit ≤ req.hard_limit
      → 0 < req.amount
      → IsWithin k ceiling s
      → IsWithin k ceiling (reserve_locked req s).1
  reserve_locked-IsWithin req s p le pos w =
      let c = cleanup-IsWithin req.now s w in
      let j = counter_key req.key req.window in
      record {
        valid = reserve_locked-IsValid req s (omega (arith, p.small)) pos w.valid;
        below =
            reserve_locked_rule (λ t. in_use k t ≤ ceiling) req s c.below
              (reserve_new_rule (λ t. in_use k t ≤ ceiling) req j _ c.below
                (entering-below req _ p le pos c));
      }

  pub commit-below :
      (id : ReservationId) (s : MemoryState) {result : Result StoreError (Unit {0}) × MemoryState}
      → Finishes settle_commit committed id s result
      → in_use k s ≤ ceiling
      → in_use k result.1 ≤ ceiling
  commit-below id s (unknown e q) w = rw q w
  commit-below id s (too_late r e a q) w = rw q w
  commit-below id s (again r e a q) w = rw q w
  commit-below id s (settles r e a q) w = rw q (
      omega (
        arith,
        held-settled s id r e a settle_commit committed k (λ x. cc),
        spent-committed s id r e a k,
      ))

  pub refund-below :
      (id : ReservationId) (s : MemoryState) {result : Result StoreError (Unit {0}) × MemoryState}
      → Finishes release refunded id s result
      → in_use k s ≤ ceiling
      → in_use k result.1 ≤ ceiling
  refund-below id s (unknown e q) w = rw q w
  refund-below id s (too_late r e a q) w = rw q w
  refund-below id s (again r e a q) w = rw q w
  refund-below id s (settles r e a q) w = rw q (
      omega
        (arith, held-settled s id r e a release refunded k (λ x. cc), spent-refunded s id r e a k))

  pub commit_locked-IsWithin :
      (id : ReservationId) (now : Timestamp) (s : MemoryState)
      → IsWithin k ceiling s
      → IsWithin k ceiling (commit_locked id now s).1
  unfolding commit_locked
  commit_locked-IsWithin id now s w = record {
    valid = commit_locked-IsValid id now s w.valid;
    below =
        commit-below id _ (finish-Finishes settle_commit committed id now s w.valid)
          (cleanup-IsWithin now s w).below;
  }

  pub refund_locked-IsWithin :
      (id : ReservationId) (now : Timestamp) (s : MemoryState)
      → IsWithin k ceiling s
      → IsWithin k ceiling (refund_locked id now s).1
  unfolding refund_locked
  refund_locked-IsWithin id now s w = record {
    valid = refund_locked-IsValid id now s w.valid;
    below =
        refund-below id _ (finish-Finishes release refunded id now s w.valid)
          (cleanup-IsWithin now s w).below;
  }
