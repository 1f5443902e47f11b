-- ===== src/Store/Memory/Granting.antt =====
-- When `reserve_if_allowed` of src/store/memory.rs grants a request, said by the reservations alone.
use budget_warden.Base.{
  ℕ, ◌+◌, ◌+ℤ◌, ◌≤◌, ◌<◌, ◌≡◌, refl, ◌∙◌, none, false, ℕ_discrete, arith, u64_max, saturating_add,
  ok, inl, inr, List, [], ◌∷◌,
}
use budget_warden.Ids.{ReservationId}
use budget_warden.Time.{Timestamp}
use budget_warden.Store.{ReserveRequest, allowed, denied}
use budget_warden.Base.Map.{insert}
use budget_warden.Store.Checks.{IsSound, validate_sound}
use budget_warden.Store.Memory.{
  CounterKey, counter_key, counter_at, MemoryState, cleanup_expired, expire_all, expire_one,
  expired_ids, usage_for_counter,
}
use budget_warden.Store.Memory.Counters.{counter_at-insert}
use budget_warden.Store.Memory.Entering.{entered, grown, enter-IsValid}
use budget_warden.Store.Memory.Locked.{MemoryStore, locked, reserve_if_allowed}
use budget_warden.Store.Memory.Reserve.{reserve_locked, reserve_new, existing, enter}
use budget_warden.Store.Memory.Cleanup.{cleanup_expired-IsValid}
use budget_warden.Store.Memory.Lapse.{
  lapse_all, held-cleanup, spent-cleanup, cleanup_expired-reservations,
}
use budget_warden.Store.Memory.Ledger.{live}
use budget_warden.Store.Memory.Reserving.{reserve_new_cases, wanted}
use budget_warden.Store.Memory.Valid.{IsValid, spent}

expire_all-next_id :
    (ids : List ReservationId) (s : MemoryState) → (expire_all ids s).next_id ≡ s.next_id
unfolding expire_all
expire_all-next_id [] s = refl
expire_all-next_id (id ∷ ids) s = expire_all-next_id ids (expire_one id s) ∙ one
  where
    one : (expire_one id s).next_id ≡ s.next_id
    one = ground arith

pub cleanup-next_id :
    (now : Timestamp) (s : MemoryState) → (cleanup_expired now s).next_id ≡ s.next_id
unfolding cleanup_expired
cleanup-next_id now s = expire_all-next_id (expired_ids now s.reservations) s

-- The usage of a request's counter at its instant, the request included.
abbrev pub demand : ReserveRequest → MemoryState → ℕ
demand req s =
    let k = counter_key req.key req.window in
    saturating_add (saturating_add (spent k s) (live req.now k s)) req.amount

pub wanted-demand :
    (req : ReserveRequest) (s : MemoryState)
    → IsValid s
    → wanted req (counter_key req.key req.window) (cleanup_expired req.now s) ≡ demand req s
wanted-demand req s v =
    let k = counter_key req.key req.window in
    let b = (cleanup_expired-IsValid req.now s v).balanced k in
    ground (
      arith,
      b.reserved,
      b.committed,
      held-cleanup req.now k s v.distinct,
      spent-cleanup req.now k s v.distinct,
    )

module _ (req : ReserveRequest) (s : MemoryState) (v : IsValid s)
    (plain : req.idempotency_key ≡ none) (more : s.next_id < u64_max) where
  abbrev k : CounterKey
  k = counter_key req.key req.window

  abbrev s1 : MemoryState
  s1 = cleanup_expired req.now s

  reserves_new : reserve_locked req s ≡ reserve_new req k s1
  unfolding reserve_locked existing
  reserves_new = rw (plain, reserve_locked, existing) refl

  -- A request that fits is entered, once the reservations that are due have expired.
  reserve_locked-enters :
      demand req s ≤ req.effective_limit
      → reserve_locked req s ≡ enter req k (s1.next_id + 1) (record s1 { next_id = s1.next_id + 1 })
  reserve_locked-enters fits =
      let w = wanted-demand req s v in
      let n = cleanup-next_id req.now s in
      reserves_new ∙ elim (reserve_new_cases req k s1) [
        | inl (over, e) ↦ absurd (omega (arith, w, over, fits))
        | inr (inl (_, full, e)) ↦ absurd (omega (arith, n, full, more))
        | inr (inr (_, _, e)) ↦ e
      ]

  pub reserve_locked-answers :
      demand req s ≤ req.effective_limit
      → (reserve_locked req s).0
        ≡ ok (
            allowed
              (record { id = s.next_id + 1; expires_at = req.now +ℤ req.reservation_ttl })
              (record {
                committed = spent k s;
                reserved = saturating_add (live req.now k s) req.amount;
              }))
  unfolding enter
  reserve_locked-answers fits =
      let b = (cleanup_expired-IsValid req.now s v).balanced k in
      rw (reserve_locked-enters fits, cleanup-next_id req.now s)
        (ground (
          arith,
          b.reserved,
          b.committed,
          held-cleanup req.now k s v.distinct,
          spent-cleanup req.now k s v.distinct,
        ))

  -- What is left of a granted request.
  reserve_locked-records :
      0 < req.amount
      → req.effective_limit ≤ u64_max
      → spent k s + live req.now k s + req.amount ≤ req.effective_limit
      → let t = (reserve_locked req s).1 in
        (t.reservations
          ≡ insert ℕ_discrete (s.next_id + 1) (entered req k) (lapse_all req.now s.reservations))
        × (t.next_id ≡ s.next_id + 1)
        × (counter_at t.counters k
            ≡ record { committed = spent k s; reserved = live req.now k s + req.amount })
        × IsValid t
  unfolding enter
  reserve_locked-records positive bounded fits =
      let w = cleanup_expired-IsValid req.now s v in
      let b = w.balanced k in
      let r = cleanup_expired-reservations req.now s v.distinct in
      let h = held-cleanup req.now k s v.distinct in
      let p = spent-cleanup req.now k s v.distinct in
      let n = cleanup-next_id req.now s in
      rw (reserve_locked-enters (ground arith)) (
        rw (n, r) refl,
        rw n refl,
        ground (
          arith,
          counter_at-insert s1.counters k k (grown req k s1),
          b.reserved,
          b.committed,
          h,
          p,
        ),
        enter-IsValid req k s1 w positive (omega (arith, b.reserved, b.committed, h, p)),
      )

-- A valid request without an idempotency key that fits below its effective limit, which is a `u64`,
-- is granted by a store in a state that keeps the invariant, if its lock is not poisoned and there
-- are identifiers left. The answer carries the next identifier, the end of the request's time to
-- live, and a usage in which the request is reserved. Next to the reservations that were there,
-- those that are due being expired, the store then has an active one with the request's units under
-- that identifier; the counter shows the usage of the answer; and the state keeps the invariant.
pub reserve_if_allowed-grants :
    (req : ReserveRequest) (m : MemoryStore)
    → m.poisoned ≡ false
    → IsValid m.state
    → IsSound req
    → req.idempotency_key ≡ none
    → m.state.next_id < u64_max
    → req.effective_limit ≤ u64_max
    → let s = m.state in
      let k = counter_key req.key req.window in
      let (answer, m') = reserve_if_allowed req m in
      spent k s + live req.now k s + req.amount ≤ req.effective_limit
      → (answer
          ≡ ok (
              allowed
                (record { id = s.next_id + 1; expires_at = req.now +ℤ req.reservation_ttl })
                (record { committed = spent k s; reserved = live req.now k s + req.amount })))
        × (m'.state.reservations
            ≡ insert ℕ_discrete (s.next_id + 1) (entered req k) (lapse_all req.now s.reservations))
        × (m'.state.next_id ≡ s.next_id + 1)
        × (counter_at m'.state.counters k
            ≡ record { committed = spent k s; reserved = live req.now k s + req.amount })
        × IsValid m'.state
unfolding reserve_if_allowed locked
reserve_if_allowed-grants req m healthy v sound plain more bounded fits =
    let (rows, n, c, w) =
      reserve_locked-records req m.state v plain more sound.amount_pos bounded fits in
    rw (validate_sound req sound, healthy, reserve_if_allowed, locked)
      (reserve_locked-answers req m.state v plain more (ground arith) ∙ ground arith, rows, n, c, w)

-- A request without an idempotency key that does not fit below its effective limit is denied, and
-- the store only cleans up.
pub reserve_locked-denies :
    (req : ReserveRequest) (s : MemoryState)
    → IsValid s
    → req.idempotency_key ≡ none
    → req.effective_limit < demand req s
    → reserve_locked req s ≡ (
      ok (denied (usage_for_counter (cleanup_expired req.now s) (counter_key req.key req.window))),
      cleanup_expired req.now s,
    )
unfolding reserve_locked existing
reserve_locked-denies req s v plain over =
    let k = counter_key req.key req.window in
    let w = wanted-demand req s v in
    elim (reserve_new_cases req k (cleanup_expired req.now s)) [
      | inl (_, e) ↦ rw (plain, e, reserve_locked, existing) refl
      | inr (inl (fits, _, e)) ↦ absurd (omega (arith, w, over, fits))
      | inr (inr (fits, _, e)) ↦ absurd (omega (arith, w, over, fits))
    ]
