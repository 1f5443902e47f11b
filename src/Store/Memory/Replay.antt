-- ===== src/Store/Memory/Replay.antt =====
-- The retry of a request with an idempotency key (src/store/memory.rs).
use budget_warden.Base.{
  ◌+◌, ◌+ℤ◌, ◌≤◌, ◌<◌, ◌≡◌, refl, ◌∙◌, ap, none, some, arith, u64_max, ok, inl, inr, List, [], ◌∷◌,
  false, ℕ_discrete, leb_ℤ, saturating_add,
}
use budget_warden.Base.Map.{get, get-insert_self}
use budget_warden.Ids.{ReservationId, IdempotencyKey}
use budget_warden.Time.{Timestamp}
use budget_warden.Store.{ReserveRequest, StoreReservation, CounterUsage, allowed}
use budget_warden.Store.Memory.{
  index-discrete, counter_key, MemoryState, ReservationRecord, active, cleanup_expired, expire_all,
  expire_one, expired_ids, is_due, usage_for_counter, counter_at,
}
use budget_warden.Store.Memory.Reserve.{
  reserve_locked, reserve_new, existing, enter, replay_existing_reservation,
}
use budget_warden.Store.Memory.Granting.{demand, wanted-demand, cleanup-next_id}
use budget_warden.Store.Memory.Ledger.{get-cleanup}
use budget_warden.Store.Memory.Entering.{entered}
use budget_warden.Store.Memory.Reserving.{reserve_new_cases, reserve_locked-IsValid}
use budget_warden.Store.Memory.Valid.{IsValid}

expire_all-idempotency :
    (ids : List ReservationId) (s : MemoryState) → (expire_all ids s).idempotency ≡ s.idempotency
unfolding expire_all
expire_all-idempotency [] s = refl
expire_all-idempotency (id ∷ ids) s = expire_all-idempotency ids (expire_one id s) ∙ one
  where
    one : (expire_one id s).idempotency ≡ s.idempotency
    one = ground arith

cleanup-idempotency :
    (now : Timestamp) (s : MemoryState) → (cleanup_expired now s).idempotency ≡ s.idempotency
unfolding cleanup_expired
cleanup-idempotency now s = expire_all-idempotency (expired_ids now s.reservations) s

-- A request whose idempotency key is known is answered with its reservation, while that is active.
replays :
    (req : ReserveRequest) (key : IdempotencyKey) (id : ReservationId) (r : ReservationRecord)
    (s : MemoryState)
    → IsValid s
    → req.idempotency_key ≡ some key
    → get index-discrete (counter_key req.key req.window, key) s.idempotency ≡ some id
    → get ℕ_discrete id s.reservations ≡ some r
    → r.status ≡ active
    → is_due req.now r ≡ false
    → let t = cleanup_expired req.now s in
      reserve_locked req s ≡ (
        ok (
            allowed
              (record { id = id; expires_at = r.expires_at })
              (usage_for_counter t (counter_key req.key req.window))),
        t,
      )
unfolding reserve_locked existing replay_existing_reservation
replays req key id r s v q known found a alive =
    let k = counter_key req.key req.window in
    let t = cleanup_expired req.now s in
    let e : existing t k req.idempotency_key ≡ some id =
      rw (q, existing) (ap (get index-discrete (k, key)) (cleanup-idempotency req.now s) ∙ known) in
    let f : get ℕ_discrete id t.reservations ≡ some r =
      ground (arith, get-cleanup req.now id r s v found) in
    rw (e, f, a, reserve_locked, replay_existing_reservation) refl

reserve_new-enters :
    (req : ReserveRequest) (s : MemoryState)
    → IsValid s
    → s.next_id < u64_max
    → demand req s ≤ req.effective_limit
    → let t = cleanup_expired req.now s in
      let k = counter_key req.key req.window in
      reserve_new req k t ≡ enter req k (t.next_id + 1) (record t { next_id = t.next_id + 1 })
reserve_new-enters req s v more fits =
    let w = wanted-demand req s v in
    let n = cleanup-next_id req.now s in
    elim (reserve_new_cases req (counter_key req.key req.window) (cleanup_expired req.now s)) [
      | inl (over, e) ↦ absurd (omega (arith, w, over, fits))
      | inr (inl (_, full, e)) ↦ absurd (omega (arith, n, full, more))
      | inr (inr (_, _, e)) ↦ e
    ]

-- The same request at another instant.
abbrev pub retry : ReserveRequest → Timestamp → ReserveRequest
retry req later = record req { now = later }

-- A request with a new idempotency key that fits is granted once: when it is made again before its
-- reservation runs out, it is answered with the same reservation, and the store only cleans up (for
-- a request of at least one unit under a limit below `u64::MAX`, with identifiers left).
pub retry_replays :
    (req : ReserveRequest) (key : IdempotencyKey) (later : Timestamp) (s : MemoryState)
    → IsValid s
    → req.idempotency_key ≡ some key
    → get index-discrete (counter_key req.key req.window, key) s.idempotency ≡ none
    → s.next_id < u64_max
    → 0 < req.amount
    → req.effective_limit < u64_max
    → demand req s ≤ req.effective_limit
    → leb_ℤ (req.now +ℤ req.reservation_ttl) later ≡ false
    → let s' = (reserve_locked req s).1 in
      (x : StoreReservation) × (u u' : CounterUsage) × ((reserve_locked req s).0 ≡ ok (allowed x u))
      × (reserve_locked (retry req later) s' ≡ (ok (allowed x u'), cleanup_expired later s'))
unfolding reserve_locked existing enter
retry_replays req key later s v q new more pos small fits alive =
    let k = counter_key req.key req.window in
    let t = cleanup_expired req.now s in
    let s' : MemoryState = (reserve_locked req s).1 in
    let r = entered req k in
    let e : existing t k req.idempotency_key ≡ none =
      rw (q, existing) (ap (get index-discrete (k, key)) (cleanup-idempotency req.now s) ∙ new) in
    let g : reserve_locked req s
        ≡ enter req k (t.next_id + 1) (record t { next_id = t.next_id + 1 }) =
      rw (e, reserve_locked) (reserve_new-enters req s v more fits) in
    let known : get index-discrete (k, key) s'.idempotency ≡ some (t.next_id + 1) =
      rw (g, enter, q) (get-insert_self index-discrete (k, key) (t.next_id + 1) t.idempotency) in
    let found : get ℕ_discrete (t.next_id + 1) s'.reservations ≡ some r =
      rw (g, enter) (get-insert_self ℕ_discrete (t.next_id + 1) r t.reservations) in
    let w = reserve_locked-IsValid req s small pos v in
    let x : StoreReservation = record { id = t.next_id + 1; expires_at = r.expires_at } in
    let second = replays (retry req later) key (t.next_id + 1) r s' w q known found refl alive in
    let c = counter_at t.counters k in
    let u : CounterUsage = record {
      committed = c.committed;
      reserved = saturating_add c.reserved req.amount;
    } in
    (x, u, usage_for_counter (cleanup_expired later s') k, rw (g, enter) refl, second)
