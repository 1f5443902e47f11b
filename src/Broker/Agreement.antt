-- ===== src/Broker/Agreement.antt =====
-- `authorize` and `reserve` of src/broker.rs agree: what the one promises the other grants.
use budget_warden.Base.{
  ℕ, ◌+◌, ◌+ℤ◌, ◌≤◌, ◌<◌, ◌≡◌, refl, none, inl, inr, ◌⊎◌, subst, Option-cases, Result-cases, arith,
  u64_max, false, ok, ◌>>◌, Result, pos, ◌≤ℤ◌, saturating_add,
}
use budget_warden.Error.{BudgetError}
use budget_warden.Policy.{BudgetPolicy}
use budget_warden.Pacing.{evaluate_policy}
use budget_warden.Pacing.Limits.{evaluate_policy-bounds, evaluate_policy-allowed}
use budget_warden.Registry.{PolicyRegistry, find}
use budget_warden.Request.{BudgetRequest}
use budget_warden.Reservation.{BudgetReservation, BudgetDecision, allow_live}
use budget_warden.Usage.{UsageSnapshot}
use budget_warden.Store.{CounterUsage, StoreReservationResult, used, allowed}
use budget_warden.Store.Checks.{validate_sound}
use budget_warden.Store.Memory.{CounterKey, counter_key, cleanup_expired, usage_for_counter}
use budget_warden.Store.Memory.Cleanup.{cleanup_expired-IsValid}
use budget_warden.Store.Memory.Finish.{usage_locked}
use budget_warden.Store.Memory.Granting.{demand, reserve_locked-answers, cleanup-next_id}
use budget_warden.Store.Memory.Lapse.{held-cleanup, spent-cleanup, live-le-active}
use budget_warden.Store.Memory.Ledger.{live}
use budget_warden.Store.Memory.Locked.{MemoryStore, locked, reserve_if_allowed}
use budget_warden.Store.Memory.Valid.{IsValid, spent}
use budget_warden.Time.{Timestamp, Duration, Chrono}
use budget_warden.Window.{WindowBounds, bounds_at}
use budget_warden.Broker.{
  BudgetWarden, with_usage, authorize, authorize_usage, reserve, reserve_usage, reserve_answer,
  store_key, store_request, validate_request_against_policy,
}
use budget_warden.Broker.Safety.{memory_warden}

-- A call answers with an allowance.
abbrev pub IsAllowance : {S : Type 0} → Result BudgetError (BudgetDecision S) × S → Type 0
IsAllowance {S} (result, s) =
    (r : BudgetReservation S) × (u : UsageSnapshot) × (result ≡ ok (allow_live r u))

-- The conditions under which a call may lead to a new reservation: the lock is not poisoned, the
-- state keeps the invariant, there are identifiers left, and the request and the time to live are
-- positive; the request has no idempotency key.
pub record IsReady (m : MemoryStore) (request : BudgetRequest) (ttl : Duration) : Type 0 where
  pub healthy : m.poisoned ≡ false
  pub valid : IsValid m.state
  pub more : m.state.next_id < u64_max
  pub amount_pos : 0 < request.amount
  pub lasting : pos 1 ≤ℤ ttl
  pub plain : request.idempotency_key ≡ none

module _ (c : Chrono) (policies : PolicyRegistry) (ttl : Duration) (now wall : Timestamp)
    (request : BudgetRequest) where
  abbrev w : BudgetWarden MemoryStore
  w = memory_warden policies ttl

  -- The state in which `usage` leaves the store.
  abbrev after_usage : MemoryStore → MemoryStore
  after_usage m = record m { state = cleanup_expired now m.state }

  -- What the store answers to a request that fits by the usage it has just reported.
  store_grants :
      (policy : BudgetPolicy) (window : WindowBounds) (limit : ℕ) (m : MemoryStore)
      → IsReady m request ttl
      → limit ≤ policy.hard_limit
      → let k = counter_key (store_key policy request.key) window in
        saturating_add (used (usage_for_counter (cleanup_expired now m.state) k)) request.amount
          ≤ limit
        → (result : StoreReservationResult) × ((reserve_if_allowed
              (store_request c w now wall request policy window limit)
              (after_usage m)).0
            ≡ ok result)
          × IsAllowance (reserve_answer c w now wall request policy window result, m)
  unfolding reserve_if_allowed locked reserve_answer
  store_grants policy window limit m i le fits =
      let k = counter_key (store_key policy request.key) window in
      let req = store_request c w now wall request policy window limit in
      let s = cleanup_expired now m.state in
      let v = cleanup_expired-IsValid now m.state i.valid in
      let b = v.balanced k in
      let d : demand req s ≤ limit = ground (
        arith,
        fits,
        b.reserved,
        b.committed,
        held-cleanup now k s v.distinct,
        spent-cleanup now k s v.distinct,
        live-le-active now k s.reservations,
      ) in
      let g =
        reserve_locked-answers req s v i.plain (omega (arith, cleanup-next_id now m.state, i.more))
          d in
      let x =
        validate_sound req
          (record { amount_pos = i.amount_pos; limited = le; lasting = i.lasting }) in
      let result : StoreReservationResult =
        allowed (record { id = s.next_id + 1; expires_at = now +ℤ ttl })
          (record {
            committed = spent k s;
            reserved = saturating_add (live now k s) request.amount;
          }) in
      (result, rw (x, i.healthy, reserve_if_allowed, locked) g, (_, _, refl))

  authorize_usage-denies :
      (policy : BudgetPolicy) (window : WindowBounds) (u : CounterUsage) (m : MemoryStore)
      → IsAllowance (authorize_usage c w now wall request policy window u m)
      → (evaluate_policy c policy (used u) request.amount request.priority window now).denial_reason
        ≡ none
  unfolding authorize_usage
  authorize_usage-denies policy window u m a =
      elim (Option-cases
        (evaluate_policy c policy (used u) request.amount request.priority window
          now).denial_reason) [ inl e ↦ e | inr (reason, e) ↦ ground (arith, a.2, e) ]

  reserve_usage-grants :
      (policy : BudgetPolicy) (window : WindowBounds) (m : MemoryStore)
      → IsReady m request ttl
      → let u =
          usage_for_counter
            (cleanup_expired now m.state)
            (counter_key (store_key policy request.key) window) in
        (evaluate_policy c policy (used u) request.amount request.priority window now).denial_reason
          ≡ none
        → IsAllowance (reserve_usage c w now wall request (λ s. s) policy window u (after_usage m))
  unfolding reserve_usage
  reserve_usage-grants policy window m i a =
      let u =
        usage_for_counter (cleanup_expired now m.state)
          (counter_key (store_key policy request.key) window) in
      let e = evaluate_policy c policy (used u) request.amount request.priority window now in
      let g =
        store_grants policy window e.effective_limit m i
          (evaluate_policy-bounds c policy (used u) request.amount request.priority window now).0
          (evaluate_policy-allowed c policy (used u) request.amount request.priority window now
            a) in
      (g.2.0, g.2.1, rw (a, g.1, reserve_usage) g.2.2)

  abbrev Rest : Type 0
  Rest =
      BudgetPolicy
      → WindowBounds
      → CounterUsage
      → MemoryStore
      → Result BudgetError (BudgetDecision MemoryStore) × MemoryStore

  abbrev usage_for : BudgetPolicy → WindowBounds → MemoryStore → CounterUsage
  usage_for policy window m =
      usage_for_counter (cleanup_expired now m.state)
        (counter_key (store_key policy request.key) window)

  usage_answers :
      (k : CounterKey) (m : MemoryStore)
      → m.poisoned ≡ false
      → locked (usage_locked k now) m
        ≡ (ok (usage_for_counter (cleanup_expired now m.state) k), after_usage m)
  unfolding locked usage_locked
  usage_answers k m h = ground (arith, h)

  -- Either the call ends before what follows the usage, or it goes on there with the store's answer.
  with_usage-cases :
      (m : MemoryStore)
      → m.poisoned ≡ false
      → ((f g : Rest) → with_usage c w now wall request f m ≡ with_usage c w now wall request g m)
        ⊎ ((policy : BudgetPolicy) × (window : WindowBounds) × ((f : Rest)
              → with_usage c w now wall request f m
                ≡ f policy window (usage_for policy window m) (after_usage m)))
  unfolding with_usage
  with_usage-cases m h = elim (Option-cases (find policies request.key)) [
    | inl e ↦ inl (λ f g. rw (e, with_usage) refl)
    | inr (policy, e) ↦
        elim (Result-cases
          (validate_request_against_policy request policy >> bounds_at c policy.window now)) [
            | inr (inl (x, e2)) ↦ inl (λ f g. rw (e, e2, with_usage) refl)
            | inr (inr e2) ↦ inl (λ f g. rw (e, e2, with_usage) refl)
            | inl (window, e2) ↦
                inr (policy, window, λ f. simp (e, e2, usage_answers _ m h, with_usage))
          ]
  ]

  -- Over a store in memory, whatever `authorize` allows, `reserve` allows too when it is called in
  -- the same state at the same instant and no other task uses the store in between: for a request
  -- without an idempotency key, in a store that can take another reservation.
  pub authorize-reserve :
      (m : MemoryStore)
      → IsReady m request ttl
      → IsAllowance (authorize c (memory_warden policies ttl) now wall request m)
      → IsAllowance (reserve c (memory_warden policies ttl) now wall request (λ s. s) m)
  unfolding authorize reserve
  authorize-reserve m i a = elim (with_usage-cases m i.healthy) [
    | inl same ↦
        subst IsAllowance
          (same (authorize_usage c w now wall request)
            (reserve_usage c w now wall request (λ s. s)))
          a
    | inr (policy, window, on) ↦ rw (on (reserve_usage c w now wall request (λ s. s))) (
        reserve_usage-grants policy window m i (
          authorize_usage-denies policy window (usage_for policy window m) (after_usage m)
            (rw (on (authorize_usage c w now wall request)) at a)))
  ]
