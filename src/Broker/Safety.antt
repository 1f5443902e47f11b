-- ===== src/Broker/Safety.antt =====
-- What a call of `reserve` (src/broker.rs) leaves of the store, over any store and over the one in
-- memory, whatever other tasks do between the two calls that it makes.
use budget_warden.Base.{
  and_then-ok, ok, ℕ, ◌≤◌, ◌<◌, ◌≡◌, sym, ap, some, inl, inr, Option-cases, Result-cases, u64_max,
  ◌>>◌, Result,
}
use budget_warden.Error.{BudgetError}
use budget_warden.Policy.{BudgetPolicy}
use budget_warden.Pacing.{evaluate_policy}
use budget_warden.Pacing.Limits.{evaluate_policy-bounds}
use budget_warden.Registry.{PolicyRegistry, find}
use budget_warden.Request.{BudgetRequest}
use budget_warden.Reservation.{BudgetDecision}
use budget_warden.Store.{CounterUsage, used}
use budget_warden.Store.Memory.{CounterKey}
use budget_warden.Store.Memory.Locked.{MemoryStore, memory_store}
use budget_warden.Store.Memory.History.{IsWithin}
use budget_warden.Store.Memory.Tasks.{usage-IsWithin, reserve-IsWithin}
use budget_warden.Time.{Timestamp, Duration, Chrono}
use budget_warden.Window.{WindowBounds, bounds_at}
use budget_warden.Broker.{
  BudgetWarden, with_usage, reserve, reserve_usage, store_key, store_request,
  validate_request_against_policy,
}

module _ {S : Type 0} (c : Chrono) (w : BudgetWarden S) (now wall : Timestamp)
    (request : BudgetRequest) (Q : S → Type 0) where
  -- To keep `Q`, it is enough that the call for the usage keeps it and what follows does.
  pub with_usage_rule :
      (rest : BudgetPolicy
        → WindowBounds
        → CounterUsage
        → S
        → Result BudgetError (BudgetDecision S) × S)
      (s : S)
      → Q s
      → ((policy : BudgetPolicy) (window : WindowBounds)
          → Q (w.store.usage (store_key policy request.key) window now s).1)
      → ((policy : BudgetPolicy) (window : WindowBounds) (u : CounterUsage) (t : S)
          → find w.policies request.key ≡ some policy
          → bounds_at c policy.window now ≡ ok window
          → Q t
          → Q (rest policy window u t).1)
      → Q (with_usage c w now wall request rest s).1
  unfolding with_usage
  with_usage_rule rest s q usage next = elim (Option-cases (find w.policies request.key)) [
    | inl e ↦ rw (e, with_usage) q
    | inr (policy, e) ↦
        elim (Result-cases
          (validate_request_against_policy request policy >> bounds_at c policy.window now)) [
            | inr (inl (f, e2)) ↦ rw (e, e2, with_usage) q
            | inr (inr e2) ↦ rw (e, e2, with_usage) q
            | inl (window, e2) ↦
                elim (Result-cases (w.store.usage (store_key policy request.key) window now s).0) [
                  | inl (u, e3) ↦
                      rw (e, e2, e3, with_usage)
                        (next policy window u _ e
                          (and_then-ok (validate_request_against_policy request policy)
                            (λ done. bounds_at c policy.window now) e2).2
                          (usage policy window))
                  | inr (inl (f, e3)) ↦ rw (e, e2, e3, with_usage) (usage policy window)
                  | inr (inr e3) ↦ rw (e, e2, e3, with_usage) (usage policy window)
                ]
          ]
  ]

  -- To keep `Q`, it is enough that what other tasks do keeps it and the store's reservation does.
  pub reserve_usage_rule :
      (between : S → S) (policy : BudgetPolicy) (window : WindowBounds) (u : CounterUsage) (s : S)
      → Q s
      → Q (between s)
      → ((limit : ℕ)
          → limit ≤ policy.hard_limit
          → Q
              (w.store.reserve_if_allowed
                (store_request c w now wall request policy window limit)
                (between s)).1)
      → Q (reserve_usage c w now wall request between policy window u s).1
  unfolding reserve_usage
  reserve_usage_rule between policy window u s q b kept =
      let e = evaluate_policy c policy (used u) request.amount request.priority window now in
      let k =
        kept e.effective_limit
          (evaluate_policy-bounds c policy (used u) request.amount request.priority window now).0 in
      elim (Option-cases e.denial_reason) [
        | inr (reason, e1) ↦ rw (e1, reserve_usage) q
        | inl e1 ↦
            elim (Result-cases
              (w.store.reserve_if_allowed
                (store_request c w now wall request policy window e.effective_limit)
                (between s)).0) [
                  | inl (r, e2) ↦ rw (e1, e2, reserve_usage) k
                  | inr (inl (f, e2)) ↦ rw (e1, e2, reserve_usage) k
                  | inr (inr e2) ↦ rw (e1, e2, reserve_usage) k
                ]
      ]

-- A warden over the in-memory store.
abbrev pub memory_warden : PolicyRegistry → Duration → BudgetWarden MemoryStore
memory_warden policies ttl = record {
  store = memory_store;
  policies = policies;
  reservation_ttl = ttl;
}

-- A call of `reserve` by a warden over the in-memory store keeps the store's invariant and a
-- ceiling on a counter, whatever other tasks do in between that keeps them, if the hard limit of
-- the policy found is below `u64::MAX` and, where the counter is the policy's, within the ceiling.
pub reserve-Safe :
    (c : Chrono) (policies : PolicyRegistry) (ttl : Duration) (now wall : Timestamp)
    (request : BudgetRequest) (k : CounterKey) (ceiling : ℕ) (between : MemoryStore → MemoryStore)
    (m : MemoryStore)
    → ((policy : BudgetPolicy)
        → find policies request.key ≡ some policy
        → (policy.hard_limit < u64_max)
          × (k.store_key ≡ store_key policy request.key → policy.hard_limit ≤ ceiling))
    → ((t : MemoryStore) → IsWithin k ceiling t.state → IsWithin k ceiling (between t).state)
    → IsWithin k ceiling m.state
    → IsWithin k ceiling (reserve c (memory_warden policies ttl) now wall request between m).1.state
unfolding reserve
reserve-Safe c policies ttl now wall request k ceiling between m limits others h =
    let w = memory_warden policies ttl in
    let Q : MemoryStore → Type 0 = λ t. IsWithin k ceiling t.state in
    with_usage_rule c w now wall request Q (reserve_usage c w now wall request between) m h
      (λ policy window. usage-IsWithin k ceiling _ now m h)
      λ policy window u t e b g.
        reserve_usage_rule c w now wall request Q between policy window u t g (others t g)
          λ limit le.
            reserve-IsWithin k ceiling _ (between t)
              (record {
                small = (limits policy e).0;
                within = λ eq. (limits policy e).1 (sym (ap CounterKey.store_key eq));
              })
              (others t g)
