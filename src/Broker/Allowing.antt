-- ===== src/Broker/Allowing.antt =====
-- What `authorize` and `reserve` of src/broker.rs allow, by the arms of their `match`es.
use budget_warden.Base.{
  ◌≡◌, refl, true, none, some, inl, inr, Option-cases, Result-cases, Bool-cases, ok, ◌>>◌, Result,
}
use budget_warden.Error.{BudgetError, StoreError}
use budget_warden.Policy.{BudgetPolicy}
use budget_warden.Pacing.{evaluate_policy}
use budget_warden.Registry.{find}
use budget_warden.Request.{BudgetRequest}
use budget_warden.Reservation.{BudgetReservation, BudgetDecision, allow_live, attached}
use budget_warden.Usage.{UsageSnapshot}
use budget_warden.Store.{CounterUsage, StoreReservation, StoreReservationResult, used}
use budget_warden.Time.{Timestamp, Chrono}
use budget_warden.Window.{WindowBounds, bounds_at}
use budget_warden.Broker.{
  BudgetWarden, with_usage, authorize_usage, reserve_usage, reserve_answer, store_key,
  store_request, validate_request_against_policy, on_store_error, no_policy_decision,
}

module _ {S : Type 0} (c : Chrono) (w : BudgetWarden S) (now wall : Timestamp)
    (request : BudgetRequest) where
  -- If the call allows a reservation `r`, then `P policy r` for the policy of the request.
  abbrev pub Allowing :
      (BudgetReservation S → Type 0) → Result BudgetError (BudgetDecision S) → Type 0
  Allowing P (ok (allow_live r u)) = P r
  Allowing P _ = Unit

  pub Allowing-elim :
      (P : BudgetReservation S → Type 0) (d : Result BudgetError (BudgetDecision S))
      (r : BudgetReservation S) (u : UsageSnapshot)
      → d ≡ ok (allow_live r u)
      → Allowing P d
      → P r
  Allowing-elim P d r u e a = rw e at a

  -- A rule for what the two calls allow: by the arms of their `match`es.
  pub with_usage-Allowing :
      (P : BudgetReservation S → Type 0)
      (rest : BudgetPolicy
        → WindowBounds
        → CounterUsage
        → S
        → Result BudgetError (BudgetDecision S) × S)
      (s : S)
      → ((policy : BudgetPolicy) (window : WindowBounds) (e : StoreError)
          → find w.policies request.key ≡ some policy
          → Allowing P (on_store_error c policy request window now policy.fail_mode e))
      → ((policy : BudgetPolicy) (window : WindowBounds) (u : CounterUsage)
          → find w.policies request.key ≡ some policy
          → (validate_request_against_policy request policy >> bounds_at c policy.window now)
            ≡ ok window
          → (w.store.usage (store_key policy request.key) window now s).0 ≡ ok u
          → Allowing P
              (rest policy window u
                (w.store.usage (store_key policy request.key) window now s).1).0)
      → Allowing P (with_usage c w now wall request rest s).0
  unfolding with_usage no_policy_decision
  with_usage-Allowing P rest s failed next = elim (Option-cases (find w.policies request.key)) [
    | inl e ↦ rw (e, with_usage) tt
    | inr (policy, e) ↦
        elim (Result-cases
          (validate_request_against_policy request policy >> bounds_at c policy.window now)) [
            | inr (inl (f, e2)) ↦ rw (e, e2, with_usage) tt
            | inr (inr e2) ↦ rw (e, e2, with_usage) tt
            | inl (window, e2) ↦
                elim (Result-cases (w.store.usage (store_key policy request.key) window now s).0) [
                  | inl (u, e3) ↦ rw (e, e2, e3, with_usage) (next policy window u e e2 e3)
                  | inr (inl (f, e3)) ↦ rw (e, e2, e3, with_usage) (failed policy window f e)
                  | inr (inr e3) ↦ rw (e, e2, e3, with_usage) tt
                ]
          ]
  ]

  reserve_answer-Allowing :
      (P : BudgetReservation S → Type 0) (policy : BudgetPolicy) (window : WindowBounds)
      (result : StoreReservationResult)
      → ((x : StoreReservation)
          → result.is_allowed ≡ true
          → result.reservation ≡ some x
          → P (
              attached x.id policy.name request.key request.amount request.unit x.expires_at
                w.store))
      → Allowing P (reserve_answer c w now wall request policy window result)
  unfolding reserve_answer
  reserve_answer-Allowing P policy window result h = elim (Bool-cases result.is_allowed) [
    | inr no_ ↦ rw (no_, reserve_answer) tt
    | inl yes_ ↦ elim (Option-cases result.reservation) [
      | inl e ↦ rw (yes_, e, reserve_answer) tt
      | inr (r, e) ↦ rw (yes_, e, reserve_answer) (h r yes_ e)
    ]
  ]

  pub reserve_usage-Allowing :
      (P : BudgetReservation S → Type 0) (between : S → S) (policy : BudgetPolicy)
      (window : WindowBounds) (u : CounterUsage) (s : S)
      → ((e : StoreError)
          → Allowing P (on_store_error c policy request window now policy.fail_mode e))
      → ((result : StoreReservationResult) (x : StoreReservation)
          → (w.store.reserve_if_allowed
              (store_request c w now wall request policy window
                (evaluate_policy c policy
                  (used u)
                  request.amount
                  request.priority
                  window
                  now).effective_limit)
              (between s)).0
            ≡ ok result
          → result.is_allowed ≡ true
          → result.reservation ≡ some x
          → P (
              attached x.id policy.name request.key request.amount request.unit x.expires_at
                w.store))
      → Allowing P (reserve_usage c w now wall request between policy window u s).0
  unfolding reserve_usage
  reserve_usage-Allowing P between policy window u s failed h =
      let e = evaluate_policy c policy (used u) request.amount request.priority window now in
      elim (Option-cases e.denial_reason) [
        | inr (reason, e1) ↦ rw (e1, reserve_usage) tt
        | inl e1 ↦
            elim (Result-cases
              (w.store.reserve_if_allowed
                (store_request c w now wall request policy window e.effective_limit)
                (between s)).0) [
                  | inl (r, e2) ↦
                      rw (e1, e2, reserve_usage)
                        (reserve_answer-Allowing P policy window r λ x. h r x e2)
                  | inr (inl (f, e2)) ↦ rw (e1, e2, reserve_usage) (failed f)
                  | inr (inr e2) ↦ rw (e1, e2, reserve_usage) tt
                ]
      ]

  pub authorize_usage-Allowing :
      (policy : BudgetPolicy) (window : WindowBounds) (u : CounterUsage) (s : S)
      → Allowing (λ r. r.store ≡ none) (authorize_usage c w now wall request policy window u s).0
  unfolding authorize_usage
  authorize_usage-Allowing policy window u s =
      elim (Option-cases
        (evaluate_policy c policy (used u) request.amount request.priority window
          now).denial_reason) [
            | inl e ↦ rw (e, authorize_usage) refl
            | inr (reason, e) ↦ rw (e, authorize_usage) tt
          ]
