-- ===== src/Broker/Backing.antt =====
-- What stands behind a reservation that `authorize` or `reserve` of src/broker.rs hands out, over any
-- store.
use budget_warden.Base.{◌≡◌, refl, ap, true, none, some, ok, err, ◌>>◌}
use budget_warden.Error.{StoreError, reservation_not_found}
use budget_warden.Policy.{BudgetPolicy, FailMode, open_mode, closed_mode}
use budget_warden.Pacing.{evaluate_policy}
use budget_warden.Registry.{find}
use budget_warden.Request.{BudgetRequest}
use budget_warden.Reservation.{BudgetReservation, allow_live, attached, commit, refund}
use budget_warden.Usage.{UsageSnapshot}
use budget_warden.Store.{CounterUsage, StoreReservation, StoreReservationResult, used}
use budget_warden.Time.{Timestamp, Chrono}
use budget_warden.Window.{WindowBounds, bounds_at}
use budget_warden.Broker.Allowing.{
  Allowing, Allowing-elim, with_usage-Allowing, reserve_usage-Allowing, authorize_usage-Allowing,
}
use budget_warden.Broker.{
  BudgetWarden, authorize, authorize_usage, reserve, reserve_usage, store_key, store_request,
  validate_request_against_policy, on_store_error, fail_open_decision,
}

module _ {S : Type 0} (c : Chrono) (w : BudgetWarden S) (now wall : Timestamp)
    (request : BudgetRequest) where
  -- What stands behind a reservation that `reserve` hands out: the store was asked for the usage in the
  -- window of the request's policy; it was then asked to reserve the request below the limit of the
  -- evaluation, and allowed that with a reservation; and this is the one that is handed out, attached to
  -- the store.
  pub record IsGranted (between : S → S) (s : S) (r : BudgetReservation S) : Type 0 where
    pub policy : BudgetPolicy
    pub window : WindowBounds
    pub usage : CounterUsage
    pub result : StoreReservationResult
    pub reservation : StoreReservation
    pub found : find w.policies request.key ≡ some policy
    pub checked :
        (validate_request_against_policy request policy >> bounds_at c policy.window now)
        ≡ ok window
    pub asked : (w.store.usage (store_key policy request.key) window now s).0 ≡ ok usage
    pub answered :
        (w.store.reserve_if_allowed
          (store_request c w now wall request policy window
            (evaluate_policy c policy
              (used usage)
              request.amount
              request.priority
              window
              now).effective_limit)
          (between (w.store.usage (store_key policy request.key) window now s).1)).0
        ≡ ok result
    pub is_allowed : result.is_allowed ≡ true
    pub reserved : result.reservation ≡ some reservation
    pub handed_out :
        r
        ≡ attached reservation.id policy.name request.key request.amount request.unit
            reservation.expires_at w.store

  open_failure :
      (policy : BudgetPolicy) (window : WindowBounds) (e : StoreError) (f : FailMode)
      → Allowing c w now wall request
          (λ r. r.store ≡ none)
          (on_store_error c policy request window now f e)
  unfolding fail_open_decision
  open_failure policy window e open_mode = refl
  open_failure policy window e closed_mode = tt

  -- Under a policy that fails closed, whatever `reserve` allows the store has granted: the store's own
  -- answer to the request allows it, and the reservation is the one of that answer, attached to the
  -- warden's store.
  pub reserve-closed :
      (between : S → S) (s : S) (r : BudgetReservation S) (u : UsageSnapshot)
      → ((policy : BudgetPolicy)
          → find w.policies request.key ≡ some policy
          → policy.fail_mode ≡ closed_mode)
      → (reserve c w now wall request between s).0 ≡ ok (allow_live r u)
      → (r.store ≡ some w.store) × IsGranted between s r
  unfolding reserve
  reserve-closed between s r u closed e =
      let P : BudgetReservation S → Type 0 = IsGranted between s in
      let fails : (policy : BudgetPolicy) (window : WindowBounds) (f : StoreError)
            (g : find w.policies request.key ≡ some policy)
          → Allowing c w now wall request P
              (on_store_error c policy request window now policy.fail_mode f) =
        λ policy window f g. rw (closed policy g) tt in
      let granted = Allowing-elim c w now wall request P _ r u e (
        with_usage-Allowing c w now wall request P (reserve_usage c w now wall request between) s
          fails
          λ policy window x found checked asked.
            reserve_usage-Allowing c w now wall request P between policy window x _
              (λ f. fails policy window f found)
              λ result y answered is_allowed reserved. record {
                policy = policy;
                window = window;
                usage = x;
                result = result;
                reservation = y;
                found = found;
                checked = checked;
                asked = asked;
                answered = answered;
                is_allowed = is_allowed;
                reserved = reserved;
                handed_out = refl;
              }) in
      (ap (λ x. x.store) granted.handed_out, granted)

  -- What `authorize` allows is a preview: it can be neither committed nor refunded, and trying
  -- leaves the store alone.
  pub authorize-preview :
      (s : S) (r : BudgetReservation S) (u : UsageSnapshot) (later : Timestamp) (t : S)
      → (authorize c w now wall request s).0 ≡ ok (allow_live r u)
      → (commit r later t ≡ (err reservation_not_found, t))
        × (refund r later t ≡ (err reservation_not_found, t))
  unfolding authorize commit refund
  authorize-preview s r u later t e =
      let P : BudgetReservation S → Type 0 = λ x. x.store ≡ none in
      let d = Allowing-elim c w now wall request P _ r u e (
        with_usage-Allowing c w now wall request P (authorize_usage c w now wall request) s
          (λ policy window f g. open_failure policy window f policy.fail_mode)
          λ policy window x found checked asked.
            authorize_usage-Allowing c w now wall request policy window x _) in
      (rw (d, commit) refl, rw (d, refund) refl)
