-- ===== src/Broker.antt =====
-- src/broker.rs: the warden, which decides on requests by its policies and a store. `S` is the state
-- of the store; the instants that a call reads from the clocks are its arguments.
pub mod Report
pub mod Safety
pub mod Embedded
pub mod Distributed
pub mod Agreement
pub mod Allowing
pub mod Backing
pub mod Setters
use budget_warden.Base.{
  ℕ, ◌+ℤ◌, leb_ℤ, pos, Bool, true, false, Option, none, some, List, [], ◌∷◌, Result, ok, err, panic,
  ◌>>=◌, ◌>>◌, fail_if, ok_or, map_err, ite, if◌then◌else◌,
}
use budget_warden.Error.{
  BudgetError, StoreError, invalid_request, store_error, no_matching_policy, config_error,
  from_store_error,
}
use budget_warden.Decision.{DenialReason, FallbackAction, reject, ahead_of_budget_pace}
use budget_warden.Decision
use budget_warden.Key.{BudgetKey}
use budget_warden.BudgetUnit.{BudgetUnit-discrete}
use budget_warden.Policy.{BudgetPolicy, FailMode, open_mode, closed_mode}
use budget_warden.Pacing.{PacingEvaluation, evaluate_policy}
use budget_warden.Request.{BudgetRequest}
use budget_warden.Registry
use budget_warden.Registry.{PolicyRegistry, find}
use budget_warden.Reservation.{
  BudgetReservation, BudgetDecision, allow_live, deny_live, attached, preview,
}
use budget_warden.Store.{
  BudgetStore, StoreKey, StoreReservation, StoreReservationResult, CounterUsage, ReserveRequest,
  no_usage, used,
}
use budget_warden.Time.{Timestamp, Duration, Chrono}
use budget_warden.Usage
use budget_warden.Usage.{UsageSnapshot}
use budget_warden.Window.{WindowBounds, bounds_at}

pub record BudgetWarden (S : Type 0) : Type 0 where
  pub store : BudgetStore S
  pub policies : PolicyRegistry
  pub reservation_ttl : Duration

pub record BudgetWardenBuilder (S : Type 0) : Type 0 where
  pub store : Option (BudgetStore S)
  pub policies : List BudgetPolicy
  pub reservation_ttl : Option Duration

abbrev pub unwrap_or : Option Duration → Duration → Duration
unwrap_or none d = d
unwrap_or (some t) d = t

-- `BudgetWardenBuilder::build`; the clock is an argument of each call instead. The default time to
-- live is five minutes.
unfoldable pub build :
    {S : Type 0} → Chrono → BudgetWardenBuilder S → Result BudgetError (BudgetWarden S)
unfolding Registry.new
build c b = do
  store ← ok_or b.store (config_error "budget store must be configured")
  let ttl = unwrap_or b.reservation_ttl (c.minutes 5)
  fail_if (leb_ℤ ttl (pos 0)) (config_error "reservation ttl must be positive")
  policies ← Registry.new b.policies
  ok (record { store = store; policies = policies; reservation_ttl = ttl })

unfoldable pub validate_request_against_policy :
    BudgetRequest → BudgetPolicy → Result BudgetError (Unit {0})
validate_request_against_policy request policy =
    ite (BudgetUnit-discrete request.unit policy.unit) (ok tt)
      (err (invalid_request "request unit does not match policy unit"))

abbrev pub store_key : BudgetPolicy → BudgetKey → StoreKey
store_key policy key = record { policy_name = policy.name; budget_key = key; unit = policy.unit }

abbrev pub snapshot : BudgetPolicy → BudgetKey → ℕ → PacingEvaluation → WindowBounds → UsageSnapshot
snapshot policy key used evaluation window = Usage.new (record {
  policy_name = policy.name;
  key = key;
  unit = policy.unit;
  used = used;
  hard_limit = policy.hard_limit;
  safe_to_spend_now = evaluation.safe_to_spend_now;
  reserved_remaining = evaluation.reserved_remaining;
  window_start = window.start;
  window_end = window.end;
  ahead_of_pace = evaluation.ahead_of_pace;
})

-- `low_budget_action().unwrap_or_else(|| exhausted_action())`
abbrev pub recommended : Option FallbackAction → FallbackAction → FallbackAction
recommended none exhausted = exhausted
recommended (some low) exhausted = low

module _ {S : Type 0} where
  abbrev pub deny : BudgetPolicy → DenialReason → UsageSnapshot → BudgetDecision S
  deny policy reason usage =
      deny_live reason usage (recommended policy.low_budget_action policy.exhausted_action)

  -- `wall` is the instant that `chrono::Utc::now()` returns, not that of the warden's clock.
  unfoldable pub no_policy_decision : Chrono → Timestamp → BudgetRequest → BudgetDecision S
  no_policy_decision c wall request =
      deny_live Decision.no_matching_policy
        (Usage.new (record {
          policy_name = "";
          key = request.key;
          unit = request.unit;
          used = 0;
          hard_limit = 0;
          safe_to_spend_now = 0;
          reserved_remaining = 0;
          window_start = wall;
          window_end = wall +ℤ c.seconds 1;
          ahead_of_pace = false;
        }))
        reject

  unfoldable pub fail_open_decision :
      Chrono → BudgetPolicy → BudgetRequest → WindowBounds → Timestamp → BudgetDecision S
  fail_open_decision c policy request window now =
      let evaluation =
        evaluate_policy c policy (used no_usage) request.amount request.priority window now in
      allow_live (preview policy.name request.key request.amount request.unit (now +ℤ c.seconds 1))
        (snapshot policy request.key 0 evaluation window)

  -- The arms of a `match` on the result of a store for its errors.
  abbrev pub on_store_error :
      Chrono
      → BudgetPolicy
      → BudgetRequest
      → WindowBounds
      → Timestamp
      → FailMode
      → StoreError
      → Result BudgetError (BudgetDecision S)
  on_store_error c policy request window now open_mode e =
      ok (fail_open_decision c policy request window now)
  on_store_error c policy request window now closed_mode e = err (from_store_error e)

module _ {S : Type 0} (c : Chrono) (w : BudgetWarden S) (now wall : Timestamp)
    (request : BudgetRequest) where
  -- What `authorize` and `reserve` begin with: the policy, the check of the unit, the window and the
  -- usage. `rest` is what follows.
  unfoldable pub with_usage :
      (BudgetPolicy → WindowBounds → CounterUsage → S → Result BudgetError (BudgetDecision S) × S)
      → S
      → Result BudgetError (BudgetDecision S) × S
  unfolding find validate_request_against_policy bounds_at
  with_usage rest s = elim (find w.policies request.key) [
    | none ↦ (ok (no_policy_decision c wall request), s)
    | some policy ↦
        elim (validate_request_against_policy request policy >> bounds_at c policy.window now) [
          | err e ↦ (err e, s)
          | panic ↦ (panic, s)
          | ok window ↦
              let (result, s') = w.store.usage (store_key policy request.key) window now s in
              elim result [
                | ok usage ↦ rest policy window usage s'
                | err e ↦ (on_store_error c policy request window now policy.fail_mode e, s')
                | panic ↦ (panic, s')
              ]
        ]
  ]

  -- `authorize`, from the evaluation on.
  unfoldable pub authorize_usage :
      BudgetPolicy → WindowBounds → CounterUsage → S → Result BudgetError (BudgetDecision S) × S
  authorize_usage policy window usage s =
      let evaluation =
        evaluate_policy c policy (used usage) request.amount request.priority window now in
      let shot = snapshot policy request.key (used usage) evaluation window in
      elim evaluation.denial_reason [
        | some reason ↦ (ok (deny policy reason shot), s)
        | none ↦ (
          ok (
              allow_live
                (preview policy.name request.key request.amount request.unit
                  (now +ℤ w.reservation_ttl))
                shot),
          s,
        )
      ]

  unfoldable pub authorize : S → Result BudgetError (BudgetDecision S) × S
  unfolding with_usage authorize_usage
  authorize = with_usage authorize_usage

  -- `reserve`, from the store's answer on.
  unfoldable pub reserve_answer :
      BudgetPolicy → WindowBounds → StoreReservationResult → Result BudgetError (BudgetDecision S)
  reserve_answer policy window result =
      let post = evaluate_policy c policy (used result.usage) 0 request.priority window now in
      let shot = snapshot policy request.key (used result.usage) post window in
      if result.is_allowed
      then (elim result.reservation [
        | none ↦ err (store_error "store allowed reservation without returning reservation data")
        | some r ↦ ok (
            allow_live
              (attached r.id policy.name request.key request.amount request.unit r.expires_at
                w.store)
              shot)
      ])
      else ok (deny policy ahead_of_budget_pace shot)

  -- The request that `reserve` makes of the store.
  abbrev pub store_request : BudgetPolicy → WindowBounds → ℕ → ReserveRequest
  store_request policy window effective_limit = record {
    key = store_key policy request.key;
    amount = request.amount;
    hard_limit = policy.hard_limit;
    effective_limit = effective_limit;
    reservation_ttl = w.reservation_ttl;
    window = window;
    idempotency_key = request.idempotency_key;
    now = now;
  }

  -- `reserve`, from the evaluation on. Between the two calls of the store other tasks may use it:
  -- `between` is what they do to its state.
  unfoldable pub reserve_usage :
      (S → S)
      → BudgetPolicy
      → WindowBounds
      → CounterUsage
      → S
      → Result BudgetError (BudgetDecision S) × S
  unfolding reserve_answer
  reserve_usage between policy window usage s =
      let evaluation =
        evaluate_policy c policy (used usage) request.amount request.priority window now in
      elim evaluation.denial_reason [
        | some reason ↦ (
          ok (deny policy reason (snapshot policy request.key (used usage) evaluation window)),
          s,
        )
        | none ↦
            let (answer, s') =
              w.store.reserve_if_allowed (store_request policy window evaluation.effective_limit)
                (between s) in
            elim answer [
              | ok result ↦ (reserve_answer policy window result, s')
              | err e ↦ (on_store_error c policy request window now policy.fail_mode e, s')
              | panic ↦ (panic, s')
            ]
      ]

  unfoldable pub reserve : (S → S) → S → Result BudgetError (BudgetDecision S) × S
  unfolding with_usage reserve_usage
  reserve between = with_usage (reserve_usage between)
