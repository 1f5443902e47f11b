-- ===== src/Decision.antt =====
-- src/decision.rs: why live access is denied, and what to do then. `BudgetDecision` itself holds a
-- reservation and stands in Reservation.
use budget_warden.Base.{String}

pub data FallbackAction : Type 0 where
  use_fresh_cache use_stale_cache queue_for_later use_cheaper_provider : FallbackAction
  downgrade_quality reject return_unavailable : FallbackAction
  custom : String → FallbackAction

pub data DenialReason : Type 0 where
  hard_limit_reached ahead_of_budget_pace reserved_for_higher_priority : DenialReason
  minimum_remaining_would_be_violated no_matching_policy store_unavailable : DenialReason
  invalid_request : DenialReason
