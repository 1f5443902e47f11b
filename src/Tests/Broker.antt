-- ===== src/Tests/Broker.antt =====
-- Runs of src/broker.rs over a store in memory.
use budget_warden.Base.{
  u64_max, sym, subst, ◌∙◌, some_injective, ◌≤◌, ◌<◌, ◌≡◌, refl, some, err, arith, pos, ◌+ℤ◌, ◌-ℤ◌,
}
use budget_warden.Error.{reservation_not_found}
use budget_warden.Broker.{authorize, reserve, store_key}
use budget_warden.Broker.Agreement.{IsAllowance, IsReady, authorize-reserve}
use budget_warden.Broker.Backing.{IsGranted, reserve-closed, authorize-preview}
use budget_warden.Broker.Safety.{memory_warden, reserve-Safe}
use budget_warden.Policy.{BudgetPolicy}
use budget_warden.Registry.{find}
use budget_warden.Reservation.{commit, refund}
use budget_warden.Store.Memory.{CounterKey, counter_key}
use budget_warden.Store.Memory.History.{IsWithin}
use budget_warden.Store.Memory.Locked.{memory_store, new}
use budget_warden.Store.Memory.Valid.{empty-IsValid}
use budget_warden.Base.Map.{get}
use budget_warden.BudgetUnit.{BudgetUnit-discrete}
use budget_warden.Pacing.{evaluate_policy}
use budget_warden.Store.Memory.{counter_at}
use budget_warden.Store.Memory.Finish.{usage_locked}
use budget_warden.Store.Memory.Reserve.{reserve_locked}
use budget_warden.Store.Memory.Locked.{locked, reserve_if_allowed}
use budget_warden.Store.Memory.Tasks.{Call, step, reserve-IsWithin}
use budget_warden.Time.{Duration}
use budget_warden.Tests.Data.{
  utc, registry, plain_policy, asking, noon, first_minute, search_store_key, search_key, reserving,
}

ready : IsReady new (asking 4) (pos 5_000_000_000)
ready = record {
  healthy = refl;
  valid = empty-IsValid;
  more = omega arith;
  amount_pos = omega arith;
  lasting = omega arith;
  plain = refl;
}

found : find registry search_key ≡ some plain_policy
unfolding find
found = refl

abbrev ttl : Duration
ttl = pos 5_000_000_000

abbrev searches : CounterKey
searches = counter_key search_store_key first_minute

allowed_four : IsAllowance (authorize utc (memory_warden registry ttl) noon noon (asking 4) new)
unfolding authorize BudgetUnit-discrete ◌+ℤ◌ ◌-ℤ◌ locked usage_locked evaluate_policy counter_at get
allowed_four = (_, _, refl)

reserved_four :
    IsAllowance (reserve utc (memory_warden registry ttl) noon noon (asking 4) (λ m. m) new)
unfolding reserve BudgetUnit-discrete ◌+ℤ◌ ◌-ℤ◌ locked usage_locked evaluate_policy counter_at get
    reserve_if_allowed reserve_locked
reserved_four = (_, _, refl)

authorize-reserve_example :
    IsAllowance (reserve utc (memory_warden registry ttl) noon noon (asking 4) (λ m. m) new)
authorize-reserve_example =
    authorize-reserve utc registry ttl noon noon (asking 4) new ready allowed_four

reserve-closed_example :
    (reserved_four.0.store ≡ some memory_store)
    × IsGranted utc (memory_warden registry ttl) noon noon (asking 4) (λ m. m) new reserved_four.0
unfolding find
reserve-closed_example =
    reserve-closed utc (memory_warden registry ttl) noon noon (asking 4) (λ m. m) new
      reserved_four.0 reserved_four.1 (λ policy e. cc (sym found ∙ e)) reserved_four.2

authorize-preview_example :
    (commit allowed_four.0 noon new ≡ (err reservation_not_found, new))
    × (refund allowed_four.0 noon new ≡ (err reservation_not_found, new))
authorize-preview_example =
    authorize-preview utc (memory_warden registry ttl) noon noon (asking 4) new allowed_four.0
      allowed_four.1 noon new allowed_four.2

limits :
    (policy : BudgetPolicy)
    → find registry search_key ≡ some policy
    → (policy.hard_limit < u64_max)
      × (searches.store_key ≡ store_key policy search_key → policy.hard_limit ≤ 10)
limits policy e = subst Limited (some_injective (sym found ∙ e)) (omega arith, λ h. omega arith)
  where
    Limited : BudgetPolicy → Type 0
    Limited p =
        (p.hard_limit < u64_max) × (searches.store_key ≡ store_key p search_key → p.hard_limit ≤ 10)

reserve-Safe_example :
    IsWithin searches 10
      (reserve utc
        (memory_warden registry ttl)
        noon
        noon
        (asking 4)
        (step (Call.reserve (reserving 6)))
        new).1.state
reserve-Safe_example =
    reserve-Safe utc registry ttl noon noon (asking 4) searches 10
      (step (Call.reserve (reserving 6))) new limits
      (λ t.
        reserve-IsWithin searches 10 (reserving 6) t
          (record { small = omega arith; within = λ e. omega arith }))
      (record { valid = empty-IsValid; below = omega arith })
