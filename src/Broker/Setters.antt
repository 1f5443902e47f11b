-- ===== src/Broker/Setters.antt =====
-- The setters of `BudgetWardenBuilder` in src/broker.rs. The clock is an argument of the calls, not a
-- field.
use budget_warden.Base.{some, ◌++◌, [], ◌∷◌}
use budget_warden.Broker.{BudgetWardenBuilder}
use budget_warden.Policy.{BudgetPolicy}
use budget_warden.Store.{BudgetStore}
use budget_warden.Time.{Duration}

module _ {S : Type 0} where
  abbrev pub set_store : BudgetStore S → BudgetWardenBuilder S → BudgetWardenBuilder S
  set_store value b = record b { store = some value }

  abbrev pub push_policy : BudgetPolicy → BudgetWardenBuilder S → BudgetWardenBuilder S
  push_policy policy b = record b { policies = b.policies ++ (policy ∷ []) }

  abbrev pub set_reservation_ttl : Duration → BudgetWardenBuilder S → BudgetWardenBuilder S
  set_reservation_ttl ttl b = record b { reservation_ttl = some ttl }
