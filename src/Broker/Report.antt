-- ===== src/Broker/Report.antt =====
-- src/broker.rs and src/report/mod.rs: the calls of the warden that only look.
use budget_warden.Base.{none, some, List, [], ◌∷◌, Result, ok, err, panic}
use budget_warden.Error.{BudgetError, no_matching_policy, from_store_error}
use budget_warden.Key.{BudgetKey}
use budget_warden.Key.Pattern.{report_key}
use budget_warden.Policy.{BudgetPolicy}
use budget_warden.Pacing.{evaluate_policy}
use budget_warden.Priority.{normal}
use budget_warden.Registry.{find}
use budget_warden.Store.{used}
use budget_warden.Time.{Timestamp, Chrono}
use budget_warden.Usage.{UsageSnapshot}
use budget_warden.Window.{bounds_at}
use budget_warden.Broker.{BudgetWarden, store_key, snapshot}

pub record BudgetReport : Type 0 where
  pub generated_at : Timestamp
  pub budgets : List UsageSnapshot

module _ {S : Type 0} (c : Chrono) (w : BudgetWarden S) (now : Timestamp) where
  -- The snapshot of one policy at a key: the body of `usage` and of the loop of `report`.
  unfoldable pub usage_under : BudgetPolicy → BudgetKey → S → Result BudgetError UsageSnapshot × S
  unfolding bounds_at
  usage_under policy key s = elim (bounds_at c policy.window now) [
    | err e ↦ (err e, s)
    | panic ↦ (panic, s)
    | ok window ↦
        let (result, s') = w.store.usage (store_key policy key) window now s in
        elim result [
          | err e ↦ (err (from_store_error e), s')
          | panic ↦ (panic, s')
          | ok usage ↦
              let evaluation = evaluate_policy c policy (used usage) 0 normal window now in
              (ok (snapshot policy key (used usage) evaluation window), s')
        ]
  ]

  -- `BudgetWarden::usage`
  unfoldable pub usage : BudgetKey → S → Result BudgetError UsageSnapshot × S
  unfolding find usage_under
  usage key s = elim (find w.policies key) [
    | none ↦ (err no_matching_policy, s)
    | some policy ↦ usage_under policy key s
  ]

  unfoldable pub report_policies :
      List BudgetPolicy → S → Result BudgetError (List UsageSnapshot) × S
  unfolding usage_under report_key
  report_policies [] s = (ok [], s)
  report_policies (p ∷ ps) s =
      let (result, s') = usage_under p (report_key p.key) s in
      let (rest, s'') = report_policies ps s' in
      elim result [
        | err e ↦ (err e, s')
        | panic ↦ (panic, s')
        | ok shot ↦ elim rest [
          | err e ↦ (err e, s'')
          | panic ↦ (panic, s'')
          | ok shots ↦ (ok (shot ∷ shots), s'')
        ]
      ]

  unfoldable pub report : S → Result BudgetError BudgetReport × S
  unfolding report_policies
  report s =
      let (result, s') = report_policies w.policies.policies s in
      elim result [
        | err e ↦ (err e, s')
        | panic ↦ (panic, s')
        | ok shots ↦ (ok (record { generated_at = now; budgets = shots }), s')
      ]
