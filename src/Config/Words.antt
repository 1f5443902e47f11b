-- ===== src/Config/Words.antt =====
-- What the settings of src/config/model.rs guarantee of the policies, and how names are read.
use budget_warden.Base.{
  ◌≡◌, ◌≢◌, refl, ok, some, String, and_then-ok, ok-injective, subst, sym, ◌∙◌, some_injective,
}
use budget_warden.BudgetUnit.{BudgetUnit, as_str}
use budget_warden.Config.{
  ConfigPolicy, parse_unit, parse_strategy, parse_action, parse_fail_mode, parse_low_action,
  to_policy, builder_of, window_of,
}
use budget_warden.Config.Names.{normalized}
use budget_warden.Policy.{BudgetPolicy, BudgetPolicyBuilder, build}
use budget_warden.Policy.Valid.{IsSound, build-IsSound}
use budget_warden.Time.{Chrono}

-- What the builder takes over from the settings.
builder_of-keeps :
    (config : ConfigPolicy) (b : BudgetPolicyBuilder)
    → builder_of config ≡ ok b
    → (b.name ≡ config.name)
      × (b.hard_limit ≡ some config.hard_limit)
      × (b.window ≡ some (window_of config.window))
unfolding builder_of
builder_of-keeps config b h =
    let (unit, e1, h1) = and_then-ok (parse_unit config.unit) _ h in
    let (strategy, e2, h2) = and_then-ok (parse_strategy config.strategy) _ h1 in
    let (action, e3, h3) = and_then-ok (parse_action config.exhausted_action) _ h2 in
    let (mode, e4, h4) = and_then-ok (parse_fail_mode config.fail_mode) _ h3 in
    let (low, e5, h5) = and_then-ok (parse_low_action config.low_budget_action) _ h4 in
    subst
      (λ x.
        (x.name ≡ config.name)
        × (x.hard_limit ≡ some config.hard_limit)
        × (x.window ≡ some (window_of config.window)))
      (ok-injective h5) (refl, refl, refl)

-- A policy that the settings yield is sound, and it has the name, the hard limit and the window
-- that the settings give.
pub to_policy-IsSound :
    (c : Chrono) (config : ConfigPolicy) (p : BudgetPolicy)
    → to_policy c config ≡ ok p
    → IsSound c p
      × (p.name ≡ config.name)
      × (p.hard_limit ≡ config.hard_limit)
      × (p.window ≡ window_of config.window)
unfolding to_policy
to_policy-IsSound c config p h =
    let (filled, e, h1) = and_then-ok (builder_of config) (build c) h in
    let (s, o) = build-IsSound c filled p h1 in
    let (name, limit, window) = builder_of-keeps config filled e in
    (
      s,
      o.name ∙ name,
      some_injective (sym o.hard_limit ∙ limit),
      some_injective (sym o.window ∙ window),
    )

-- The names of units are read back: the name of each unit that is not custom stands for that unit.
pub parse_unit-as_str :
    (u : BudgetUnit) → ((name : String) → u ≢ BudgetUnit.custom name) → parse_unit (as_str u) ≡ ok u
unfolding parse_unit as_str normalized
parse_unit-as_str BudgetUnit.requests h = refl
parse_unit-as_str BudgetUnit.tokens h = refl
parse_unit-as_str BudgetUnit.credits h = refl
parse_unit-as_str BudgetUnit.cents h = refl
parse_unit-as_str BudgetUnit.bytes h = refl
parse_unit-as_str BudgetUnit.messages h = refl
parse_unit-as_str (BudgetUnit.custom name) h = absurd (h name refl)
