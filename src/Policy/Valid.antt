-- ===== src/Policy/Valid.antt =====
-- What `BudgetPolicyBuilder::build` of src/policy.rs guarantees of the policies that it returns.
use budget_warden.Base.{
  ℕ, ◌==◌, ltb, ◌≤◌, ◌<◌, ◌≡◌, refl, false, Option, none, some, is_blank, ok, ok_or, and_then-ok,
  fail_if-ok, ok_or-ok, ok-injective, subst, arith,
}
use budget_warden.Key.Pattern.{new_pattern}
use budget_warden.Time.{Chrono}
use budget_warden.Window
use budget_warden.Policy.{
  BudgetPolicy, BudgetPolicyBuilder, BudgetStrategy, hard_limit_only, preserve_for_window,
  reserve_capacity, exceeds, validate_strategy, build,
}

-- The bounds that a strategy keeps to under a hard limit.
abbrev pub AtMost : Option ℕ → ℕ → Type 0
AtMost none hard_limit = Unit
AtMost (some minimum) hard_limit = minimum ≤ hard_limit

abbrev pub IsSoundStrategy : BudgetStrategy → ℕ → Type 0
IsSoundStrategy hard_limit_only hard_limit = Unit
IsSoundStrategy (preserve_for_window s) hard_limit =
    (s.max_spend_ahead_percent ≤ 100)
    × (s.emergency_reserve_percent ≤ 100)
    × AtMost s.minimum_remaining_units hard_limit
IsSoundStrategy (reserve_capacity s) hard_limit =
    (0 < s.reserved_units) × (s.reserved_units ≤ hard_limit)

exceeds-AtMost :
    (o : Option ℕ) (hard_limit : ℕ) → exceeds o hard_limit ≡ false → AtMost o hard_limit
exceeds-AtMost none hard_limit h = tt
exceeds-AtMost (some m) hard_limit h = ground arith

validate_strategy-IsSound :
    (s : BudgetStrategy) (hard_limit : ℕ) {u : Unit {0}}
    → validate_strategy s hard_limit ≡ ok u
    → IsSoundStrategy s hard_limit
unfolding validate_strategy
validate_strategy-IsSound hard_limit_only hard_limit h = tt
validate_strategy-IsSound (preserve_for_window s) hard_limit h =
    let (a, k) = fail_if-ok (ltb 100 s.max_spend_ahead_percent) _ _ h in
    let (b, d) = fail_if-ok (ltb 100 s.emergency_reserve_percent) _ _ k in
    let f : exceeds s.minimum_remaining_units hard_limit ≡ false = ground (arith, d) in
    (ground (arith, a), ground (arith, b), exceeds-AtMost s.minimum_remaining_units hard_limit f)
validate_strategy-IsSound (reserve_capacity s) hard_limit h =
    let (a, k) = fail_if-ok (s.reserved_units == 0) _ _ h in (ground (arith, a), ground (arith, k))

-- A policy that is fit for use: it has a name, a limit, a window that validates and a strategy
-- within the limit.
pub record IsSound (c : Chrono) (p : BudgetPolicy) : Type 0 where
  pub named : is_blank p.name ≡ false
  pub limited : 0 < p.hard_limit
  pub windowed : Window.validate c p.window ≡ ok tt
  pub strategic : IsSoundStrategy p.strategy p.hard_limit

-- The policy has what its builder was given.
pub record IsOf (b : BudgetPolicyBuilder) (p : BudgetPolicy) : Type 0 where
  pub name : p.name ≡ b.name
  pub hard_limit : b.hard_limit ≡ some p.hard_limit
  pub window : b.window ≡ some p.window
  pub unit : p.unit ≡ b.unit
  pub strategy : p.strategy ≡ b.strategy

-- A policy that `build` returns has a name that is not blank, a hard limit above zero, a window that
-- validates, percents of at most 100 and a minimum or a reserve within the hard limit; and name,
-- hard limit, window, unit and strategy are those that the builder was given.
pub build-IsSound :
    (c : Chrono) (b : BudgetPolicyBuilder) (p : BudgetPolicy)
    → build c b ≡ ok p
    → IsSound c p × IsOf b p
unfolding build
build-IsSound c b p h =
    let (e1, h1) = fail_if-ok (is_blank b.name) _ _ h in
    let (limit, e2, h2) = and_then-ok (ok_or b.hard_limit _) _ h1 in
    let (e3, h3) = fail_if-ok (limit == 0) _ _ h2 in
    let (provider, e4, h4) = and_then-ok (ok_or b.provider _) _ h3 in
    let (key, e5, h5) = and_then-ok (new_pattern provider) _ h4 in
    let (window, e6, h6) = and_then-ok (ok_or b.window _) _ h5 in
    let (_, e7, h7) = and_then-ok (Window.validate c window) _ h6 in
    let (_, e8, h8) = and_then-ok (validate_strategy b.strategy limit) _ h7 in
    let o = ok_or-ok b.hard_limit _ e2 in
    let q = ok_or-ok b.window _ e6 in
    subst (λ x. IsSound c x × IsOf b x) (ok-injective h8)
      (
        record {
          named = e1;
          limited = ground (arith, e3);
          windowed = e7;
          strategic = validate_strategy-IsSound b.strategy limit e8;
        },
        record { name = refl; hard_limit = o; window = q; unit = refl; strategy = refl },
      )
