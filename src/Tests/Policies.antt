-- ===== src/Tests/Policies.antt =====
-- Runs of src/policy.rs, src/key.rs, src/window.rs and of the registry of src/broker.rs.
use budget_warden.Base.{
  is_blank, ◌≡◌, ◌⊎◌, refl, none, some, ok, panic, arith, pos, ◌+ℤ◌, ◌-ℤ◌, ◌≤ℤ◌,
}
use budget_warden.Policy.{BudgetPolicy, BudgetPolicyBuilder, builder, build}
use budget_warden.Policy.Valid.{IsSound, IsOf, build-IsSound}
use budget_warden.Registry.{find}
use budget_warden.Registry.Best.{NoneMatch, IsBest, find-IsBest}
use budget_warden.Window.{fixed, rolling, fixed_bounds, bounds_at, validate}
use budget_warden.Window.Stable.{fixed_bounds_stable}
use budget_warden.Window.Bounds.{fixed_bounds-contains, sub_second-panics}
use budget_warden.Tests.Data.{
  utc, utc-CountsSeconds, plain_policy, registry, search_key, noon, minute, first_minute,
}

abbrev searches : BudgetPolicyBuilder
searches = record (builder "searches") {
  provider = some "acme";
  domain = some "web";
  resource = some "search";
  subject = some "global";
  hard_limit = some 10;
  window = some (fixed minute);
}

build-IsSound_example : IsSound utc plain_policy × IsOf searches plain_policy
unfolding build is_blank
build-IsSound_example = build-IsSound utc searches plain_policy refl

find-IsBest_example :
    ((find registry search_key ≡ none) × NoneMatch search_key registry.policies)
    ⊎ ((p : BudgetPolicy) × (find registry search_key ≡ some p)
        × IsBest search_key registry.policies p)
find-IsBest_example = find-IsBest registry search_key

fixed_bounds-contains_example :
    (pos 0 ≤ℤ noon) × (noon +ℤ pos 1 ≤ℤ minute) × (minute ≡ pos 0 +ℤ minute)
unfolding fixed_bounds ◌-ℤ◌ ◌+ℤ◌
fixed_bounds-contains_example =
    fixed_bounds-contains utc minute noon first_minute utc-CountsSeconds refl

sub_second-panics_example :
    (validate utc (fixed (pos 500_000_000)) ≡ ok tt)
    × (bounds_at utc (fixed (pos 500_000_000)) noon ≡ panic)
    × (validate utc (rolling (pos 500_000_000)) ≡ ok tt)
    × (bounds_at utc (rolling (pos 500_000_000)) noon ≡ panic)
sub_second-panics_example = sub_second-panics utc (pos 500_000_000) noon (omega arith) refl

fixed_bounds_stable_example : fixed_bounds utc minute (pos 59_999_999_999) ≡ ok first_minute
unfolding fixed_bounds ◌-ℤ◌ ◌+ℤ◌
fixed_bounds_stable_example =
    fixed_bounds_stable utc minute noon (pos 59_999_999_999) first_minute utc-CountsSeconds refl
      refl (omega arith) (omega arith)
