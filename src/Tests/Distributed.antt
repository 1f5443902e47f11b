-- ===== src/Tests/Distributed.antt =====
-- Runs of src/broker.rs over the store of src/store/redis_store.rs.
use budget_warden.Base.{
  ◌≤◌, ◌≡◌, ◌+ℤ◌, ◌-ℤ◌, true, sym, subst, ◌∙◌, some_injective, ok-injective, refl, ap, pos, leb_ℤ,
  some, ok, arith,
}
use budget_warden.Store.Redis.{millis}
use budget_warden.Store.Redis.Tracked.{IsTracked}
use budget_warden.Store.Redis.Retrying.{lossy}
use budget_warden.Broker
use budget_warden.Policy.{BudgetPolicy}
use budget_warden.Registry.{find}
use budget_warden.Window.{WindowBounds, bounds_at}
use budget_warden.Broker.Distributed.{redis_warden, IsLimited, reserve-IsTracked}
use budget_warden.Tests.Data.{plain_policy, search_key, utc, first_minute, noon, registry, asking}
use budget_warden.Tests.Server.{
  rounding, rounding-IsDouble, searches, half_past, minute_end, calm_turn-IsOrderly,
  lost_turn-IsOrderly, six, six-Reach,
}

-- The warden's policy, and what it says of the counter.
the_policy :
    (policy : BudgetPolicy) → find registry search_key ≡ some policy → plain_policy ≡ policy
unfolding find
the_policy policy e =
    let plain : find registry search_key ≡ some plain_policy = refl in
    some_injective (sym plain ∙ e)

the_window :
    (policy : BudgetPolicy) (window : WindowBounds)
    → plain_policy ≡ policy
    → bounds_at utc policy.window noon ≡ ok window
    → first_minute ≡ window
unfolding bounds_at ◌+ℤ◌ ◌-ℤ◌
the_window policy window p e =
    let first : bounds_at utc plain_policy.window noon ≡ ok first_minute = refl in
    ok-injective (sym first ∙ ap (λ x. bounds_at utc x.window noon) p ∙ e)

limits : IsLimited utc rounding registry (pos 5_000_000_000) (asking 4) noon searches minute_end 10
unfolding ◌+ℤ◌
limits = record {
  within = λ policy window found e own.
      subst (λ p. p.hard_limit ≤ 10) (the_policy policy found) (omega arith);
  retained = λ policy window found e own.
      subst (λ x. leb_ℤ minute_end (millis (utc.timestamp (x.end +ℤ pos 5_000_000_000))) ≡ true)
        (the_window policy window (the_policy policy found) e) refl;
}

reserve-IsTracked_example :
    IsTracked searches minute_end 10
      (Broker.reserve utc
        (redis_warden utc rounding registry (pos 5_000_000_000))
        noon
        noon
        (asking 4)
        (λ l. l)
        (lossy six half_past "connection reset")).1.server
reserve-IsTracked_example =
    reserve-IsTracked utc rounding registry (pos 5_000_000_000) noon noon (asking 4) searches
      minute_end 10 limits rounding-IsDouble (omega arith) (λ l. l)
      (lossy six half_past "connection reset") (λ l h. h)
      (record {
        reached = six-Reach;
        now_early = refl;
        orderly = (calm_turn-IsOrderly, (calm_turn-IsOrderly, (lost_turn-IsOrderly, tt)));
      })
