-- ===== src/Broker/Distributed.antt =====
-- `reserve` of src/broker.rs over the store of src/store/redis_store.rs, whose requests may fail and whose
-- server other processes use as well.
use budget_warden.Base.{ℕ, ◌≤◌, ◌<◌, ◌≡◌, ℤ, leb_ℤ, ◌+ℤ◌, String, some, ok, true, arith}
use budget_warden.Broker.{BudgetWarden, reserve, reserve_usage, store_key, store_request}
use budget_warden.Broker.Safety.{with_usage_rule, reserve_usage_rule}
use budget_warden.Policy.{BudgetPolicy}
use budget_warden.Registry.{PolicyRegistry, find}
use budget_warden.Request.{BudgetRequest}
use budget_warden.Store.Redis.{Lua, millis}
use budget_warden.Store.Redis.Calls.{redis_store, redis_counter_key}
use budget_warden.Store.Redis.Requests.{Link}
use budget_warden.Store.Redis.Exact.{IsDouble, exact_max}
use budget_warden.Store.Redis.Preserving.{IsLive, reserve-Preserves, usage-Preserves}
use budget_warden.Store.Redis.Reach.{Reach-IsTracked}
use budget_warden.Store.Redis.Tracked.{IsTracked}
use budget_warden.Time.{Chrono, Timestamp, Duration}
use budget_warden.Window.{WindowBounds, bounds_at}

abbrev pub redis_warden : Chrono → Lua → PolicyRegistry → Duration → BudgetWarden Link
redis_warden c lua policies ttl = record {
  store = redis_store c lua;
  policies = policies;
  reservation_ttl = ttl;
}

-- What the policies say of a counter: where the one found for the request, and its window at the instant
-- of the call, name the counter, the hard limit is within the ceiling and the window retained.
pub record IsLimited (c : Chrono) (lua : Lua) (policies : PolicyRegistry) (ttl : Duration)
    (request : BudgetRequest) (now : Timestamp) (k : String) (until : ℤ) (ceiling : ℕ)
    : Type 0 where
  pub within :
      (policy : BudgetPolicy) (window : WindowBounds)
      → find policies request.key ≡ some policy
      → bounds_at c policy.window now ≡ ok window
      → redis_counter_key c lua (store_key policy request.key) window ≡ k
      → policy.hard_limit ≤ ceiling
  pub retained :
      (policy : BudgetPolicy) (window : WindowBounds)
      → find policies request.key ≡ some policy
      → bounds_at c policy.window now ≡ ok window
      → redis_counter_key c lua (store_key policy request.key) window ≡ k
      → leb_ℤ until (millis (c.timestamp (window.end +ℤ ttl))) ≡ true

module _ (c : Chrono) (lua : Lua) (policies : PolicyRegistry) (ttl : Duration)
    (now wall : Timestamp) (request : BudgetRequest) (k : String) (until : ℤ) (ceiling : ℕ)
    (limits : IsLimited c lua policies ttl request now k until ceiling) where
  reserve-IsLive :
      (between : Link → Link) (m : Link)
      → ((l : Link) → IsLive lua k until ceiling l → IsLive lua k until ceiling (between l))
      → IsLive lua k until ceiling m
      → IsLive lua k until ceiling
          (reserve c (redis_warden c lua policies ttl) now wall request between m).1
  unfolding reserve
  reserve-IsLive between m others h =
      let w = redis_warden c lua policies ttl in
      let Q : Link → Type 0 = λ l. IsLive lua k until ceiling l in
      with_usage_rule c w now wall request Q (reserve_usage c w now wall request between) m h
        (λ policy window. usage-Preserves lua k until ceiling c _ _ now m h)
        λ policy window u t f b g.
          reserve_usage_rule c w now wall request Q between policy window u t g (others t g)
            λ limit le.
              reserve-Preserves lua k until ceiling c
                (store_request c w now wall request policy window limit)
                (record {
                  within = λ own. omega (arith, le, limits.within policy window f b own);
                  retained = limits.retained policy window f b;
                })
                (between t) (others t g)

  -- A call of `reserve` by a warden over the Redis store keeps a counter accurate and within a ceiling
  -- below 2^53, up to an instant of the server: its two fields stay the sums of its reservations. This
  -- holds whichever requests fail or lose their answers, and whatever other clients' scripts do in
  -- between, if the hard limit of the policy found is within the ceiling, and its window retained until
  -- the instant, where its counter is that one, and the numbers of the scripts are doubles.
  pub reserve-IsTracked :
      IsDouble lua
      → ceiling < exact_max
      → (between : Link → Link) (m : Link)
      → ((l : Link) → IsLive lua k until ceiling l → IsLive lua k until ceiling (between l))
      → IsLive lua k until ceiling m
      → IsTracked k until ceiling
          (reserve c (redis_warden c lua policies ttl) now wall request between m).1.server
  reserve-IsTracked double small between m others h =
      Reach-IsTracked lua double k until ceiling small _ (reserve-IsLive between m others h).reached
