-- ===== src/Broker/Embedded.antt =====
-- `reserve` of src/broker.rs over the store of src/store/sqlite.rs, whose requests may fail.
use budget_warden.Base.{ℕ, ◌≤◌, ◌≡◌, some, ap}
use budget_warden.Broker.{BudgetWarden, reserve, reserve_usage, store_key, store_request}
use budget_warden.Broker.Safety.{with_usage_rule, reserve_usage_rule}
use budget_warden.Registry.{PolicyRegistry, find}
use budget_warden.Request.{BudgetRequest}
use budget_warden.Store.Codec.{key}
use budget_warden.Store.Memory.{CounterKey}
use budget_warden.Store.Sql.{Engine, Connection}
use budget_warden.Store.Sqlite.{row_key}
use budget_warden.Store.Sqlite.Finish.{sqlite_store}
use budget_warden.Store.Sqlite.History.{reserve-AreWithin, look-AreWithin}
use budget_warden.Store.Sqlite.Keeping.{AreWithin, OthersKeep}
use budget_warden.Policy.{BudgetPolicy}
use budget_warden.Time.{Chrono, Timestamp, Duration}

abbrev pub sqlite_warden : Engine → PolicyRegistry → Duration → BudgetWarden Connection
sqlite_warden e policies ttl = record {
  store = sqlite_store e;
  policies = policies;
  reservation_ttl = ttl;
}

-- A call of `reserve` by a warden over the SQLite store keeps the committed rows valid and within a
-- ceiling on a counter, whichever requests to the database fail, and whatever others commit in
-- between that keeps them, if the hard limit of the policy found is within the ceiling where the
-- counter has the name of the policy's key.
pub reserve-Keeps :
    (c : Chrono) (e : Engine) (policies : PolicyRegistry) (ttl : Duration) (now wall : Timestamp)
    (request : BudgetRequest) (k : CounterKey) (ceiling : ℕ) (between : Connection → Connection)
    (m : Connection)
    → ((policy : BudgetPolicy)
        → find policies request.key ≡ some policy
        → key (store_key policy request.key) ≡ k.store_key.policy_name
        → policy.hard_limit ≤ ceiling)
    → OthersKeep k ceiling e
    → ((t : Connection) → AreWithin k ceiling t.durable → AreWithin k ceiling (between t).durable)
    → AreWithin k ceiling m.durable
    → AreWithin k ceiling
        (reserve c (sqlite_warden e policies ttl) now wall request between m).1.durable
unfolding reserve row_key
reserve-Keeps c e policies ttl now wall request k ceiling between m limits alone others h =
    let w = sqlite_warden e policies ttl in
    let Q : Connection → Type 0 = λ t. AreWithin k ceiling t.durable in
    with_usage_rule c w now wall request Q (reserve_usage c w now wall request between) m h
      (λ policy window. look-AreWithin k ceiling e alone _ _ now m h)
      λ policy window u t f b g.
        reserve_usage_rule c w now wall request Q between policy window u t g (others t g)
          λ limit le.
            reserve-AreWithin k ceiling e alone
              (store_request c w now wall request policy window limit) (between t)
              (λ same. limits policy f (ap (λ j. j.store_key.policy_name) same)) (others t g)
