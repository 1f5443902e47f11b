-- ===== src/Store/Redis/History.antt =====
-- Histories of the store of src/store/redis_store.rs: its calls, over connections that fail and among
-- the scripts of other clients.
use budget_warden.Base.{ℕ, ◌<◌, ◌≡◌, ℤ, leb_ℤ, String, List, [], ◌∷◌, false}
use budget_warden.Store.Memory.{committed, refunded}
use budget_warden.Store.Memory.Tasks
use budget_warden.Store.Redis.{Lua, fresh}
use budget_warden.Store.Redis.Calls.{redis_store}
use budget_warden.Store.Redis.Requests.{Turn, Link}
use budget_warden.Store.Redis.Exact.{IsDouble, exact_max}
use budget_warden.Store.Redis.Reach.{starts, Reach-IsTracked}
use budget_warden.Store.Redis.Tracked.{IsTracked}
use budget_warden.Time.{Chrono}
use budget_warden.Store.Redis.Preserving.{
  AreOrderly, IsLive, KeepsRequest, reserve-Preserves, finish-Preserves, usage-Preserves,
}

-- A call of a task, and the turns of its requests.
pub record Attempt : Type 0 where
  pub call : Tasks.Call
  pub turns : List Turn

module _ (chrono : Chrono) (lua : Lua) where
  -- What a call leaves, and what a sequence of them does. Each has its own connection.
  abbrev pub step : Tasks.Call → Link → Link
  step (Tasks.Call.reserve request) l = ((redis_store chrono lua).reserve_if_allowed request l).1
  step (Tasks.Call.commit id now) l = ((redis_store chrono lua).commit id now l).1
  step (Tasks.Call.refund id now) l = ((redis_store chrono lua).refund id now l).1
  step (Tasks.Call.usage key window now) l = ((redis_store chrono lua).usage key window now l).1

  unfoldable pub attempt_all : List Attempt → Link → Link
  attempt_all [] l = l
  attempt_all (a ∷ attempts) l = attempt_all attempts (step a.call (record l { turns = a.turns }))

module _ (lua : Lua) (k : String) (until : ℤ) (ceiling : ℕ) where
  module _ (chrono : Chrono) where
    -- Every request among the calls keeps to the ceiling, and all turns are orderly.
    abbrev pub CallKeeps : Tasks.Call → Type 0
    CallKeeps (Tasks.Call.reserve request) = KeepsRequest lua k until ceiling chrono request
    CallKeeps _ = Unit

    abbrev pub AllKeep : List Attempt → Type 0
    AllKeep [] = Unit
    AllKeep (a ∷ attempts) =
        CallKeeps a.call × AreOrderly lua k until ceiling a.turns × AllKeep attempts

    step-IsLive :
        (call : Tasks.Call) (l : Link)
        → CallKeeps call
        → IsLive lua k until ceiling l
        → IsLive lua k until ceiling (step chrono lua call l)
    step-IsLive (Tasks.Call.reserve request) l keeps live =
        reserve-Preserves lua k until ceiling chrono request keeps l live
    step-IsLive (Tasks.Call.commit id now) l keeps live =
        finish-Preserves lua k until ceiling chrono committed id now (λ e. cc e) l live
    step-IsLive (Tasks.Call.refund id now) l keeps live =
        finish-Preserves lua k until ceiling chrono refunded id now (λ e. cc e) l live
    step-IsLive (Tasks.Call.usage key window now) l keeps live =
        usage-Preserves lua k until ceiling chrono key window now l live

    run-IsLive :
        (attempts : List Attempt) (l : Link)
        → AllKeep attempts
        → IsLive lua k until ceiling l
        → IsLive lua k until ceiling (attempt_all chrono lua attempts l)
    unfolding attempt_all
    run-IsLive [] l keeps live = live
    run-IsLive (a ∷ attempts) l keeps live = run-IsLive attempts _ keeps.2 (
        step-IsLive a.call (record l { turns = a.turns }) keeps.0
          (record { reached = live.reached; now_early = live.now_early; orderly = keeps.1 }))

    -- After any sequence of calls from an empty server, whichever requests fail or lose their answers
    -- and whatever other clients' scripts do in between, before an instant of the server: the fields
    -- of a counter are the sums of its reservations, and within a ceiling below 2^53, if the requests
    -- for the counter keep to it and are retained until the instant, and the numbers of the scripts are
    -- doubles.
    pub attempt_all-IsTracked :
        IsDouble lua
        → ceiling < exact_max
        → (attempts : List Attempt) (at : ℤ) → leb_ℤ until at ≡ false
        → AllKeep attempts
        → IsTracked k until ceiling
            (attempt_all chrono lua attempts
              (record { server = fresh; at = at; turns = [] })).server
    attempt_all-IsTracked double small attempts at early keeps =
        Reach-IsTracked lua double k until ceiling small _
          (run-IsLive attempts _ keeps
            (record { reached = starts; now_early = early; orderly = tt })).reached
