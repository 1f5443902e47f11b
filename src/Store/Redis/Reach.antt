-- ===== src/Store/Redis/Reach.antt =====
-- The states that the scripts of src/store/redis_store.rs make of an empty server, whichever clients
-- run them and in whichever order, and the calls of the store among them.
use budget_warden.Base.{ℕ, ◌<◌, ◌≡◌, ◌≢◌, refl, arith, ℤ, leb_ℤ, String, false, true}
use budget_warden.Store.Memory.{ReservationStatus, active}
use budget_warden.Store.Redis.{Lua, Redis, fresh, evict}
use budget_warden.Store.Redis.Exact.{IsDouble, exact_max}
use budget_warden.Store.Redis.Finishing.{finish_script-IsTracked}
use budget_warden.Store.Redis.Entering.{Keeps}
use budget_warden.Store.Redis.Granting.{reserve_script-IsTracked}
use budget_warden.Store.Redis.Scripts.{ReserveCall, reserve_script}
use budget_warden.Store.Redis.Ends.{cleanup_script, finish_script}
use budget_warden.Store.Redis.Settling.{cleanup_script-IsTracked}
use budget_warden.Store.Redis.Tracked.{IsTracked, evict-IsTracked}

-- Keys are removed, and requests made, before an instant of the server, and every request for the
-- counter keeps to a ceiling and is retained until the instant.
pub data Reach (lua : Lua) (k : String) (until : ℤ) (ceiling : ℕ) : Redis → Type 0 where
  starts : Reach lua k until ceiling fresh
  removes :
      (at : ℤ) (r : Redis)
      → leb_ℤ until at ≡ false
      → Reach lua k until ceiling r
      → Reach lua k until ceiling (evict at r)
  reserves :
      (c : ReserveCall) (at : ℤ) (r : Redis)
      → leb_ℤ until at ≡ false
      → Keeps k until ceiling c
      → Reach lua k until ceiling r
      → Reach lua k until ceiling (reserve_script lua c at r).1
  cleans :
      (now : ℤ) (r : Redis)
      → Reach lua k until ceiling r
      → Reach lua k until ceiling (cleanup_script lua now r).1
  finishes :
      (target : ReservationStatus) (id : ℕ) (now : ℤ) (r : Redis)
      → target ≢ active
      → Reach lua k until ceiling r
      → Reach lua k until ceiling (finish_script lua target id now r).1

pub earlier : (at until : ℤ) → leb_ℤ until at ≡ false → leb_ℤ at until ≡ true
earlier at until h = ground arith

module _ (lua : Lua) (double : IsDouble lua) (k : String) (until : ℤ) (ceiling : ℕ)
    (small : ceiling < exact_max) where
  fresh-IsTracked : IsTracked k until ceiling fresh
  fresh-IsTracked = record {
    unused = λ id above. refl;
    rows_stay = λ id row found. cc found;
    counter_stays = refl;
    reserved_is = refl;
    committed_is = refl;
    below = omega arith;
  }

  -- Whichever clients run the scripts, in whichever order, and with keys removed in between once
  -- their deadlines have passed: up to an instant of the server, the two fields of a counter are
  -- the sums of the reservations that the server has for it, and what is committed or reserved does
  -- not exceed a ceiling below 2^53. All requests for the counter keep to the ceiling and are
  -- retained until the instant, and the numbers of the scripts are doubles.
  pub Reach-IsTracked : (r : Redis) → Reach lua k until ceiling r → IsTracked k until ceiling r
  Reach-IsTracked _ starts = fresh-IsTracked
  Reach-IsTracked _ (removes at r before h) =
      evict-IsTracked k until ceiling r (Reach-IsTracked r h) at (earlier at until before)
  Reach-IsTracked _ (reserves c at r before keeps h) =
      reserve_script-IsTracked lua double k until ceiling small c at before keeps r
        (Reach-IsTracked r h)
  Reach-IsTracked _ (cleans now r h) =
      cleanup_script-IsTracked lua double k until ceiling small now r (Reach-IsTracked r h)
  Reach-IsTracked _ (finishes target id now r ends h) =
      finish_script-IsTracked lua double k until ceiling small target id now r ends
        (Reach-IsTracked r h)
