-- ===== src/Tests/Server.antt =====
-- What the runs of src/store/redis_store.rs share: a server, and turns of others.
use budget_warden.Base.{ℕ, ◌*◌, ◌/◌, ◌+ℤ◌, refl, ℤ, pos, leb, arith, String, if◌then◌else◌}
use budget_warden.Store.Redis.{digits, exponent, Lua, Redis, fresh}
use budget_warden.Store.Redis.Calls.{redis_counter_key, reserve_call}
use budget_warden.Store.Redis.Requests.{Turn}
use budget_warden.Store.Redis.Exact.{IsDouble, exact_max}
use budget_warden.Store.Redis.Preserving.{KeepsRequest, IsOrderly}
use budget_warden.Store.Redis.Reach.{Reach, starts, reserves}
use budget_warden.Store.Redis.Scripts.{ReserveCall, reserve_script}
use budget_warden.Store.Sql.{works, lost}
use budget_warden.Time.{Timestamp}
use budget_warden.Tests.Data.{utc, reserving, search_store_key, first_minute}

-- Numbers that are even past 2^53, and are written with an exponent there.
abbrev pub rounding : Lua
rounding = record {
  number = λ n. if leb n exact_max then n else n / 2 * 2;
  text = λ n. if leb n exact_max then digits n else exponent n;
  reply = λ n. pos n;
  overflow_error = "ERR increment or decrement would overflow";
  integer_error = "ERR value is not an integer or out of range";
}

pub rounding-IsDouble : IsDouble rounding
rounding-IsDouble = record {
  exact = λ n le. ground arith;
  monotone = λ n m le. ground arith;
  written = λ n le. ground arith;
  answered = λ n le. refl;
}

abbrev pub searches : String
searches = redis_counter_key utc rounding search_store_key first_minute

-- The server's clock, in milliseconds: half a minute and a minute.
abbrev pub half_past : ℤ
half_past = pos 30_000

abbrev pub minute_end : ℤ
minute_end = pos 60_000

pub reserving-Keeps : (n : ℕ) → KeepsRequest rounding searches minute_end 10 utc (reserving n)
unfolding ◌+ℤ◌
reserving-Keeps n = record { within = λ own. omega arith; retained = λ own. refl }

abbrev pub calm_turn : Turn
calm_turn = record { others = λ r. r; at = half_past; event = works }

pub calm_turn-IsOrderly : IsOrderly rounding searches minute_end 10 calm_turn
calm_turn-IsOrderly = record { early = refl; others_reach = λ r h. h }

-- The server once another client has reserved six units.
abbrev pub six_call : ReserveCall
six_call = reserve_call utc rounding (reserving 6) 6 10

abbrev pub six : Redis
six = (reserve_script rounding six_call half_past fresh).1

pub six-Reach : Reach rounding searches minute_end 10 six
unfolding ◌+ℤ◌
six-Reach =
    reserves six_call half_past fresh refl
      (record { within = λ own. omega arith; retained = λ own. refl }) starts

abbrev pub later : Timestamp
later = pos 31_000_000_000

pub lost_turn-IsOrderly :
    IsOrderly rounding searches minute_end 10
      (record { others = λ r. r; at = half_past; event = lost "connection reset" })
lost_turn-IsOrderly = record { early = refl; others_reach = λ r h. h }
