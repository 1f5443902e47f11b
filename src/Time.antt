-- ===== src/Time.antt =====
-- Instants and durations, and what the program takes from the crates chrono and chrono_tz. An
-- instant (`DateTime<Utc>`) is given by its signed distance from the Unix epoch and a `Duration`
-- is a signed distance, both in nanoseconds, so that their order and differences are those of
-- integers. Everything that chrono computes otherwise is a field of `Chrono`.
use budget_warden.Base.{ℕ, String, suc, pos, negsuc, ◌*◌, ◌-◌, Result, Option}
use budget_warden.Base.{ℤ}

abbrev pub Timestamp : Type 0
Timestamp = ℤ

abbrev pub Duration : Type 0
Duration = ℤ

-- `LocalResult`, of which the program keeps the first instant.
pub data LocalResult : Type 0 where
  single : Timestamp → LocalResult
  ambiguous : Timestamp → Timestamp → LocalResult
  nonexistent : LocalResult

pub record LocalDate : Type 0 where
  pub year : ℤ
  pub month : ℕ
  pub day : ℕ

pub record Chrono : Type 1 where
  -- `chrono_tz::Tz`, and `parse` into it with the text of its error
  pub Tz : Type 0
  pub parse : String → Result String Tz
  -- the date of `with_timezone`, and `with_ymd_and_hms` at midnight
  pub local_date : Tz → Timestamp → LocalDate
  pub with_ymd : Tz → ℤ → ℕ → ℕ → LocalResult
  -- how an error message writes a date, `{year:04}-{month:02}-{day:02}`
  pub show_date : ℤ → ℕ → ℕ → String
  -- `Duration::num_milliseconds`, `num_seconds`, `days`, `minutes`, `seconds`
  pub num_milliseconds : Duration → ℤ
  pub num_seconds : Duration → ℤ
  pub days : ℕ → Duration
  pub minutes : ℕ → Duration
  pub seconds : ℕ → Duration
  -- `DateTime::timestamp`, and `from_timestamp` with no nanoseconds
  pub timestamp : Timestamp → ℤ
  pub from_timestamp : ℤ → Option Timestamp

-- `s` seconds, in nanoseconds.
abbrev pub nanos : ℤ → ℤ
nanos (pos n) = pos (n * 1_000_000_000)
nanos (negsuc n) = negsuc (suc n * 1_000_000_000 - 1)
