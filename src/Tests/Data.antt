-- ===== src/Tests/Data.antt =====
-- What the runs share: a calendar, keys, policies and requests, as a caller of src/broker.rs sets
-- them up.
use budget_warden.Base.{
  ℕ, suc, ◌*◌, ◌/◌, ◌-◌, ℤ, pos, negsuc, ◌≤ℤ◌, ◌+ℤ◌, none, some, ok, [], ◌∷◌, arith, leb,
  if◌then◌else◌,
}
use budget_warden.BudgetUnit.{requests}
use budget_warden.Decision.{reject}
use budget_warden.Key.{BudgetKey}
use budget_warden.Key.Pattern.{BudgetKeyPattern}
use budget_warden.Policy.{
  BudgetPolicy, BudgetStrategy, PreserveForWindow, hard_limit_only, preserve_for_window,
  closed_mode,
}
use budget_warden.Priority.{normal}
use budget_warden.Registry.{PolicyRegistry}
use budget_warden.Request.{BudgetRequest}
use budget_warden.Store.{StoreKey, ReserveRequest}
use budget_warden.Time.{Chrono, Timestamp, Duration, single, nanos}
use budget_warden.Window.{WindowBounds, fixed}
use budget_warden.Window.Bounds.{CountsSeconds}

-- Division that rounds to zero, and division that rounds down.
abbrev pub quotient : ℤ → ℕ → ℤ
quotient (pos n) d = pos (n / d)
quotient (negsuc n) d = if leb d (suc n) then negsuc (suc n / d - 1) else pos 0

abbrev pub floor_div : ℤ → ℕ → ℤ
floor_div (pos n) d = pos (n / d)
floor_div (negsuc n) d = negsuc (n / d)

-- A calendar that knows only seconds: every zone is the same, and every day is the first.
abbrev pub utc : Chrono
utc = record {
  Tz = Unit;
  parse = λ s. ok tt;
  local_date = λ z t. record { year = pos 1970; month = 1; day = 1 };
  with_ymd = λ z y m d. single (pos 0);
  show_date = λ y m d. "1970-01-01";
  num_milliseconds = λ d. quotient d 1_000_000;
  num_seconds = λ d. quotient d 1_000_000_000;
  days = λ n. pos (n * 86_400_000_000_000);
  minutes = λ n. pos (n * 60_000_000_000);
  seconds = λ n. pos (n * 1_000_000_000);
  timestamp = λ t. floor_div t 1_000_000_000;
  from_timestamp = λ s. some (nanos s);
}

abbrev pub minute : Duration
minute = pos 60_000_000_000

abbrev pub noon : Timestamp
noon = pos 30_000_000_000

abbrev pub first_minute : WindowBounds
first_minute = record { start = pos 0; end = minute }

abbrev pub search_key : BudgetKey
search_key = record { provider = "acme"; domain = "web"; resource = "search"; subject = "global" }

abbrev pub search_pattern : BudgetKeyPattern
search_pattern = record {
  provider = "acme";
  domain = some "web";
  resource = some "search";
  subject = some "global";
}

abbrev pub policy_of : BudgetStrategy → BudgetPolicy
policy_of strategy = record {
  name = "searches";
  key = search_pattern;
  unit = requests;
  hard_limit = 10;
  window = fixed minute;
  strategy = strategy;
  exhausted_action = reject;
  low_budget_action = none;
  fail_mode = closed_mode;
}

-- Spend may run ahead of the pace by 20 %, 10 % are kept for emergencies, and one unit stays.
abbrev pub careful : PreserveForWindow
careful = record {
  max_spend_ahead_percent = 20;
  emergency_reserve_percent = 10;
  minimum_remaining_units = some 1;
}

abbrev pub plain_policy : BudgetPolicy
plain_policy = policy_of hard_limit_only

abbrev pub careful_policy : BudgetPolicy
careful_policy = policy_of (preserve_for_window careful)

abbrev pub registry : PolicyRegistry
registry = record { policies = plain_policy ∷ [] }

abbrev pub asking : ℕ → BudgetRequest
asking amount = record {
  key = search_key;
  unit = requests;
  amount = amount;
  priority = normal;
  idempotency_key = none;
  metadata = [];
}

abbrev pub search_store_key : StoreKey
search_store_key = record { policy_name = "searches"; budget_key = search_key; unit = requests }

-- A request of a store, with ten units as both limits and a time to live of five seconds.
abbrev pub reserving : ℕ → ReserveRequest
reserving amount = record {
  key = search_store_key;
  amount = amount;
  hard_limit = 10;
  effective_limit = 10;
  reservation_ttl = pos 5_000_000_000;
  window = first_minute;
  idempotency_key = none;
  now = noon;
}

quotient_mono : (d e : ℤ) → d ≤ℤ e → quotient d 1_000_000 ≤ℤ quotient e 1_000_000
quotient_mono (pos a) (pos b) h = ground arith
quotient_mono (pos a) (negsuc b) h = absurd (omega arith)
quotient_mono (negsuc a) (pos b) h = ground arith
quotient_mono (negsuc a) (negsuc b) h = ground arith

pub utc-millis : (d e : Duration) → d ≤ℤ e → utc.num_milliseconds d ≤ℤ utc.num_milliseconds e
utc-millis = quotient_mono

second_starts : (t : ℤ) → nanos (floor_div t 1_000_000_000) ≤ℤ t
second_starts (pos n) = omega arith
second_starts (negsuc n) = omega arith

second_ends : (t : ℤ) → t +ℤ pos 1 ≤ℤ nanos (floor_div t 1_000_000_000 +ℤ pos 1)
unfolding ◌+ℤ◌
second_ends (pos n) = ground arith
second_ends (negsuc n) = ground arith

whole_seconds :
    (d : ℤ)
    → pos 0 ≤ℤ d
    → (pos 0 ≤ℤ quotient d 1_000_000_000) × (nanos (quotient d 1_000_000_000) ≤ℤ d)
whole_seconds (pos n) h = (omega arith, omega arith)
whole_seconds (negsuc n) h = absurd (omega arith)

pub utc-CountsSeconds : CountsSeconds utc
utc-CountsSeconds = record {
  floor = second_starts;
  next = second_ends;
  instant = λ s t e. cc;
  whole = whole_seconds;
}
