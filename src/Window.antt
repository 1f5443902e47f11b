-- ===== src/Window.antt =====
-- src/window.rs: budget windows and their bounds at an instant.
pub mod Bounds
pub mod Stable
use budget_warden.Base.{
  ℕ, zero, suc, ◌+◌, ◌-◌, ◌%◌, ◌==◌, if◌then◌else◌, ℤ, pos, negsuc, ◌+ℤ◌, ◌-ℤ◌, leb_ℤ, String,
  append, Bool, Option, none, some, Result, ok, err, panic, ◌>>=◌, ◌>>◌, fail_if, map_err,
}
use budget_warden.Error.{BudgetError, window_error}
use budget_warden.Time.{
  Timestamp, Duration, Chrono, LocalResult, single, ambiguous, nonexistent, LocalDate,
}

pub data BudgetWindow : Type 0 where
  calendar_day calendar_month : String → BudgetWindow
  fixed rolling : Duration → BudgetWindow

pub record WindowBounds : Type 0 where
  pub start : Timestamp
  pub end : Timestamp

-- `WindowBounds::new`
unfoldable pub new : Timestamp → Timestamp → Result BudgetError WindowBounds
new start end = do
  fail_if (leb_ℤ end start) (window_error "window end must be after window start")
  ok (record { start = start; end = end })

-- `WindowBounds::duration`
abbrev pub duration : WindowBounds → Duration
duration w = w.end -ℤ w.start

-- `i64::rem_euclid`, which panics at a divisor of zero. The program's divisors are not negative:
-- for those the remainder is by the absolute value.
unfoldable pub rem_euclid : ℤ → ℤ → Result BudgetError ℤ
rem_euclid a (pos zero) = panic
rem_euclid (pos n) (pos (suc d)) = ok (pos (n % suc d))
rem_euclid (negsuc n) (pos (suc d)) = ok (pos (d - n % suc d))
rem_euclid (pos n) (negsuc d) = ok (pos (n % suc d))
rem_euclid (negsuc n) (negsuc d) = ok (pos (d - n % suc d))

unfoldable pub fixed_bounds : Chrono → Duration → Timestamp → Result BudgetError WindowBounds
unfolding new rem_euclid
fixed_bounds c duration now = do
  fail_if (leb_ℤ duration (pos 0)) (window_error "fixed window duration must be positive")
  let timestamp = c.timestamp now
  offset ← rem_euclid timestamp (c.num_seconds duration)
  start ← start_at (c.from_timestamp (timestamp -ℤ offset))
  new start (start +ℤ duration)
  where
    start_at : Option Timestamp → Result BudgetError Timestamp
    start_at none = err (window_error "fixed window start is out of range")
    start_at (some t) = ok t

module _ (c : Chrono) where
  open c use {Tz, parse, local_date, with_ymd, show_date, days}

  unfoldable pub parse_timezone : String → Result BudgetError Tz
  parse_timezone timezone =
      map_err (λ e. window_error (append "invalid timezone `" (append timezone (append "`: " e))))
        (parse timezone)

  unfoldable pub local_boundary : Tz → ℤ → ℕ → ℕ → Result BudgetError Timestamp
  local_boundary tz year month day = elim (with_ymd tz year month day) [
    | single t ↦ ok t
    | ambiguous earliest _ ↦ ok earliest
    | nonexistent ↦
        err (window_error (append "local boundary does not exist for " (show_date year month day)))
  ]

  unfoldable pub calendar_day_bounds : String → Timestamp → Result BudgetError WindowBounds
  unfolding new parse_timezone local_boundary
  calendar_day_bounds timezone now = do
    tz ← parse_timezone timezone
    let local = local_date tz now
    start ← local_boundary tz local.year local.month local.day
    new start (start +ℤ days 1)

  -- The year and the month after.
  abbrev pub next_month : LocalDate → ℤ × ℕ
  next_month local =
      if local.month == 12 then (local.year +ℤ pos 1, 1) else (local.year, local.month + 1)

  unfoldable pub calendar_month_bounds : String → Timestamp → Result BudgetError WindowBounds
  unfolding new parse_timezone local_boundary
  calendar_month_bounds timezone now = do
    tz ← parse_timezone timezone
    let local = local_date tz now
    start ← local_boundary tz local.year local.month 1
    end ← local_boundary tz (next_month local).0 (next_month local).1 1
    new start end

  unfoldable pub bounds_at : BudgetWindow → Timestamp → Result BudgetError WindowBounds
  unfolding fixed_bounds calendar_day_bounds calendar_month_bounds
  bounds_at (calendar_day timezone) now = calendar_day_bounds timezone now
  bounds_at (calendar_month timezone) now = calendar_month_bounds timezone now
  bounds_at (fixed d) now = fixed_bounds c d now
  bounds_at (rolling d) now = fixed_bounds c d now

  -- `BudgetWindow::validate`
  unfoldable pub validate : BudgetWindow → Result BudgetError (Unit {0})
  unfolding parse_timezone
  validate (calendar_day timezone) = do tz ← parse_timezone timezone; ok tt
  validate (calendar_month timezone) = do tz ← parse_timezone timezone; ok tt
  validate (fixed d) = fail_if (leb_ℤ d (pos 0)) (window_error "window duration must be positive")
  validate (rolling d) = fail_if (leb_ℤ d (pos 0)) (window_error "window duration must be positive")
