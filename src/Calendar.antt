-- ===== src/Calendar.antt =====
-- Dates and wall-clock moments as Python's `datetime` has them, for what scheduler.py does with them:
-- the proleptic Gregorian calendar, ordinals, weekdays, and adding days and seconds. One zone with a
-- fixed offset is assumed; seconds are whole; there is no last year.
pub mod Ordinals
use kyraan.Base.{
  ℕ, zero, suc, ◌+◌, ◌-◌, ◌*◌, ◌/◌, ◌%◌, ◌≤◌, ◌<◌, Bool, not, ◌&&◌, ◌||◌, ltb, leb, ◌==◌,
  if◌then◌else◌,
}

pub record Date : Type 0 where
  pub year : ℕ
  pub month : ℕ
  pub day : ℕ

pub record Moment : Type 0 where
  pub date : Date
  pub second : ℕ

abbrev pub day_s : ℕ
day_s = 86400

unfoldable pub is_leap : ℕ → Bool
is_leap y = (y % 4 == 0 && not (y % 100 == 0)) || y % 400 == 0

-- `calendar.monthrange(y, m)[1]`
unfoldable pub month_length : ℕ → ℕ → ℕ
unfolding is_leap
month_length y m =
    if m == 2
    then if is_leap y then 29 else 28
    else if m == 4 || m == 6 || m == 9 || m == 11
    then 30
    else 31

days_before_year : ℕ → ℕ
days_before_year y = 365 * (y - 1) + (y - 1) / 4 + (y - 1) / 400 - (y - 1) / 100

days_before_month : ℕ → ℕ → ℕ
days_before_month _ zero = 0
days_before_month _ (suc zero) = 0
days_before_month year (suc (suc before)) =
    month_length year (suc before) + days_before_month year (suc before)

-- `toordinal()`
unfoldable pub ordinal : Date → ℕ
unfolding days_before_year days_before_month
ordinal d = days_before_year d.year + days_before_month d.year d.month + d.day

-- `weekday()`: Monday is 0
unfoldable pub weekday : Date → ℕ
weekday d = (ordinal d + 6) % 7

-- seconds on one line of time
unfoldable pub seconds : Moment → ℕ
seconds t = ordinal t.date * day_s + t.second

-- `+ timedelta(days=1)`
unfoldable pub next_day : Date → Date
next_day d =
    if ltb d.day (month_length d.year d.month)
    then record d { day = d.day + 1 }
    else if ltb d.month 12
    then record { year = d.year; month = d.month + 1; day = 1 }
    else record { year = d.year + 1; month = 1; day = 1 }

unfoldable pub add_days : Date → ℕ → Date
add_days d zero = d
add_days d (suc n) = next_day (add_days d n)

-- `+ timedelta(seconds=n)`
unfoldable pub add_seconds : Moment → ℕ → Moment
add_seconds t n = record {
  date = add_days t.date ((t.second + n) / day_s);
  second = (t.second + n) % day_s;
}

pub record DateIsValid (d : Date) : Type 0 where
  pub year_pos : 1 ≤ d.year
  pub month_pos : 1 ≤ d.month
  pub month_le : d.month ≤ 12
  pub day_pos : 1 ≤ d.day
  pub day_le : d.day ≤ month_length d.year d.month

pub record MomentIsValid (t : Moment) : Type 0 where
  pub date : DateIsValid t.date
  pub second_lt : t.second < day_s
