-- ===== src/Schedule/Later.antt =====
-- The next occurrence of each rule, and when it comes.
use kyraan.Base.{
  ◌⊎◌, ℕ, zero, suc, ◌+◌, ◌/◌, ◌%◌, ◌≤◌, ◌<◌, ◌≡◌, refl, ap, true, false, Option, none, some, arith,
  leb, Bool-cases, inl, inr,
}
use kyraan.Calendar.{
  Date, Moment, ordinal, weekday, seconds, next_day, add_days, add_seconds, DateIsValid,
  MomentIsValid,
}
use kyraan.Calendar.Ordinals.{
  next_day-IsValid, ordinal-next_day, add_days-IsValid, ordinal-add_days, add_seconds-IsValid,
  seconds-add_seconds, month_length_bounds, ordinal-month_step,
}
use kyraan.Schedule.{
  Repeat, daily, weekdays, weekly, monthly, interval, Rule, skip_weekend, month_later,
  advance_occurrence, step_s, at_minute, snap, window, snap_to, is_interval, advance_for,
}

-- the rules that `advance_occurrence` knows
abbrev pub IsCalendar : Repeat → Type 0
IsCalendar daily = Unit
IsCalendar weekdays = Unit
IsCalendar weekly = Unit
IsCalendar monthly = Unit
IsCalendar _ = ⊥

-- the outcome of an advance
pub record IsLater (t u : Moment) : Type 0 where
  pub valid : MomentIsValid u
  pub later : seconds t < seconds u

skip_weekend-IsValid : (fuel : ℕ) (d : Date) → DateIsValid d → DateIsValid (skip_weekend fuel d)
unfolding skip_weekend
skip_weekend-IsValid zero d v = v
skip_weekend-IsValid (suc fuel) d v = elim (Bool-cases (leb 5 (weekday d))) [
  | inl weekend ↦ rw weekend (skip_weekend-IsValid fuel (next_day d) (next_day-IsValid d v))
  | inr workday ↦ rw workday v
]

ordinal-skip_weekend :
    (fuel : ℕ) (d : Date) → DateIsValid d → ordinal d ≤ ordinal (skip_weekend fuel d)
unfolding skip_weekend
ordinal-skip_weekend zero d v = omega arith
ordinal-skip_weekend (suc fuel) d v =
    ground
      (arith, ordinal-next_day d v, ordinal-skip_weekend fuel (next_day d) (next_day-IsValid d v))

-- From Monday to Friday, wherever the rule starts.
pub weekday-skip_weekend : (d : Date) → DateIsValid d → weekday (skip_weekend 2 d) < 5
unfolding skip_weekend weekday
weekday-skip_weekend d v =
    ground (arith, ordinal-next_day d v, ordinal-next_day (next_day d) (next_day-IsValid d v))

-- A moment on a later day is later, whatever the times of day.
later_day :
    (t : Moment) (d : Date) (n : ℕ)
    → MomentIsValid t
    → ordinal t.date < ordinal d
    → seconds t < seconds (record { date = d; second = n })
unfolding seconds
later_day t d n v h = omega (arith, v.second_lt)

module _ (t : Moment) (v : MomentIsValid t) where
  IsLater-day :
      (d : Date) → DateIsValid d → ordinal t.date < ordinal d → IsLater t (record t { date = d })
  IsLater-day d valid h = record {
    valid = record { date = valid; second_lt = v.second_lt };
    later = later_day t d t.second v h;
  }

  month_later-IsValid : DateIsValid (month_later t.date)
  unfolding month_later
  month_later-IsValid =
      let bounds = month_length_bounds (t.date.year + t.date.month / 12) (t.date.month % 12 + 1) in
      record {
        year_pos = omega (arith, v.date.year_pos);
        month_pos = omega arith;
        month_le = omega arith;
        day_pos = omega (arith, v.date.day_pos, bounds);
        day_le = omega arith;
      }

  -- `none` never comes back, and what comes back is later
  abbrev pub Advances : Option Moment → Type 0
  Advances o = (u : Moment) × (o ≡ some u) × IsLater t u

  ordinal-month_later : ordinal t.date < ordinal (month_later t.date)
  unfolding month_later
  ordinal-month_later =
      let bounds = month_length_bounds (t.date.year + t.date.month / 12) (t.date.month % 12 + 1) in
      ordinal-month_step t.date _ v.date (omega (arith, v.date.day_pos, bounds))

  pub advance_occurrence-Advances : (r : Repeat) → IsCalendar r → Advances (advance_occurrence t r)
  unfolding advance_occurrence
  advance_occurrence-Advances daily k = (
    _,
    refl,
    IsLater-day (next_day t.date) (next_day-IsValid t.date v.date)
        (omega (arith, ordinal-next_day t.date v.date)),
  )
  advance_occurrence-Advances weekly k = (
    _,
    refl,
    IsLater-day (add_days t.date 7) (add_days-IsValid t.date 7 v.date)
        (omega (arith, ordinal-add_days t.date 7 v.date)),
  )
  advance_occurrence-Advances weekdays k =
      let next = next_day-IsValid t.date v.date in
      (
        _,
        refl,
        IsLater-day (skip_weekend 2 (next_day t.date)) (skip_weekend-IsValid 2 _ next) (
            omega (
              arith,
              ordinal-next_day t.date v.date,
              ordinal-skip_weekend 2 (next_day t.date) next,
            )),
      )
  advance_occurrence-Advances monthly k =
      (_, refl, IsLater-day (month_later t.date) month_later-IsValid ordinal-month_later)
  advance_occurrence-Advances _ k = elim k [ ]

-- A window's times are times of day.
abbrev pub WindowIsValid : Option (ℕ × ℕ) → Type 0
WindowIsValid none = Unit
WindowIsValid (some (start, end)) = (start < 1440) × (end < 1440)

-- A rule that recurs, with its window.
pub record RuleIsValid (r : Rule) : Type 0 where
  pub recurs : (r.repeat ≡ interval) ⊎ IsCalendar r.repeat
  pub window_valid : WindowIsValid (window r)

pub at_minute-IsValid :
    (d : Date) (m : ℕ) → DateIsValid d → m < 1440 → MomentIsValid (at_minute d m)
at_minute-IsValid d m v h = record { date = v; second_lt = omega arith }

-- Moving a slot into the window never moves it back.
snap-IsLater :
    (start end : ℕ) (t : Moment)
    → start < 1440
    → MomentIsValid t
    → MomentIsValid (snap start end t) × (seconds t ≤ seconds (snap start end t))
unfolding snap seconds
snap-IsLater start end t hs v =
    (ground (arith, next_day-IsValid t.date v.date), ground (arith, ordinal-next_day t.date v.date))

snap_to-IsLater :
    (w : Option (ℕ × ℕ)) (t : Moment)
    → WindowIsValid w
    → MomentIsValid t
    → MomentIsValid (snap_to w t) × (seconds t ≤ seconds (snap_to w t))
unfolding snap_to
snap_to-IsLater none t h v = (v, omega arith)
snap_to-IsLater (some (start, end)) t h v = snap-IsLater start end t h.0 v

is_interval-IsCalendar : (x : Repeat) → IsCalendar x → is_interval x ≡ false
unfolding is_interval
is_interval-IsCalendar interval k = elim k [ ]
is_interval-IsCalendar _ k = refl

pub advance_for-interval :
    (r : Rule) (t : Moment)
    → r.repeat ≡ interval
    → advance_for r t ≡ some (snap_to (window r) (add_seconds t (step_s r)))
unfolding advance_for is_interval
advance_for-interval r t e =
    let recurs : is_interval r.repeat ≡ true = ap is_interval e in rw recurs refl

step_s-pos : (r : Rule) → 300 ≤ step_s r
unfolding step_s
step_s-pos r = omega arith

-- Every rule that recurs has a next occurrence, and it comes after the moment it is reckoned from:
-- month ends, weekends and daily windows included.
pub advance_for-IsLater :
    (r : Rule) (t : Moment)
    → RuleIsValid r
    → MomentIsValid t
    → (u : Moment) × (advance_for r t ≡ some u) × IsLater t u
unfolding advance_for
advance_for-IsLater r t rv v = elim rv.recurs [
  | inl e ↦
      let next = add_seconds t (step_s r) in
      let (valid, later) =
        snap_to-IsLater (window r) next rv.window_valid (add_seconds-IsValid t (step_s r) v) in
      (
        snap_to (window r) next,
        advance_for-interval r t e,
        record {
          valid = valid;
          later = omega (arith, seconds-add_seconds t (step_s r) v, step_s-pos r, later);
        },
      )
  | inr k ↦ rw (is_interval-IsCalendar r.repeat k) (advance_occurrence-Advances t v r.repeat k)
]
