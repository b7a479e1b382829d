-- ===== src/Tests/Times.antt =====
-- Runs of the recurrence of scheduler.py on concrete dates.
use kyraan.Base.{◌≡◌, refl, inl, inr, none, some, arith}
use kyraan.Calendar.{
  Moment, weekday, ordinal, is_leap, month_length, seconds, next_day, add_days, add_seconds,
  MomentIsValid,
}
use kyraan.Schedule.{
  interval, monthly, weekdays, Rule, advance_occurrence, skip_weekend, step_s, window, advance_for,
  advance_past_now, pings_per_day,
}
use kyraan.Schedule.Later.{IsLater, RuleIsValid}
use kyraan.Schedule.CatchUp.{advance_past_now-IsLater}
use kyraan.Schedule.Window.{InWindow, advance_for-InWindow}

-- 31 January 2028, 09:00
abbrev pub january_31 : Moment
january_31 = record { date = record { year = 2028; month = 1; day = 31 }; second = 32400 }

-- 1 March 2028, 10:00
abbrev pub march_1 : Moment
march_1 = record { date = record { year = 2028; month = 3; day = 1 }; second = 36000 }

-- water every 90 minutes from 09:00 to 18:00
abbrev pub water : Rule
water = record {
  repeat = interval;
  interval_minutes = 90;
  window_start = some 540;
  window_end = some 1080;
}

abbrev pub rent : Rule
rent = record { repeat = monthly; interval_minutes = 0; window_start = none; window_end = none }

pub january_31-IsValid : MomentIsValid january_31
unfolding month_length
january_31-IsValid = record {
  date = record {
    year_pos = omega arith;
    month_pos = omega arith;
    month_le = omega arith;
    day_pos = omega arith;
    day_le = omega arith;
  };
  second_lt = omega arith;
}

pub march_1-IsValid : MomentIsValid march_1
unfolding month_length
march_1-IsValid = record {
  date = record {
    year_pos = omega arith;
    month_pos = omega arith;
    month_le = omega arith;
    day_pos = omega arith;
    day_le = omega arith;
  };
  second_lt = omega arith;
}

pub water-IsValid : RuleIsValid water
unfolding window
water-IsValid = record { recurs = inl refl; window_valid = (omega arith, omega arith) }

rent-IsValid : RuleIsValid rent
unfolding window
rent-IsValid = record { recurs = inr tt; window_valid = tt }

-- the end of January is followed by the end of a leap February
rent_in_february :
    advance_for rent january_31
    ≡ some (record { date = record { year = 2028; month = 2; day = 29 }; second = 32400 })
unfolding advance_for advance_occurrence month_length is_leap
rent_in_february = refl

-- a Friday is followed by a Monday
friday_monday :
    advance_occurrence
      (record { date = record { year = 2026; month = 1; day = 2 }; second = 0 })
      weekdays
    ≡ some (record { date = record { year = 2026; month = 1; day = 5 }; second = 0 })
unfolding advance_occurrence skip_weekend weekday ordinal next_day month_length
friday_monday = refl

-- the slot of today's grid after ten
water_resumes :
    advance_past_now water january_31 march_1
    ≡ some (record { date = record { year = 2028; month = 3; day = 1 }; second = 37800 })
unfolding advance_past_now advance_for seconds ordinal month_length window add_seconds step_s
    add_days
water_resumes = refl

pings_in_a_day : pings_per_day 90 (some 540) (some 1080) ≡ 7
unfolding pings_per_day
pings_in_a_day = refl

advance_past_now-IsLater_example :
    (u : Moment) × (advance_past_now water january_31 march_1 ≡ some u) × IsLater march_1 u
advance_past_now-IsLater_example =
    advance_past_now-IsLater water january_31 march_1 water-IsValid january_31-IsValid
      march_1-IsValid

-- 09:00 and ninety minutes
abbrev half_past_ten : Moment
half_past_ten = record { date = record { year = 2028; month = 1; day = 31 }; second = 37800 }

advance_for-InWindow_example : InWindow 540 1080 half_past_ten
unfolding advance_for window step_s add_seconds add_days
advance_for-InWindow_example =
    advance_for-InWindow water 540 1080 january_31 half_past_ten refl refl refl
