-- ===== src/Calendar/Ordinals.antt =====
-- Ordinals of neighbouring days, and moments on the line of time.
use native.Mathlib.Numerals.{add-one}
use mathlib.Core.Path.{ap₂}
use kyraan.Base.{
  ℕ, zero, suc, ◌+◌, ◌/◌, ◌≤◌, ◌<◌, ◌%◌, ◌≡◌, refl, sym, ap, ◌∙◌, arith, ltb, Bool-cases, inl, inr,
  if◌then◌else◌,
}
use kyraan.Calendar.{
  Date, Moment, day_s, is_leap, month_length, days_before_year, days_before_month, ordinal, seconds,
  next_day, add_days, add_seconds, DateIsValid, MomentIsValid,
}

year_length : ℕ → ℕ
year_length y = if is_leap y then 366 else 365

days_before_year-suc :
    (y : ℕ) → 1 ≤ y → days_before_year (y + 1) ≡ days_before_year y + year_length y
unfolding days_before_year year_length is_leap
days_before_year-suc y h = ground arith

december : (y : ℕ) → days_before_month y 12 + 31 ≡ year_length y
unfolding days_before_month month_length year_length
december y = ground arith

days_before_month-suc :
    (y m : ℕ) → 1 ≤ m → days_before_month y (m + 1) ≡ days_before_month y m + month_length y m
unfolding days_before_month
days_before_month-suc y zero h = absurd (omega arith)
days_before_month-suc y (suc m) h = rw add-one (omega arith)

pub month_length_bounds : (y m : ℕ) → (28 ≤ month_length y m) × (month_length y m ≤ 31)
unfolding month_length
month_length_bounds y m = ground arith

pub next_day-IsValid : (d : Date) → DateIsValid d → DateIsValid (next_day d)
unfolding next_day
next_day-IsValid d v =
    ground (arith, month_length_bounds d.year (d.month + 1), month_length_bounds (d.year + 1) 1)

-- the three branches of `next_day`, each on the line of days
ordinal_same_month : (d : Date) → ordinal (record d { day = d.day + 1 }) ≡ ordinal d + 1
unfolding ordinal
ordinal_same_month d = omega arith

ordinal_next_month :
    (d : Date)
    → 1 ≤ d.month
    → d.day ≡ month_length d.year d.month
    → ordinal (record { year = d.year; month = d.month + 1; day = 1 }) ≡ ordinal d + 1
unfolding ordinal
ordinal_next_month d h e = omega (arith, days_before_month-suc d.year d.month h)

ordinal_next_year :
    (y : ℕ)
    → 1 ≤ y
    → ordinal (record { year = y + 1; month = 1; day = 1 })
      ≡ ordinal (record { year = y; month = 12; day = 31 }) + 1
unfolding ordinal
ordinal_next_year y h = omega (arith, days_before_year-suc y h, december y)

month_length-december : (y : ℕ) → month_length y 12 ≡ 31
unfolding month_length
month_length-december y = refl

ordinal_new_year :
    (d : Date)
    → 1 ≤ d.year
    → d.month ≡ 12
    → d.day ≡ 31
    → ordinal (record { year = d.year + 1; month = 1; day = 1 }) ≡ ordinal d + 1
ordinal_new_year d h m n =
    ordinal_next_year d.year h
    ∙ ap (λ (x : Date). ordinal x + 1)
        (λ i. record { year = d.year; month = sym m i; day = sym n i })

-- The day after is one ordinal later.
pub ordinal-next_day : (d : Date) → DateIsValid d → ordinal (next_day d) ≡ ordinal d + 1
unfolding next_day
ordinal-next_day d v = elim (Bool-cases (ltb d.day (month_length d.year d.month))) [
  | inl within ↦ rw within (ordinal_same_month d)
  | inr last ↦ elim (Bool-cases (ltb d.month 12)) [
    | inl before ↦ rw last (rw before (ordinal_next_month d v.month_pos (ground (arith, v.day_le))))
    | inr december_now ↦
        let is_december : d.month ≡ 12 = ground arith in
        let ends : month_length d.year d.month ≡ 31 =
          ap (month_length d.year) is_december ∙ month_length-december d.year in
        rw last
          (rw december_now (ordinal_new_year d v.year_pos is_december (ground (arith, v.day_le))))
  ]
]

pub add_days-IsValid : (d : Date) (n : ℕ) → DateIsValid d → DateIsValid (add_days d n)
unfolding add_days
add_days-IsValid d zero v = v
add_days-IsValid d (suc n) v = next_day-IsValid (add_days d n) (add_days-IsValid d n v)

pub ordinal-add_days : (d : Date) (n : ℕ) → DateIsValid d → ordinal (add_days d n) ≡ ordinal d + n
unfolding add_days
ordinal-add_days d zero v = omega arith
ordinal-add_days d (suc n) v =
    omega (arith, ordinal-next_day (add_days d n) (add_days-IsValid d n v), ordinal-add_days d n v)

pub add_seconds-IsValid : (t : Moment) (n : ℕ) → MomentIsValid t → MomentIsValid (add_seconds t n)
unfolding add_seconds
add_seconds-IsValid t n v = record {
  date = add_days-IsValid t.date _ v.date;
  second_lt = omega arith;
}

-- `+ timedelta(seconds=n)` moves a valid moment by `n` on the line of time, month ends and leap years
-- included.
pub seconds-add_seconds :
    (t : Moment) (n : ℕ) → MomentIsValid t → seconds (add_seconds t n) ≡ seconds t + n
unfolding seconds add_seconds
seconds-add_seconds t n v = omega (arith, ordinal-add_days t.date ((t.second + n) / day_s) v.date)

-- Every day of the next month is after every day of this one.
pub ordinal-month_step :
    (d : Date) (n : ℕ)
    → DateIsValid d
    → 1 ≤ n
    → ordinal d
      < ordinal (record { year = d.year + d.month / 12; month = d.month % 12 + 1; day = n })
unfolding ordinal
ordinal-month_step d n v h = elim (Bool-cases (ltb d.month 12)) [
  | inl before ↦
      let year : d.year + d.month / 12 ≡ d.year = ground (arith, v.month_pos) in
      let month : d.month % 12 + 1 ≡ d.month + 1 = ground (arith, v.month_pos) in
      omega (
        arith,
        ap days_before_year year,
        ap₂ days_before_month year month,
        days_before_month-suc d.year d.month v.month_pos,
        v.day_le,
      )
  | inr last ↦
      let month : d.month ≡ 12 = ground (arith, v.month_le) in
      let year : d.year + d.month / 12 ≡ d.year + 1 = omega arith in
      let first : d.month % 12 + 1 ≡ 1 = omega arith in
      omega (
        arith,
        ap days_before_year year,
        ap₂ days_before_month year first,
        days_before_year-suc d.year v.year_pos,
        december d.year,
        ap (days_before_month d.year) month,
        ap (month_length d.year) month,
        month_length-december d.year,
        v.day_le,
      )
]
