-- ===== src/Schedule.antt =====
-- Recurrence in src/kyraan/triggers/scheduler.py: the next occurrence of a rule, and the catch-up after
-- downtime. `none` is a ValueError. The clock is read once per call, as the argument `now`.
pub mod Later
pub mod Window
pub mod CatchUp
use kyraan.Base.{
  ℕ, zero, suc, ◌+◌, ◌-◌, ◌*◌, ◌/◌, ◌%◌, Bool, true, false, not, ◌&&◌, ◌||◌, Option, none, some,
  List, [], ◌∷◌, String, ltb, leb, ◌==◌, if◌then◌else◌,
}
use Prim.Native.Nat.{min, max}
use mathlib.Core.Option
use kyraan.Calendar.{
  Date, Moment, day_s, month_length, ordinal, weekday, seconds, next_day, add_days, add_seconds,
}

-- `repeat`; "" is `once`
pub data Repeat : Type 0 where
  once daily weekdays weekly monthly interval : Repeat
  other_rule : String → Repeat

-- The fields of a record that say when it recurs. A window time "HH:MM" is minutes after midnight, ""
-- is `none`.
pub record Rule : Type 0 where
  pub repeat : Repeat
  pub interval_minutes : ℕ
  pub window_start : Option ℕ
  pub window_end : Option ℕ

abbrev pub min_interval_minutes : ℕ
min_interval_minutes = 5

-- `while step.weekday() >= 5`, with a bound on the steps that is never met
unfoldable pub skip_weekend : ℕ → Date → Date
skip_weekend zero d = d
skip_weekend (suc fuel) d =
    let rest = skip_weekend fuel (next_day d) in if leb 5 (weekday d) then rest else d

month_later : Date → Date
month_later d =
    let year = d.year + d.month / 12 in
    let month = d.month % 12 + 1 in
    record { year = year; month = month; day = min d.day (month_length year month) }

unfoldable pub advance_occurrence : Moment → Repeat → Option Moment
unfolding month_later
advance_occurrence t daily = some (record t { date = next_day t.date })
advance_occurrence t weekly = some (record t { date = add_days t.date 7 })
advance_occurrence t weekdays = some (record t { date = skip_weekend 2 (next_day t.date) })
advance_occurrence t monthly = some (record t { date = month_later t.date })
advance_occurrence t _ = none

-- `timedelta(minutes=max(interval_minutes, _MIN_INTERVAL_MINUTES))`
unfoldable pub step_s : Rule → ℕ
step_s r = 60 * max r.interval_minutes min_interval_minutes

-- `replace(hour=.., minute=.., second=0, microsecond=0)`
abbrev pub at_minute : Date → ℕ → Moment
at_minute d m = record { date = d; second = m * 60 }

-- Moves a slot into the daily window; a window whose end is before its start crosses midnight.
snap : ℕ → ℕ → Moment → Moment
snap start end t =
    if leb start end
    then if ltb (end * 60) t.second
      then at_minute (next_day t.date) start
      else if ltb t.second (start * 60)
      then at_minute t.date start
      else t
    else if ltb (end * 60) t.second && ltb t.second (start * 60)
    then at_minute t.date start
    else t

-- `if record.window_start and record.window_end`
unfoldable pub window : Rule → Option (ℕ × ℕ)
window r = elim r.window_start [
  | none ↦ none
  | some start ↦ elim r.window_end [ none ↦ none | some end ↦ some (start, end) ]
]

pub snap_to : Option (ℕ × ℕ) → Moment → Moment
snap_to none t = t
snap_to (some (start, end)) t = snap start end t

unfoldable pub is_interval : Repeat → Bool
is_interval interval = true
is_interval _ = false

-- `advance_for(record, from_when=t)`
unfoldable pub advance_for : Rule → Moment → Option Moment
unfolding is_interval snap_to snap
advance_for r t =
    if is_interval r.repeat
    then some (snap_to (window r) (add_seconds t (step_s r)))
    else advance_occurrence t r.repeat

same_date : Date → Date → Bool
same_date a b = a.year == b.year && (a.month == b.month && a.day == b.day)

-- Where today's grid starts: a series that stands today keeps its own phase.
grid_anchor : ℕ → Moment → Moment → Moment
grid_anchor start base now = if same_date base.date now.date then base else at_minute now.date start

-- the first slot of the grid after now, with the number of slots before it
grid_next : ℕ → Moment → Moment → Moment × ℕ
grid_next step anchor now =
    let k = (seconds now - seconds anchor) / step + 1 in
    if ltb (seconds now) (seconds anchor) then (anchor, 0) else (add_seconds anchor (step * k), k)

-- past today's last slot comes tomorrow's window start
grid_end : ℕ → ℕ → Moment → Moment × ℕ → Moment × ℕ
grid_end start end now (slot, skipped) =
    if not (same_date slot.date now.date) || ltb (end * 60) slot.second
    then (at_minute (next_day now.date) start, skipped)
    else (slot, skipped)

-- Today's grid slot after now, for a window within the day.
grid_slot : ℕ → ℕ → ℕ → Moment → Moment → Moment × ℕ
grid_slot step start end base now =
    grid_end start end now (grid_next step (grid_anchor start base now) now)

-- The jump over missed slots of an interval series, with the number of slots that it skips.
jump : Rule → Moment → Moment → Moment → Option (ℕ × ℕ) → Option (Moment × ℕ)
jump r base next now (some (start, end)) =
    if leb start end && leb (step_s r) ((end - start) * 60)
    then some (grid_slot (step_s r) start end base now)
    else some (next, 0)
jump r base next now none =
    let k = (seconds now - seconds next) / step_s r + 1 in
    Option.map (λ t. (t, k)) (advance_for r (add_seconds next (step_s r * (k - 1))))

abbrev pub bind {ℓ κ} : {A : Type ℓ} {B : Type κ} → Option A → (A → Option B) → Option B
bind none f = none
bind (some a) f = f a

-- `while next_when <= now and skipped < 5000`, on the rounds that are left
catch_up : ℕ → Rule → Moment → Moment → Option Moment
catch_up zero r now next = some next
catch_up (suc rounds) r now next =
    if ltb (seconds now) (seconds next)
    then some next
    else bind (advance_for r next) (catch_up rounds r now)

-- the last guard: one advance from now
settled : Rule → Moment → Moment → Option Moment
settled r now next = if ltb (seconds now) (seconds next) then some next else advance_for r now

jumped : Rule → Moment → Moment → Moment → Option (Moment × ℕ)
jumped r base next now =
    if is_interval r.repeat && not (ltb (seconds now) (seconds next))
    then jump r base next now (window r)
    else some (next, 0)

-- `advance_past_now(record)`, for a record that stands at `base`
unfoldable pub advance_past_now : Rule → Moment → Moment → Option Moment
unfolding jumped jump grid_slot grid_anchor grid_next grid_end catch_up settled is_interval snap_to
    snap same_date
advance_past_now r base now = bind (advance_for r base) λ next.
    bind (jumped r base next now) λ js. bind (catch_up (5000 - js.1) r now js.0) (settled r now)

-- `pings_per_day`
unfoldable pub pings_per_day : ℕ → Option ℕ → Option ℕ → ℕ
pings_per_day interval_minutes (some start) (some end) =
    let minutes = if ltb end start then end + 1440 - start else end - start in
    max (minutes / max interval_minutes 1 + 1) 1
pings_per_day interval_minutes _ _ = max (1440 / max interval_minutes 1 + 1) 1
