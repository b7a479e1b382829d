-- ===== src/Reminders/Manage.antt =====
-- What the owner and a restart do to reminders, of scheduler.py: `init`, `_schedule`, `find_duplicate`,
-- `create_reminder`, `reschedule_reminder`, `snooze_reminder`, `cancel_reminder`. `none` is a ValueError.
pub mod Startup
pub mod Create
use kyraan.Base.{
  ℕ, ◌+◌, ◌*◌, String, Bool, true, false, not, ◌&&◌, ◌||◌, Option, none, some, List, [], ◌∷◌, ltb,
  leb, ◌==◌, str_eq, str_in, starts_with, all, keep, if◌then◌else◌,
}
use kyraan.Base.Table.{update}
use kyraan.Calendar.{Moment, seconds, add_seconds}
use kyraan.Schedule.{Repeat, once, interval, other_rule, Rule, min_interval_minutes, is_interval}
use kyraan.Reminders.Defs.{Stamp, blank, moment, malformed, Reminder}
use kyraan.Reminders.Store.{Records, id_of, add, list_pending, get, cancel, roll_forward}
use kyraan.Reminders.Fire.{Job, World, Clock, schedule, next_of, rolled, is_once}

-- `_parse_when`
abbrev pub parse_when : Stamp Moment → Option Moment
parse_when (moment t) = some t
parse_when _ = none

-- a call of the channel's scheduler for a reminder whose time has passed
abbrev schedule_late : String → Moment → World → World
schedule_late id due w = record w { jobs = record { id = id; due = due; late = true } ∷ w.jobs }

-- the part of `_schedule` for a due time long past: a series skips, a single reminder goes out now
schedule_overdue : Clock → Reminder → World → Option World
schedule_overdue clock r w =
    if is_once r.repeat
    then some (schedule_late r.id clock.now w)
    else rolled r.id clock w (next_of r clock.now)

schedule_at : Clock → Reminder → World → Option Moment → Option World
schedule_at clock r w none = none
schedule_at clock r w (some when) =
    if ltb (seconds when + 60) (seconds clock.now)
    then schedule_overdue clock r w
    else some (schedule r.id when w)

-- `_schedule(reminder)`, with a minute of slack
unfoldable pub schedule_record : Clock → Reminder → World → Option World
unfolding schedule_at schedule_overdue rolled next_of is_once
schedule_record clock r w = schedule_at clock r w (parse_when r.when_iso)

-- `try: _schedule(reminder)`; a record that does not schedule is skipped
started : World → Option World → World
started w none = w
started w (some w') = w'

-- the loop of `init`
start_each : Clock → Records → World → World
start_each clock [] w = w
start_each clock (r ∷ rs) w = start_each clock rs (started w (schedule_record clock r w))

unfoldable pub init : Option ℕ → Clock → World → World
unfolding start_each started
init only_chat clock w = start_each clock (list_pending only_chat w.records) w

filler_words : List String
filler_words =
    "remind" ∷ "reminder" ∷ "me" ∷ "to" ∷ "please" ∷ "a" ∷ "the" ∷ "my" ∷ "for" ∷ "about" ∷ []

-- `_text_essence`, with the words that the regular expression finds
text_essence : (String → List String) → String → List String
text_essence words text = keep (λ w. not (str_in w filler_words)) (words text)

-- `a <= b` on the sets of words
contained : List String → List String → Bool
contained a b = all (λ w. str_in w b) a

is_empty : List String → Bool
is_empty [] = true
is_empty _ = false

same_intent : List String → List String → Bool
same_intent essence other =
    not (is_empty other) && (contained essence other || contained other essence)

same_moment : Moment → Option Moment → Bool
same_moment when none = false
same_moment when (some t) = seconds t == seconds when

-- the loop of `find_duplicate`
duplicate_in : (String → List String) → List String → Moment → Repeat → Records → Option Reminder
duplicate_in words essence when repeat [] = none
duplicate_in words essence when repeat (r ∷ rs) =
    let rest = duplicate_in words essence when repeat rs in
    if not (same_intent essence (text_essence words r.text))
    then rest
    else if not (is_once repeat) && not (is_once r.repeat)
    then some r
    else if same_moment when (parse_when r.when_iso)
    then some r
    else rest

find_duplicate_at :
    (String → List String) → ℕ → String → Moment → Repeat → Records → Option Reminder
find_duplicate_at words chat_id text when repeat records =
    if is_empty (text_essence words text)
    then none
    else duplicate_in words (text_essence words text) when repeat
        (list_pending (some chat_id) records)

unfoldable pub find_duplicate :
    (String → List String) → ℕ → String → Stamp Moment → Repeat → Records → Option (Option Reminder)
unfolding find_duplicate_at duplicate_in same_intent same_moment contained text_essence is_empty
    filler_words is_once
find_duplicate words chat_id text when_iso repeat records = elim (parse_when when_iso) [
  | none ↦ none
  | some when ↦ some (find_duplicate_at words chat_id text when repeat records)
]

-- "HH:MM" as the two numbers that it splits into; "" is `none`
abbrev pub ClockTime : Type 0
ClockTime = Option (ℕ × ℕ)

abbrev pub bad_time : ClockTime → Bool
bad_time none = false
bad_time (some (hh, mm)) = not (leb hh 23 && leb mm 59)

abbrev pub minute_of : ClockTime → Option ℕ
minute_of none = none
minute_of (some (hh, mm)) = some (hh * 60 + mm)

-- what `create_reminder` is asked for
pub record Request : Type 0 where
  pub chat_id : ℕ
  pub text : String
  pub when_iso : Stamp Moment
  pub repeat : Repeat
  pub interval_minutes : ℕ
  pub window_start : ClockTime
  pub window_end : ClockTime

is_known : Repeat → Bool
is_known (other_rule _) = false
is_known _ = true

-- the tests before anything is stored
unfoldable pub acceptable : Request → Bool
unfolding is_known is_interval
acceptable q =
    is_known q.repeat
    && (not (is_interval q.repeat)
        || (leb min_interval_minutes q.interval_minutes
            && not (bad_time q.window_start)
            && not (bad_time q.window_end)))

unfoldable pub apply_interval_fields : String → Request → Records → Records
apply_interval_fields id q = update id_of id λ (r : Reminder). record r {
  rule = record {
    repeat = r.repeat;
    interval_minutes = q.interval_minutes;
    window_start = minute_of q.window_start;
    window_end = minute_of q.window_end;
  };
}

-- the record as stored, with the store
stored : String → Request → Records → Option Reminder × Records
stored id q records =
    let bare : Rule = record {
      repeat = q.repeat;
      interval_minutes = 0;
      window_start = none;
      window_end = none;
    } in
    let (r, rs) = add id q.chat_id q.text q.when_iso bare records in
    let rs' = apply_interval_fields id q rs in
    if is_interval q.repeat then (get id rs', rs') else (some r, rs)

with_record : Reminder → Option World → Option (Reminder × World)
with_record r none = none
with_record r (some w) = some (r, w)

scheduled : Clock → World → Option Reminder × Records → Option (Reminder × World)
scheduled clock w (none, rs) = none
scheduled clock w (some r, rs) = with_record r (schedule_record clock r (record w { records = rs }))

is_parsed : Option Moment → Bool
is_parsed none = false
is_parsed (some _) = true

-- `create_reminder`; the new id is the caller's
unfoldable pub create_reminder : Clock → String → Request → World → Option (Reminder × World)
unfolding stored scheduled with_record is_parsed
create_reminder clock id q w =
    if is_parsed (parse_when q.when_iso) && acceptable q
    then scheduled clock w (stored id q w.records)
    else none

-- `_cancel_fn`
unfoldable pub unschedule : String → World → World
unschedule id w = record w { jobs = keep (λ (j : Job). not (str_eq j.id id)) w.jobs }

-- `next(r for r in pending if r.id.startswith(wanted))`
starts_in : String → Records → Option Reminder
starts_in wanted [] = none
starts_in wanted (r ∷ rs) = if starts_with r.id wanted then some r else starts_in wanted rs

moved : Clock → Moment → World → Option Reminder → Option ((Option Reminder × Stamp Moment) × World)
moved clock when w none = none
moved clock when w (some r) =
    let rs = roll_forward r.id (moment when) clock.utc w.records in
    some
      ((get r.id rs, r.when_iso), schedule r.id when (unschedule r.id (record w { records = rs })))

-- `reschedule_reminder`, with the prefix in lower case: the record and its time before
unfoldable pub reschedule_reminder :
    Clock → ℕ → String → Stamp Moment → World → Option ((Option Reminder × Stamp Moment) × World)
unfolding starts_in moved
reschedule_reminder clock chat_id wanted when_iso w = elim (parse_when when_iso) [
  | none ↦ none
  | some when ↦ moved clock when w (starts_in wanted (list_pending (some chat_id) w.records))
]

-- `record.get("claimed_at") or record.get("delivered_at")`
delivery_stamp : Reminder → Stamp ℕ
delivery_stamp r = elim r.claimed_at [ blank ↦ r.delivered_at | stamp ↦ stamp ]

later_of : Reminder → ℕ → Option (Reminder × ℕ) → Option (Reminder × ℕ)
later_of r at none = some (r, at)
later_of r at (some (best, best_at)) = if ltb best_at at then some (r, at) else some (best, best_at)

-- one record of the loop for the delivery that a snooze is about
consider : ℕ → ℕ → Reminder → Option (Reminder × ℕ) → Option (Reminder × ℕ)
consider utc chat_id r best = elim (delivery_stamp r) [
  | moment at ↦
      if r.chat_id == chat_id && (r.sent || not (is_once r.repeat)) && leb utc (at + 2700)
      then later_of r at best
      else best
  | _ ↦ best
]

last_delivered : ℕ → ℕ → Option (Reminder × ℕ) → Records → Option (Reminder × ℕ)
last_delivered utc chat_id best [] = best
last_delivered utc chat_id best (r ∷ rs) =
    last_delivered utc chat_id (consider utc chat_id r best) rs

-- the mode of a snooze, with the time that a moved reminder had
pub data Snoozed : Type 0 where
  moved_from : Option Reminder → Stamp Moment → Snoozed
  cloned : Reminder → Snoozed

clone_of : Clock → String → ℕ → Moment → World → Option (Reminder × ℕ) → Option (Snoozed × World)
clone_of clock id chat_id when w none = none
clone_of clock id chat_id when w (some (recent, _)) =
    let q : Request = record {
      chat_id = chat_id;
      text = recent.text;
      when_iso = moment when;
      repeat = once;
      interval_minutes = 0;
      window_start = none;
      window_end = none;
    } in
    elim (create_reminder clock id q w) [ none ↦ none | some (r, w') ↦ some (cloned r, w') ]

moved_result : Option ((Option Reminder × Stamp Moment) × World) → Option (Snoozed × World)
moved_result none = none
moved_result (some ((r, prior), w)) = some (moved_from r prior, w)

-- `snooze_reminder`
unfoldable pub snooze_reminder : Clock → String → ℕ → ℕ → String → World → Option (Snoozed × World)
unfolding clone_of moved_result last_delivered consider later_of delivery_stamp
snooze_reminder clock id chat_id minutes wanted w =
    let when = add_seconds clock.now (60 * minutes) in
    if not (leb 1 minutes && leb minutes 1440)
    then none
    else if str_eq wanted ""
    then clone_of clock id chat_id when w (last_delivered clock.utc chat_id none w.records)
    else moved_result (reschedule_reminder clock chat_id wanted (moment when) w)

unfoldable pub cancel_reminder : String → World → Bool × World
cancel_reminder id w =
    let (changed, rs) = cancel id w.records in (changed, unschedule id (record w { records = rs }))
