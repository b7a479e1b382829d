-- ===== src/Reminders/Fire.antt =====
-- `fire` of scheduler.py, in two parts around the await of the send: other tasks and processes may run
-- the store's operations in between. Jobs and messages are lists, newest first.
pub mod Promise
use kyraan.Base.{
  ℕ, ◌+◌, ◌*◌, String, Bool, true, false, not, Option, none, some, List, [], ◌∷◌, if◌then◌else◌,
}
use kyraan.Calendar.{Moment, add_seconds}
use kyraan.Kernel.Proactive.{Gate, can_send_proactively}
use kyraan.Schedule.{Repeat, once, Rule, advance_past_now}
use kyraan.Reminders.Defs.{Stamp, blank, moment, malformed, Reminder}
use kyraan.Reminders.Store.{Records, get, mark_sent, claim_for_send, release_claim, roll_forward}

-- a call of the channel's scheduler: which reminder, when, and whether its text says that it is late
pub record Job : Type 0 where
  pub id : String
  pub due : Moment
  pub late : Bool

-- a message given to the channel; `may_repeat` is the suffix that says so
pub record Message : Type 0 where
  pub chat_id : ℕ
  pub text : String
  pub may_repeat : Bool

pub record World : Type 0 where
  pub records : Records
  pub jobs : List Job
  pub messages : List Message

-- the local clock, and the UTC clock of the claims
pub record Clock : Type 0 where
  pub now : Moment
  pub utc : ℕ

abbrev pub lease_seconds : ℕ
lease_seconds = 120

abbrev pub schedule : String → Moment → World → World
schedule id due w = record w { jobs = record { id = id; due = due; late = false } ∷ w.jobs }

-- what `fire` does next: nothing, or await the send, with the record that it read
pub data Phase : Type 0 where
  ended : Phase
  sending : Option Reminder → Phase

-- a claim that was refused: watch a live lease, and skip what is sent or gone
deferred : String → Clock → World → Option Reminder → Phase × World
deferred id clock w (some r) =
    if r.sent then (ended, w) else (ended, schedule id (add_seconds clock.now 130) w)
deferred id clock w none = (ended, w)

-- what the suffix goes by: `record is not None and record.takeover`
abbrev pub takes_over : Option Reminder → Bool
takes_over none = false
takes_over (some r) = r.takeover

-- the claim is ours: the quiet hours hold the message back, or it goes out
cleared : Gate → Clock → String → ℕ → String → World → Phase × World
cleared g clock id chat_id text w =
    if (can_send_proactively g false (some chat_id)).0
    then (
      sending (get id w.records),
      record w {
        messages =
            record { chat_id = chat_id; text = text; may_repeat = takes_over (get id w.records) }
            ∷ w.messages;
      },
    )
    else (
      ended,
      schedule id (add_seconds clock.now (15 * 60))
          (record w { records = release_claim id w.records }),
    )

claimed : Gate → Clock → String → ℕ → String → World → Bool × Records → Phase × World
claimed g clock id chat_id text w (true, rs) =
    cleared g clock id chat_id text (record w { records = rs })
claimed g clock id chat_id text w (false, rs) =
    deferred id clock (record w { records = rs }) (get id rs)

-- the first test of `fire`: the record is there, and still owes a send
owed : Option Reminder → Bool
owed none = false
owed (some r) = not r.sent

-- `fire` up to the await of the send
unfoldable pub fire_begin : Gate → Clock → String → ℕ → String → World → Phase × World
unfolding deferred cleared claimed owed
fire_begin g clock id chat_id text w =
    if owed (get id w.records)
    then claimed g clock id chat_id text w (claim_for_send id lease_seconds clock.utc w.records)
    else (ended, w)

-- how the send ends: `delivered is False` is withheld
pub data Delivery : Type 0 where
  delivered withheld failed : Delivery

-- `advance_past_now(record)`; a due time that does not parse is a ValueError
unfoldable pub next_of : Reminder → Moment → Option Moment
next_of r now = elim r.when_iso [ moment base ↦ advance_past_now r.rule base now | _ ↦ none ]

unfoldable pub rolled : String → Clock → World → Option Moment → Option World
rolled id clock w none = none
rolled id clock w (some next) =
    some
      (schedule id next (record w { records = roll_forward id (moment next) clock.utc w.records }))

unfoldable pub is_once : Repeat → Bool
is_once once = true
is_once _ = false

settle_sent : String → Clock → World → Reminder → Option World
settle_sent id clock w r =
    if is_once r.repeat
    then some (record w { records = mark_sent id w.records })
    else rolled id clock w (next_of r clock.now)

-- `fire` after the send, with the record that it read before; `none` is an exception that escapes
-- (a record that was gone when it was read, or a series whose rule or due time is no such thing)
unfoldable pub fire_end : Clock → String → Option Reminder → Delivery → World → Option World
unfolding next_of rolled is_once settle_sent
fire_end clock id r failed w = some (schedule id (add_seconds clock.now 150) w)
fire_end clock id none _ w = none
fire_end clock id (some r) _ w = settle_sent id clock w r
