-- ===== src/AgentTasks.antt =====
-- src/kyraan/triggers/agent_tasks.py: instructions that run later, with read-only tools, and whose
-- result is sent to the chat. The task file and its jobs: `create`, `cancel` and `init`.
pub mod Fire
use kyraan.Base.{
  ℕ, zero, suc, ◌+◌, ◌-◌, ◌*◌, String, Bool, true, false, not, ◌&&◌, ◌||◌, Option, none, some, List,
  [], ◌∷◌, ◌++◌, ltb, leb, ◌==◌, str_eq, starts_with, keep, length, if◌then◌else◌,
}
use kyraan.Base.Table.{find, update}
use kyraan.Calendar.{Moment, seconds, add_seconds}
use kyraan.Schedule.{Repeat, interval, once, other_rule, advance_occurrence, bind}
use kyraan.Reminders.{Stamp, moment}
use kyraan.Reminders.Fire.{is_once}
use kyraan.Reminders.Manage.{parse_when}

pub record AgentTask : Type 0 where
  pub id : String
  pub chat_id : ℕ
  pub instruction : String
  pub when_iso : Stamp Moment
  pub repeat : Repeat
  pub active : Bool
  pub pending_result : String

-- a call of the channel's scheduler
pub record TaskJob : Type 0 where
  pub task_id : String
  pub due : Moment
  pub redeliver_only : Bool

-- a message that the channel sent without raising; `may_repeat` is the suffix that says so
pub record TaskMessage : Type 0 where
  pub chat_id : ℕ
  pub text : String
  pub may_repeat : Bool

-- the task file, the jobs, the runs of the model and the messages, each newest first
pub record Desk : Type 0 where
  pub tasks : List AgentTask
  pub jobs : List TaskJob
  pub runs : List (ℕ × String)
  pub messages : List TaskMessage

-- The clock, the proactive gate, whether a stashed result is sent, what the model comes to (`none` is
-- an exception), which results are blank, and whether a fresh result is sent.
pub record Outside : Type 0 where
  pub now : Moment
  pub allowed : Bool
  pub redelivers : Bool
  pub outcome : Option String
  pub is_blank : String → Bool
  pub delivers : Bool

abbrev pub task_id_of : AgentTask → String
task_id_of t = t.id

unfoldable pub list_active : Option ℕ → List AgentTask → List AgentTask
list_active chat_id tasks =
    let active = keep (λ (t : AgentTask). t.active) tasks in
    elim chat_id [ none ↦ active | some c ↦ keep (λ (t : AgentTask). t.chat_id == c) active ]

-- `repeat in TASK_REPEATS`
is_task_repeat : Repeat → Bool
is_task_repeat interval = false
is_task_repeat (other_rule _) = false
is_task_repeat _ = true

-- `for record in matches: record["active"] = False`, on the records that the test picks out
retire : (AgentTask → Bool) → List AgentTask → List AgentTask
retire picked [] = []
retire picked (t ∷ ts) = (if picked t then record t { active = false } else t) ∷ retire picked ts

abbrev pub matches : String → AgentTask → Bool
matches wanted t = t.active && starts_with t.id wanted

abbrev pub matches_exactly : String → AgentTask → Bool
matches_exactly wanted t = matches wanted t && str_eq t.id wanted

is_some_task : List AgentTask → Bool
is_some_task [] = false
is_some_task _ = true

-- `cancel`: `none` is the ValueError of an ambiguous prefix
unfoldable pub cancel : String → List AgentTask → Option (Bool × List AgentTask)
unfolding retire is_some_task
cancel wanted tasks =
    if leb (length (keep (matches wanted) tasks)) 1
    then some (is_some_task (keep (matches wanted) tasks), retire (matches wanted) tasks)
    else if is_some_task (keep (matches_exactly wanted) tasks)
    then some (true, retire (matches_exactly wanted) tasks)
    else none

-- `_advance`
abbrev pub advance : String → Moment → Desk → Desk
advance id next d = record d {
  tasks = update task_id_of id (λ (t : AgentTask). record t { when_iso = moment next }) d.tasks;
}

abbrev pub schedule_fn : String → Moment → Bool → Desk → Desk
schedule_fn id due redeliver_only d = record d {
  jobs = record { task_id = id; due = due; redeliver_only = redeliver_only } ∷ d.jobs;
}

abbrev pub schedule_redelivery : Moment → String → ℕ → Desk → Desk
schedule_redelivery now id minutes d = schedule_fn id (add_seconds now (60 * minutes)) true d

abbrev pub retry_later : Moment → String → ℕ → Desk → Desk
retry_later now id minutes d =
    let due = add_seconds now (60 * minutes) in schedule_fn id due false (advance id due d)

abbrev pub set_pending_result : String → String → Desk → Desk
set_pending_result id text d = record d {
  tasks = update task_id_of id (λ (t : AgentTask). record t { pending_result = text }) d.tasks;
}

-- `while test(when): when = advance_occurrence(when, repeat)`, on fuel
pub catch_up : ℕ → (Moment → Bool) → Repeat → Moment → Option Moment
catch_up zero past repeat when = some when
catch_up (suc fuel) past repeat when =
    if past when
    then elim (advance_occurrence when repeat) [
      | none ↦ none
      | some next ↦ catch_up fuel past repeat next
    ]
    else some when

-- `when < now`, `when <= now`
abbrev pub is_before : Moment → Moment → Bool
is_before now when = ltb (seconds when) (seconds now)

abbrev pub is_not_after : Moment → Moment → Bool
is_not_after now when = not (ltb (seconds now) (seconds when))

-- enough fuel: each round moves on by a second at least
abbrev pub rounds : Moment → Moment → ℕ
rounds now when = suc (seconds now - seconds when)

placed : String → Desk → Moment → Option Desk
placed id d next = some (schedule_fn id next false (advance id next d))

schedule_when : Moment → AgentTask → Desk → Moment → Option Desk
schedule_when now t d when =
    if not (is_before now when)
    then some (schedule_fn t.id when false d)
    else if is_once t.repeat
    then some (schedule_fn t.id now false d)
    else bind (catch_up (rounds now when) (is_before now) t.repeat when) (placed t.id d)

-- `_schedule`
unfoldable pub schedule : Moment → AgentTask → Desk → Option Desk
unfolding catch_up placed schedule_when
schedule now t d = bind (parse_when t.when_iso) (schedule_when now t d)

-- `create`; the new id is the caller's
unfoldable pub create :
    Moment → String → ℕ → String → Stamp Moment → Repeat → Desk → Option (AgentTask × Desk)
unfolding is_task_repeat
create now id chat_id instruction when_iso repeat d =
    let t : AgentTask = record {
      id = id;
      chat_id = chat_id;
      instruction = instruction;
      when_iso = when_iso;
      repeat = repeat;
      active = true;
      pending_result = "";
    } in
    if not (is_task_repeat repeat)
    then none
    else bind (schedule now t (record d { tasks = d.tasks ++ t ∷ [] })) λ d'. some (t, d')

-- one round of the loop of `init`
start : Moment → AgentTask → Desk → Desk
start now t d =
    let d' : Desk = elim (schedule now t d) [ none ↦ d | some d' ↦ d' ] in
    if not (is_once t.repeat) && not (str_eq t.pending_result "")
    then schedule_redelivery now t.id 2 d'
    else d'

start_all : Moment → List AgentTask → Desk → Desk
start_all now [] d = d
start_all now (t ∷ ts) d = start_all now ts (start now t d)

unfoldable pub init : Option ℕ → Moment → Desk → Desk
unfolding start start_all
init only_chat now d = start_all now (list_active only_chat d.tasks) d
