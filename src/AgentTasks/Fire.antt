-- ===== src/AgentTasks/Fire.antt =====
-- `fire` of src/kyraan/triggers/agent_tasks.py as one step: what its awaits come to is `Outside`.
pub mod MovesOn
pub mod Single
use kyraan.Base.{
  ℕ, zero, suc, ◌+◌, ◌-◌, ◌*◌, String, Bool, true, false, not, ◌&&◌, ◌||◌, Option, none, some, List,
  [], ◌∷◌, ◌++◌, ltb, leb, ◌==◌, str_eq, starts_with, keep, length, if◌then◌else◌,
}
use kyraan.Base.Table.{find, update}
use kyraan.Calendar.{Moment, seconds, add_seconds}
use kyraan.Schedule.{Repeat, interval, once, other_rule, advance_occurrence, bind}
use kyraan.Reminders.{Stamp, moment}
use kyraan.Reminders.Fire.{is_once}
use kyraan.Reminders.Manage.{parse_when}
use kyraan.AgentTasks.{
  AgentTask, TaskJob, TaskMessage, Desk, Outside, task_id_of, list_active, is_task_repeat, retire,
  matches, matches_exactly, is_some_task, cancel, advance, schedule_fn, schedule_redelivery,
  retry_later, set_pending_result, catch_up, is_before, is_not_after, rounds, placed, schedule_when,
  schedule,
}

message : AgentTask → String → Bool → Desk → Desk
message t text may_repeat d = record d {
  messages = record { chat_id = t.chat_id; text = text; may_repeat = may_repeat } ∷ d.messages;
}

-- `cancel(task.id)`
cancelled : String → Desk → Option Desk
cancelled id d = bind (cancel id d.tasks) λ r. some (record d { tasks = r.1 })

-- a failure of the run or of the send: a single task tries again later
retry_single : Outside → AgentTask → ℕ → Desk → Desk
retry_single o t minutes d = if is_once t.repeat then retry_later o.now t.id minutes d else d

-- a result that is not delivered
redeliver_later : Outside → AgentTask → Desk → Desk
redeliver_later o t d =
    if is_once t.repeat then retry_later o.now t.id 5 d else schedule_redelivery o.now t.id 5 d

-- a single task retires once it is done
done : AgentTask → Desk → Option Desk
done t d = if is_once t.repeat then cancelled t.id d else some d

-- the send of a fresh result
deliver : Outside → AgentTask → String → Desk → Option Desk
deliver o t text d =
    if o.delivers
    then done t (message t text false d)
    else some (redeliver_later o t (set_pending_result t.id text d))

-- what the model came to
settle_run : Outside → AgentTask → Desk → Option String → Option Desk
settle_run o t d none = some (retry_single o t 15 d)
settle_run o t d (some text) =
    if o.is_blank text then some (retry_single o t 15 d) else deliver o t text d

-- `_run_fn(task.chat_id, task.instruction)` and what follows
run_fresh : Outside → AgentTask → Desk → Option Desk
run_fresh o t d = settle_run o t (record d { runs = (t.chat_id, t.instruction) ∷ d.runs }) o.outcome

or_task : AgentTask → Option AgentTask → AgentTask
or_task t none = t
or_task t (some t') = t'

-- the send of a stashed result, after which a series goes on with its fresh run
redeliver : Outside → Bool → AgentTask → Desk → Option Desk
redeliver o redeliver_only t d =
    let d2 = set_pending_result t.id "" (message t t.pending_result true d) in
    if not o.redelivers
    then some (redeliver_later o t d)
    else if is_once t.repeat
    then cancelled t.id d2
    else if redeliver_only
    then some d2
    else run_fresh o (or_task t (find task_id_of t.id d2.tasks)) d2

-- quiet hours: a single task waits, and a stashed result stays alive
held : Outside → Bool → AgentTask → Desk → Desk
held o redeliver_only t d =
    if is_once t.repeat && not redeliver_only
    then retry_later o.now t.id 30 d
    else if not (is_once t.repeat) && not (str_eq t.pending_result "")
    then schedule_redelivery o.now t.id 30 d
    else d

-- `fire` past the proactive gate; a redelivery without a stash is stale
opened : Outside → Bool → AgentTask → Desk → Option Desk
opened o redeliver_only t d =
    if redeliver_only && str_eq t.pending_result ""
    then some d
    else if not (str_eq t.pending_result "")
    then redeliver o redeliver_only t d
    else run_fresh o t d

-- `fire` from the proactive gate on
gated : Outside → Bool → AgentTask → Desk → Option Desk
gated o redeliver_only t d =
    if not o.allowed then some (held o redeliver_only t d) else opened o redeliver_only t d

-- a series moves on before anything else
move_on : Outside → AgentTask → Desk → Option Desk
move_on o t d = bind (parse_when t.when_iso) λ when.
    bind (advance_occurrence when t.repeat)
      λ next. bind (catch_up (rounds o.now next) (is_not_after o.now) t.repeat next) (placed t.id d)

fire_task : Outside → Bool → AgentTask → Desk → Option Desk
fire_task o redeliver_only t d =
    if not (is_once t.repeat) && not redeliver_only
    then bind (move_on o t d) (gated o redeliver_only t)
    else gated o redeliver_only t d

fire_found : Outside → Bool → Desk → Option AgentTask → Option Desk
fire_found o redeliver_only d none = some d
fire_found o redeliver_only d (some t) = fire_task o redeliver_only t d

-- `fire`; `none` is an exception that escapes
unfoldable pub fire : String → Bool → Outside → Desk → Option Desk
unfolding fire_found fire_task move_on placed gated opened held redeliver or_task run_fresh
    settle_run deliver done redeliver_later retry_single cancelled message catch_up
fire id redeliver_only o d =
    fire_found o redeliver_only d (find task_id_of id (list_active none d.tasks))
