-- ===== src/Lib.antt =====
-- Kyraan: a model of the part of the assistant that decides what may act and when.
--
-- - Registry (src/kyraan/tools/registry.py): `ToolSpec`, `_validate`, `load`, `get`,
--   `contracts`, `error_name`. A configuration
--   becomes a list of tools or the first fault.
-- - Kernel (src/kyraan/control_plane/kernel.py, dnd.py): `run_tool`, `run_skill`, the viewer, and the
--   gate of proactive messages. Tool calls go through `Kernel.Tool.run_tool`: the tool is looked up in
--   the registry, the gates and the step rail are passed, the arguments checked, the adapter called up
--   to `retries + 1` times, and a failure treated by the tool's policy, with one fallback hop.
-- - Calendar: what scheduler.py asks of Python's `datetime`, written out: Gregorian dates, ordinals,
--   adding days and seconds.
-- - Schedule (src/kyraan/triggers/scheduler.py): `advance_occurrence`, `advance_for`,
--   `advance_past_now`, `pings_per_day`.
-- - Reminders.Store (src/kyraan/triggers/store.py): the reminder file and the delivery lease.
-- - Reminders.Fire: `fire` of scheduler.py, which joins the store, the gate and the recurrence. It is
--   two functions, before and after the await of the send, since others may run meanwhile.
-- - Reminders.Manage: `init`, `_schedule`, `find_duplicate`, `create_reminder`, `reschedule_reminder`,
--   `snooze_reminder`, `cancel_reminder` of scheduler.py.
-- - AgentTasks (src/kyraan/triggers/agent_tasks.py): the task file and its jobs; `AgentTasks.Fire`:
--   `fire` as one step, with what the gate, the model and the sends come to as an argument.
-- - EventRules (src/kyraan/triggers/event_rules.py): watch rules, their memory, and `tick`.
-- - Goals (src/kyraan/triggers/goals.py): the goal file; `Goals.Update`: `update`;
--   `Goals.Cycle`: `fire`, the work cycle.
-- - Mirror (src/kyraan/store/promises.py, sync_state.py, and `_save_all`, `_records_for_read` of
--   src/kyraan/triggers/store.py): the copy of a JSON store in the database, its marks and its breaker.
-- - Sessions (src/kyraan/agents/session.py, src/kyraan/store/redis_kv.py): a chat's window, backlog and
--   rolling summary; `Sessions.Log`: the chat log, its redactions (src/kyraan/agents/secrets.py) and what
--   a restart seeds from it; `Sessions.Secrets`: `redact_recent`.
-- - Models (src/kyraan/model_router/router.py): the cost ledger and its alerts; `Models.Call`: `call` with
--   its gates, attempts and cooldowns.
-- - Reviews (src/kyraan/memory/review_scaling.py): which memory proposals a human must see.
-- - Memory (src/kyraan/memory/engine.py, store.py, conflicts.py, consolidate.py and
--   src/kyraan/store/facts.py): `Memory.Index`, the operations on the index of facts, `Memory.Index.Add`
--   the one that adds; `Memory.Facts`, the table that copies the index, with the breaker and the mark of
--   sync_state.py; `Memory.Context`, the query and the block of a prompt; `Memory.Queue`, proposals and
--   dispute notices, `Memory.Queue.Decide` the decisions; `Memory.Scan`, the nightly scans. The index
--   takes its author from `Kernel.Viewer`, the queue its holds from `Reviews`, the table its mark from
--   `Mirror`.
--
-- State is passed explicitly, an exception is a constructor of the result or `none`, and each file says
-- how its definitions correspond to the code. A call of the code outside (an adapter, the stored
-- grants, `json.dumps`, `fromisoformat` on an argument) is a field of `Kernel.Context.Context` or an
-- argument; nothing is assumed of it.
--
-- Bounds. `skip_weekend` has two steps of fuel, since no three days in a row are weekend
-- (`weekday-skip_weekend`); `Schedule.catch_up` has the code's own bound of 5000 rounds;
-- `AgentTasks.catch_up` has a round for every second that is missed, and each round moves on by one at
-- least (`catch_up-IsLater`); a call of a model has the code's three attempts. All else is structural.
--
-- What is left out. Times are whole seconds in one zone of fixed offset; the clock is read once per
-- operation; dates have no last year; retries are natural numbers. The reminder file is read and
-- written without fault; `Mirror` has the copy of it in the database, which no other part reads.
-- Configuration is read once and is valid where a theorem says so. Logs keep what identifies an event.
-- A call of a model that overlaps with others is two steps, its gates and its attempts: the bills of one
-- call's attempts are not interleaved with those of another's.
-- Money is counted in whole units of the ledger; a list in Redis does not expire; what Python makes of a
-- text (case, regular expressions, hashes) is an argument.
-- The index of facts is read and written without fault; what a text's words are, and what the database's
-- search finds, are arguments; a row's key, a hash of the entry's id, is the id; scores count
-- ten-thousandths, and a similarity below zero is none. The Markdown tree, the migration from it, the
-- sweeps of episodes and documents and the graph of triples are not modelled, nor are channels, prompts
-- but for the memory block, extraction, the panel and the adapters.
pub mod Base
pub mod AgentTasks
pub mod Calendar
pub mod EventRules
pub mod Goals
pub mod Kernel
pub mod Memory
pub mod Mirror
pub mod Models
pub mod Registry
pub mod Reminders
pub mod Reviews
pub mod Schedule
pub mod Sessions
pub mod Tests
