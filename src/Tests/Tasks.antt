-- ===== src/Tests/Tasks.antt =====
-- Runs of agent_tasks.py's `fire` on a task file with a series and a single task.
use kyraan.Base.{◌≡◌, refl, true, false, none, some, [], ◌∷◌}
use kyraan.Base.Table.{find}
use kyraan.Schedule.{once, weekly}
use kyraan.Reminders.{moment}
use kyraan.AgentTasks.{AgentTask, Desk, Outside, list_active, cancel}
use kyraan.AgentTasks.Fire.{fire}
use kyraan.AgentTasks.Fire.Single.{Kept, fire_keeps_single}
use kyraan.Tests.Times.{january_31, march_1, march_1-IsValid}

abbrev digest : AgentTask
digest = record {
  id = "ab12";
  chat_id = 7;
  instruction = "news of the week";
  when_iso = moment january_31;
  repeat = weekly;
  active = true;
  pending_result = "last week's news";
}

abbrev flight : AgentTask
flight = record {
  id = "ab34";
  chat_id = 7;
  instruction = "check the flight";
  when_iso = moment march_1;
  repeat = once;
  active = true;
  pending_result = "";
}

abbrev desk : Desk
desk = record { tasks = digest ∷ flight ∷ []; jobs = []; runs = []; messages = [] }

-- the model answers, and the stashed result is not sent again
abbrev evening : Outside
evening = record {
  now = march_1;
  allowed = true;
  redelivers = false;
  outcome = some "on time";
  is_blank = λ _. false;
  delivers = true;
}

-- two active tasks start with "ab"
ambiguous_prefix : cancel "ab" desk.tasks ≡ none
unfolding cancel
ambiguous_prefix = refl

fire_keeps_single_example : Kept evening flight desk (fire "ab34" false evening desk)
unfolding find list_active
fire_keeps_single_example = fire_keeps_single evening desk flight march_1-IsValid refl refl
