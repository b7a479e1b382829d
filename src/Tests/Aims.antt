-- ===== src/Tests/Aims.antt =====
-- A run of goals.py's `create` on an empty file.
use kyraan.Base.Table.{find}
use kyraan.Goals.Cycle.{Cycle}
use kyraan.Goals.Cycle.Counts.{cycles_on}
use kyraan.Goals.Cycle.Cap.{runs, cycles_capped}
use kyraan.Base.{List, String, ◌+◌, arith, none, true, false, ◌≤◌, refl, some, [], ◌∷◌}
use kyraan.Reminders.{moment}
use kyraan.Goals.{active, Goal, Plan, Texts, Aim}
use kyraan.Tests.Times.{march_1}

abbrev py : Texts
py = record { strip = λ s. s; folded = λ s. s; mentions = λ _ _. false; chars = λ _. 10 }

abbrev spanish : Aim
spanish = record {
  chat_id = 7;
  person = "";
  stage = "";
  title = "learn Spanish";
  steps = [];
  cadence_hours = 0;
}

abbrev learning : Goal
learning = record {
  id = "g1";
  chat_id = 7;
  person = "owner";
  stage = "owner";
  title = "learn Spanish";
  steps = [];
  status = active;
  cadence_hours = 24;
  journal = [];
  cycles_today = 0;
  cycles_date = "";
  unreported = "";
  next_cycle =
      moment (record { date = record { year = 2028; month = 3; day = 2 }; second = 36000 });
}

abbrev nothing : Plan
nothing = record { goals = []; jobs = [] }

abbrev one : Plan
one = record {
  goals = learning ∷ [];
  jobs =
      record {
        goal_id = "g1";
        due = record { date = record { year = 2028; month = 3; day = 2 }; second = 36000 };
      }
      ∷ [];
}

abbrev cycle : Cycle
cycle = record {
  now = march_1;
  today = "2028-03-01";
  may_send = true;
  finding = some (record { text = "a course starts"; done = none; adds = [] });
  delivered = true;
}

-- the same goal fires three times on one day
abbrev three : List (String × Cycle)
three = ("g1", cycle) ∷ ("g1", cycle) ∷ ("g1", cycle) ∷ []

cycles_capped_example :
    runs py (λ _ s. s) (λ s. s) "2028-03-01" "g1" three one + cycles_on "2028-03-01" "g1" one ≤ 2
unfolding find
cycles_capped_example =
    cycles_capped py (λ _ s. s) (λ s. s) "2028-03-01" "g1" three one (refl, (refl, (refl, tt)))
      (omega arith)
