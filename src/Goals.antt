-- ===== src/Goals.antt =====
-- The goal file of src/kyraan/triggers/goals.py: finding, creating and pausing goals, and the jobs of
-- their work cycles. What Python makes of a text is a parameter. `none` is a ValueError.
pub mod Cap
pub mod Update
pub mod Cycle
use Prim.Native.Nat.{min, max}
use kyraan.Base.{
  ℕ, ◌+◌, ◌*◌, String, Bool, true, false, not, ◌&&◌, ◌||◌, Option, none, some, List, [], ◌∷◌, ◌++◌,
  map, ltb, leb, ◌==◌, str_eq, starts_with, keep, length, if◌then◌else◌,
}
use kyraan.Base.Table.{find}
use kyraan.Calendar.{Moment, seconds, add_seconds}
use kyraan.Schedule.{bind}
use kyraan.Reminders.{Stamp, moment}

pub data Status : Type 0 where
  active paused done : Status

-- A step's note is left out, as is the time of a journal entry.
pub record Step : Type 0 where
  pub text : String
  pub is_done : Bool

pub record Goal : Type 0 where
  pub id : String
  pub chat_id : ℕ
  pub person : String
  pub stage : String
  pub title : String
  pub steps : List Step
  pub status : Status
  pub cadence_hours : ℕ
  pub next_cycle : Stamp Moment
  pub journal : List String
  pub cycles_today : ℕ
  pub cycles_date : String
  pub unreported : String

pub record GoalJob : Type 0 where
  pub goal_id : String
  pub due : Moment

pub record Plan : Type 0 where
  pub goals : List Goal
  pub jobs : List GoalJob

-- `strip`, `strip().lower()`, `ref in title.lower()`, and the length of a text
pub record Texts : Type 0 where
  pub strip : String → String
  pub folded : String → String
  pub mentions : String → String → Bool
  pub chars : String → ℕ

abbrev pub max_active_per_person : ℕ
max_active_per_person = 3

abbrev pub goal_id_of : Goal → String
goal_id_of g = g.id

abbrev pub same_status : Status → Status → Bool
same_status active active = true
same_status paused paused = true
same_status done done = true
same_status _ _ = false

-- `list_for`
abbrev pub is_listed : ℕ → Option Status → Goal → Bool
is_listed chat_id none g = g.chat_id == chat_id
is_listed chat_id (some status) g = g.chat_id == chat_id && same_status g.status status

unfoldable pub list_for : ℕ → Option Status → List Goal → List Goal
list_for chat_id status = keep (is_listed chat_id status)

only : List Goal → Option Goal
only (g ∷ []) = some g
only _ = none

is_none : List Goal → Bool
is_none [] = true
is_none _ = false

-- `resolve`: the goals whose id starts with the words, or else those whose title has them
unfoldable pub resolve : Texts → ℕ → String → List Goal → Option Goal
unfolding only is_none
resolve py chat_id ref goals =
    let mine = keep (λ (g : Goal). g.chat_id == chat_id && not (same_status g.status done)) goals in
    let by_id = keep (λ (g : Goal). starts_with g.id (py.folded ref)) mine in
    let by_title = keep (λ (g : Goal). py.mentions (py.folded ref) g.title) mine in
    only (if is_none by_id then by_title else by_id)

-- `_mutate`: the first record of the id
unfoldable pub mutate : String → (Goal → Goal) → List Goal → List Goal
mutate id f [] = []
mutate id f (g ∷ gs) = let rest = mutate id f gs in if str_eq g.id id then f g ∷ gs else g ∷ rest

-- when the next cycle is due; one that has passed runs in five minutes
due_of : Moment → Goal → Moment
due_of now g = elim g.next_cycle [
  | moment when ↦ if ltb (seconds when) (seconds now) then add_seconds now (5 * 60) else when
  | _ ↦ add_seconds now (g.cadence_hours * 3600)
]

-- `_schedule`
unfoldable pub schedule : Moment → Goal → Plan → Plan
unfolding due_of
schedule now g p = record p { jobs = record { goal_id = g.id; due = due_of now g } ∷ p.jobs }

-- `x or "owner"`
or_owner : String → String
or_owner s = if str_eq s "" then "owner" else s

-- `int(cadence_hours or 24)`, between half a day and a week
cadence : ℕ → ℕ
cadence hours = max 12 (min (if hours == 0 then 24 else hours) (24 * 7))

-- what `create` is asked for; `steps` are those that are not blank, cut to length
pub record Aim : Type 0 where
  pub chat_id : ℕ
  pub person : String
  pub stage : String
  pub title : String
  pub steps : List String
  pub cadence_hours : ℕ

goal_of : Texts → Moment → String → Aim → Goal
goal_of py now id q = record {
  id = id;
  chat_id = q.chat_id;
  person = or_owner q.person;
  stage = or_owner q.stage;
  title = py.strip q.title;
  steps = map (λ s. record { text = s; is_done = false }) q.steps;
  status = active;
  cadence_hours = cadence q.cadence_hours;
  next_cycle = moment (add_seconds now (cadence q.cadence_hours * 3600));
  journal = [];
  cycles_today = 0;
  cycles_date = "";
  unreported = "";
}

-- `create`; the new id is the caller's
unfoldable pub create : Texts → Moment → String → Aim → Plan → Option (Goal × Plan)
unfolding goal_of or_owner cadence
create py now id q p =
    let size = py.chars (py.strip q.title) in
    if not (leb 3 size && leb size 120)
    then none
    else if leb max_active_per_person (length (list_for q.chat_id (some active) p.goals))
    then none
    else some (
      goal_of py now id q,
      schedule now (goal_of py now id q) (record p { goals = p.goals ++ goal_of py now id q ∷ [] }),
    )

-- `apply` of `set_status`
with_status : Moment → Status → Goal → Goal
with_status now active g = record g {
  status = active;
  next_cycle = moment (add_seconds now (g.cadence_hours * 3600));
}
with_status now status g = record g { status = status }

restart : Moment → Status → String → Plan → Plan
restart now active id p = elim (find goal_id_of id p.goals) [ none ↦ p | some g ↦ schedule now g p ]
restart now _ id p = p

changed : Moment → Status → Plan → Goal → Option (Status × Plan)
changed now status p g =
    if same_status g.status status
    then none
    else some (
      g.status,
      restart now status g.id (record p { goals = mutate g.id (with_status now status) p.goals }),
    )

-- `set_status`: the status before, which feeds the undo
unfoldable pub set_status : Texts → Moment → ℕ → String → Status → Plan → Option (Status × Plan)
unfolding changed restart with_status mutate
set_status py now chat_id ref status p =
    bind (resolve py chat_id ref p.goals) (changed now status p)

start_all : Moment → List Goal → Plan → Plan
start_all now [] p = p
start_all now (g ∷ gs) p = start_all now gs (schedule now g p)

unfoldable pub init : Moment → Plan → Plan
unfolding start_all
init now p = start_all now (keep (λ (g : Goal). same_status g.status active) p.goals) p
