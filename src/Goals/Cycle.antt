-- ===== src/Goals/Cycle.antt =====
-- `fire` of goals.py: one work cycle, as one step. What its awaits come to, and what the regular
-- expressions find in the model's answer, is an argument.
pub mod Counts
pub mod Cap
use kyraan.Base.{
  ℕ, suc, ◌*◌, String, join, Bool, true, false, not, ◌&&◌, ◌||◌, Option, none, some, List, [], ◌∷◌,
  ◌++◌, length, last, keep, any, ltb, leb, ◌==◌, str_eq, str_in, map, if◌then◌else◌,
}
use kyraan.Base.Table.{find}
use kyraan.Calendar.{Moment, add_seconds}
use kyraan.Reminders.{moment}
use kyraan.Goals.{
  Step, Goal, Plan, Texts, Status, active, same_status, goal_id_of, mutate, schedule,
}
use kyraan.Goals.Update.{hits, check_first, open_step, mutate_row}

-- `MAX_CYCLES_PER_DAY`
abbrev pub max_cycles_per_day : ℕ
max_cycles_per_day = 2

-- The model's answer once it is not quiet: its text without the STEP lines, the first STEP_DONE, and at
-- most two STEP_ADD, stripped and cut to 200.
pub record Finding : Type 0 where
  pub text : String
  pub done : Option String
  pub adds : List String

-- A cycle: the clock and its date, the gate, the finding (none where the run raised, an empty one where
-- nothing was new), and whether the report was delivered.
pub record Cycle : Type 0 where
  pub now : Moment
  pub today : String
  pub may_send : Bool
  pub finding : Option Finding
  pub delivered : Bool

abbrev pub on_goals : (List Goal → List Goal) → Plan → Plan
on_goals f p = record p { goals = f p.goals }

-- `_schedule(get(goal_id))`
unfoldable pub schedule_found : Moment → Option Goal → Plan → Plan
schedule_found now none p = p
schedule_found now (some g) p = schedule now g p

unfoldable pub reschedule : Moment → String → Plan → Plan
reschedule now id p = schedule_found now (find goal_id_of id p.goals) p

abbrev pub cycles_of : String → Goal → ℕ
cycles_of today g = if str_eq g.cycles_date today then g.cycles_today else 0

-- the record after the cadence has moved on, without and with a cycle
abbrev pub moved_on : Moment → Goal → Goal → Goal
moved_on now read g = record g { next_cycle = moment (add_seconds now (read.cadence_hours * 3600)) }

abbrev pub counted : Moment → String → Goal → Goal → Goal
counted now today read g = record g {
  next_cycle = moment (add_seconds now (read.cadence_hours * 3600));
  cycles_today = suc (cycles_of today read);
  cycles_date = today;
}

module _ (py : Texts) (cut : ℕ → String → String) (lower : String → String) where
  -- the step that STEP_DONE means: one that has the words, or else one whose words are in it
  unfoldable pub meant : String → Goal → Step → Bool
  meant wanted g st =
      if length (hits (open_step py wanted) g) == 0
      then not st.is_done && py.mentions (lower st.text) wanted
      else open_step py wanted st

  -- `_check`, which raises when no single step is meant; the note names the step
  unfoldable pub settle_step : String → Goal → Option Goal
  unfolding meant
  settle_step wanted g =
      if length (hits (meant wanted g) g) == 1
      then some (record g { steps = check_first (meant wanted g) true g.steps })
      else none

  done_note : String → Option Goal → List String
  done_note wanted none = []
  done_note wanted (some g) =
      map (λ (st : Step). join "✔ step done: " st.text) (hits (meant wanted g) g)

  -- the STEP_DONE line: the notes and the plan, unchanged on a ValueError
  unfoldable pub or_ignored : Plan → Option Plan → Plan
  or_ignored p none = p
  or_ignored p (some p') = p'

  noted_done : Option Plan → List String → List String
  noted_done none notes = []
  noted_done (some _) notes = notes

  unfoldable pub apply_done : String → Option String → Plan → List String × Plan
  unfolding meant done_note noted_done
  apply_done id none p = ([], p)
  apply_done id (some wanted) p =
      let after : Option Plan = mutate_row py cut id (settle_step (py.folded wanted)) p in
      (
        noted_done after (done_note (py.folded wanted) (find goal_id_of id p.goals)),
        or_ignored p after,
      )

  -- the texts of the steps, in lower case
  steps_of : Option Goal → List String
  steps_of none = []
  steps_of (some g) = map (λ (st : Step). lower st.text) g.steps

  -- the STEP_ADD lines: too short or known ones are passed over
  unfoldable pub apply_adds : String → List String → Plan → List String × Plan
  unfolding steps_of
  apply_adds id [] p = ([], p)
  apply_adds id (text ∷ texts) p =
      let skipped : Bool =
        ltb (py.chars text) 4 || str_in (lower text) (steps_of (find goal_id_of id p.goals)) in
      let grown : Plan =
        if skipped
        then p
        else on_goals
            (mutate id (λ (g : Goal). record g {
              steps = g.steps ++ record { text = text; is_done = false } ∷ [];
            }))
            p in
      let (notes, p') : List String × Plan = apply_adds id texts grown in
      (if skipped then notes else join "+ step added: " text ∷ notes, p')

  -- the journal: a finding that its last ten entries hold is dropped
  unfoldable pub apply_finding : Goal → String → Plan → String × Plan
  apply_finding read text p =
      if str_eq text "" || str_in text (last 10 read.journal) then ("", p) else (
        text,
        on_goals
            (mutate read.id (λ (g : Goal). record g { journal = g.journal ++ cut 1500 text ∷ [] }))
            p,
      )

  -- `"\n".join` of what is not empty
  lines_of : List String → String
  lines_of [] = ""
  lines_of (t ∷ ts) =
      let rest : String = lines_of ts in
      if str_eq t "" then rest else if str_eq rest "" then t else join t (join "\n" rest)

  -- the report: what could not be delivered waits for the next cycle
  unfoldable pub report : Goal → Bool → String → Plan → Plan
  report read delivered text p =
      if str_eq text ""
      then p
      else if not delivered
      then on_goals (mutate read.id (λ (g : Goal). record g { unreported = cut 2500 text })) p
      else if str_eq read.unreported ""
      then p
      else on_goals (mutate read.id (λ (g : Goal). record g { unreported = "" })) p

  -- after the run; `read` is the goal as it was at the start
  unfoldable pub keep_books : Goal → Cycle → Option Finding → Plan → Plan
  unfolding lines_of
  keep_books read c none p = p
  keep_books read c (some f) p =
      let (notes, p₁) : List String × Plan = apply_done read.id f.done p in
      let (more, p₂) : List String × Plan = apply_adds read.id f.adds p₁ in
      let (text, p₃) : String × Plan = apply_finding read f.text p₂ in
      report read c.delivered (lines_of (read.unreported ∷ text ∷ lines_of (notes ++ more) ∷ [])) p₃

  -- `fire` of a goal that was found: whether the model was run, and the plan
  unfoldable pub fire_goal : Cycle → Goal → Plan → Bool × Plan
  fire_goal c read p =
      if not (same_status read.status active)
      then (false, p)
      else if leb max_cycles_per_day (cycles_of c.today read)
      then (false, reschedule c.now read.id (on_goals (mutate read.id (moved_on c.now read)) p))
      else (let begun : Plan =
            reschedule c.now read.id (on_goals (mutate read.id (counted c.now c.today read)) p) in
          if not c.may_send then (false, begun) else (true, keep_books read c c.finding begun))

  unfoldable pub fire_found : Cycle → Option Goal → Plan → Bool × Plan
  fire_found c none p = (false, p)
  fire_found c (some read) p = fire_goal c read p

  unfoldable pub fire : String → Cycle → Plan → Bool × Plan
  fire id c p = fire_found c (find goal_id_of id p.goals) p
