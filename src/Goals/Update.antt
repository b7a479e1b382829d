-- ===== src/Goals/Update.antt =====
-- `update` of goals.py: steps checked off or reopened by their words, added steps and notes.
use kyraan.Base.{
  ℕ, String, Bool, true, false, not, ◌&&◌, Option, none, some, List, [], ◌∷◌, ◌++◌, length, keep,
  ◌==◌, str_eq, if◌then◌else◌,
}
use kyraan.Base.Table.{find}
use kyraan.Schedule.{bind}
use kyraan.Goals.{Step, Goal, Plan, Texts, goal_id_of, resolve, mutate}

-- `[s for s in row["steps"] if ...]`
abbrev pub hits : (Step → Bool) → Goal → List Step
hits p g = keep p g.steps

-- sets `done` on the first step that fits
unfoldable pub check_first : (Step → Bool) → Bool → List Step → List Step
check_first p is_done [] = []
check_first p is_done (st ∷ sts) =
    let rest = check_first p is_done sts in
    if p st then record st { is_done = is_done } ∷ sts else st ∷ rest

-- exactly one step fits, or a ValueError
unfoldable pub check_one : (Step → Bool) → Bool → Goal → Option Goal
check_one p is_done g =
    if length (hits p g) == 1
    then some (record g { steps = check_first p is_done g.steps })
    else none

abbrev pub open_step : Texts → String → Step → Bool
open_step py wanted st = not st.is_done && py.mentions wanted st.text

abbrev pub done_step : Texts → String → Step → Bool
done_step py wanted st = st.is_done && py.mentions wanted st.text

-- what `update` is asked for; "" is left out
pub record Change : Type 0 where
  pub step_done : String
  pub add_step : String
  pub note : String
  pub reopen_step : String

-- `cut n s` is `s[:n]`
module _ (py : Texts) (cut : ℕ → String → String) where
  checked : Change → Goal → Option Goal
  checked q g =
      if str_eq q.step_done ""
      then some g
      else check_one (open_step py (py.folded q.step_done)) true g

  reopened : Change → Goal → Option Goal
  reopened q g =
      if str_eq q.reopen_step ""
      then some g
      else check_one (done_step py (py.folded q.reopen_step)) false g

  added : Change → Goal → Goal
  added q g = if str_eq q.add_step "" then g else record g {
    steps = g.steps ++ record { text = cut 200 (py.strip q.add_step); is_done = false } ∷ [];
  }

  noted : Change → Goal → Goal
  noted q g =
      if str_eq q.note ""
      then g
      else record g { journal = g.journal ++ cut 1500 (py.strip q.note) ∷ [] }

  -- `apply`
  unfoldable pub apply_change : Change → Goal → Option Goal
  unfolding checked reopened added noted
  apply_change q g =
      bind (checked q g) (λ g'. bind (reopened q g') (λ g''. some (noted q (added q g''))))

  is_blank : Change → Bool
  is_blank q =
      str_eq q.step_done "" && str_eq q.add_step "" && str_eq q.note "" && str_eq q.reopen_step ""

  -- `fn(row)`, which changes the row in place or raises
  or_row : Goal → Option Goal → Goal
  or_row row none = row
  or_row row (some row') = row'

  unfoldable pub in_place : (Goal → Option Goal) → Goal → Goal
  unfolding or_row
  in_place f row = or_row row (f row)

  -- `_mutate` with a function that may raise: then the file is not written
  unfoldable pub mutate_row : String → (Goal → Option Goal) → Plan → Option Plan
  mutate_row id f p =
      bind (find goal_id_of id p.goals)
        (λ row. bind (f row) (λ _. some (record p { goals = mutate id (in_place f) p.goals })))

  unfoldable pub update : ℕ → String → Change → Plan → Option Plan
  unfolding is_blank
  update chat_id ref q p =
      bind (resolve py chat_id ref p.goals)
        (λ g. if is_blank q then none else mutate_row g.id (apply_change q) p)
