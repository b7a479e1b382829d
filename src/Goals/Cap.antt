-- ===== src/Goals/Cap.antt =====
-- The number of active goals of a chat, under the operations of goals.py.
use kyraan.Base.{
  ℕ, ◌+◌, ◌≤◌, String, ◌≡◌, inl, inr, Bool, ◌&&◌, Option, none, some, List, [], ◌∷◌, ◌++◌, arith,
  leb, keep, length, Bool-cases,
}
use mathlib.Core.Path.{subst}
use kyraan.Calendar.{Moment}
use kyraan.Goals.{
  active, Goal, Plan, Texts, max_active_per_person, is_listed, list_for, goal_of, Aim, schedule,
  create,
}

length-keep_snoc :
    (p : Goal → Bool) (gs : List Goal) (g : Goal)
    → length (keep p (gs ++ g ∷ [])) ≤ length (keep p gs) + 1
length-keep_snoc p [] g = ground arith
length-keep_snoc p (x ∷ gs) g = ground (arith, length-keep_snoc p gs g)

-- an outcome of `create`
abbrev Capped : ℕ → Option (Goal × Plan) → Type 0
Capped chat_id none = Unit
Capped chat_id (some (g, p)) =
    length (list_for chat_id (some active) p.goals) ≤ max_active_per_person

create-Capped :
    (py : Texts) (now : Moment) (id : String) (q : Aim) (p : Plan)
    → Capped q.chat_id (create py now id q p)
unfolding create list_for schedule
create-Capped py now id q p =
    let size = py.chars (py.strip q.title) in
    elim (Bool-cases (leb 3 size && leb size 120)) [
      | inr odd ↦ simp odd tt
      | inl fine ↦
          elim (Bool-cases (leb 3 (length (keep (is_listed q.chat_id (some active)) p.goals)))) [
            | inl full ↦ simp (fine, full) tt
            | inr room ↦
                let bound =
                  length-keep_snoc (is_listed q.chat_id (some active)) p.goals
                    (goal_of py now id q) in
                simp (fine, room) (ground arith)
          ]
    ]

-- Whenever `create` makes a goal, its chat has at most three active goals then.
pub create_caps_active :
    (py : Texts) (now : Moment) (id : String) (q : Aim) (p : Plan) (g : Goal) (p' : Plan)
    → create py now id q p ≡ some (g, p')
    → length (list_for q.chat_id (some active) p'.goals) ≤ max_active_per_person
create_caps_active py now id q p g p' e = subst (Capped q.chat_id) e (create-Capped py now id q p)
