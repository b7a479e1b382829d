-- ===== src/Goals/Cycle/Counts.antt =====
-- The goals' counters under the jobs and the changes of the books after a run.
use mathlib.Core.Option
use kyraan.Base.{
  ℕ, String, Bool, false, Option, none, some, List, [], ◌∷◌, ◌++◌, str_eq, if◌then◌else◌, ◌≡◌, refl,
  ap, ◌∙◌, arith, eq_iff, Bool-cases, inl, inr, length, Option-cases, ◌==◌,
}
use kyraan.Base.Table.{find}
use kyraan.Calendar.{Moment}
use kyraan.Goals.{Goal, Plan, Texts, goal_id_of, mutate, schedule}
use kyraan.Schedule.{bind}
use kyraan.Goals.Update.{mutate_row, in_place, hits}
use kyraan.Goals.Cycle.{
  Finding, Cycle, on_goals, schedule_found, reschedule, cycles_of, settle_step, meant, or_ignored,
  apply_done, apply_adds, apply_finding, report, keep_books,
}

pub find-mutate :
    (k j : String) (f : Goal → Goal) (gs : List Goal)
    → ((g : Goal) → goal_id_of (f g) ≡ goal_id_of g)
    → find goal_id_of j (mutate k f gs)
      ≡ (if str_eq k j then Option.map f (find goal_id_of j gs) else find goal_id_of j gs)
unfolding find mutate
find-mutate k j f [] h = ground arith
find-mutate k j f (g ∷ gs) h =
    ground (arith, h g, eq_iff g.id k, eq_iff g.id j, eq_iff k j, find-mutate k j f gs h)

-- the cycles of a goal on a date, none where there is no such goal
abbrev pub count_of : String → Option Goal → ℕ
count_of today none = 0
count_of today (some g) = cycles_of today g

abbrev pub cycles_on : String → String → Plan → ℕ
cycles_on today id p = count_of today (find goal_id_of id p.goals)

count-map :
    (today : String) (f : Goal → Goal) (o : Option Goal)
    → ((g : Goal) → cycles_of today (f g) ≡ cycles_of today g)
    → count_of today (Option.map f o) ≡ count_of today o
count-map today f none h = refl
count-map today f (some g) h = h g

-- A change of a record that keeps its id and its counters keeps the cycles of every goal.
pub cycles_on-mutate :
    (today k j : String) (f : Goal → Goal) (p : Plan)
    → ((g : Goal) → goal_id_of (f g) ≡ goal_id_of g)
    → ((g : Goal) → cycles_of today (f g) ≡ cycles_of today g)
    → cycles_on today j (on_goals (mutate k f) p) ≡ cycles_on today j p
cycles_on-mutate today k j f p h c =
    ap (count_of today) (find-mutate k j f p.goals h) ∙ elim (Bool-cases (str_eq k j)) [
      | inl e ↦ rw e (count-map today f (find goal_id_of j p.goals) c)
      | inr e ↦ rw e
    ]

cycles_on-schedule_found :
    (today j : String) (now : Moment) (o : Option Goal) (p : Plan)
    → cycles_on today j (schedule_found now o p) ≡ cycles_on today j p
unfolding schedule_found schedule
cycles_on-schedule_found today j now none p = refl
cycles_on-schedule_found today j now (some g) p = refl

pub cycles_on-reschedule :
    (today j : String) (now : Moment) (k : String) (p : Plan)
    → cycles_on today j (reschedule now k p) ≡ cycles_on today j p
unfolding reschedule
cycles_on-reschedule today j now k p =
    cycles_on-schedule_found today j now (find goal_id_of k p.goals) p

module _ (py : Texts) (cut : ℕ → String → String) (lower : String → String) (today : String) where
  cycles_on-apply_adds :
      (j id : String) (texts : List String) (p : Plan)
      → cycles_on today j (apply_adds py cut lower id texts p).1 ≡ cycles_on today j p
  unfolding apply_adds
  cycles_on-apply_adds j id [] p = refl
  cycles_on-apply_adds j id (text ∷ texts) p =
      let grown : Plan =
        on_goals
          (mutate id (λ (g : Goal). record g {
            steps = g.steps ++ record { text = text; is_done = false } ∷ [];
          }))
          p in
      ground (
        arith,
        cycles_on-apply_adds j id texts p,
        cycles_on-apply_adds j id texts grown,
        cycles_on-mutate today id j
            (λ (g : Goal). record g {
              steps = g.steps ++ record { text = text; is_done = false } ∷ [];
            })
            p (λ g. refl) (λ g. refl),
      )

  cycles_on-apply_finding :
      (j : String) (read : Goal) (text : String) (p : Plan)
      → cycles_on today j (apply_finding py cut lower read text p).1 ≡ cycles_on today j p
  unfolding apply_finding
  cycles_on-apply_finding j read text p = ground (
    arith,
    cycles_on-mutate today read.id j
        (λ (g : Goal). record g { journal = g.journal ++ cut 1500 text ∷ [] }) p (λ g. refl)
        (λ g. refl),
  )

  cycles_on-report :
      (j : String) (read : Goal) (delivered : Bool) (text : String) (p : Plan)
      → cycles_on today j (report py cut lower read delivered text p) ≡ cycles_on today j p
  unfolding report
  cycles_on-report j read delivered text p = ground (
    arith,
    cycles_on-mutate today read.id j (λ (g : Goal). record g { unreported = cut 2500 text }) p
        (λ g. refl) (λ g. refl),
    cycles_on-mutate today read.id j (λ (g : Goal). record g { unreported = "" }) p (λ g. refl)
        (λ g. refl),
  )

  -- the plan as it was, or the changed one
  or_ignored_same :
      (j : String) (p : Plan) (row : Option Goal) (f : Goal → Option Goal) (p' : Plan)
      → cycles_on today j p' ≡ cycles_on today j p
      → cycles_on today j (or_ignored py cut lower p (bind row (λ g. bind (f g) (λ _. some p'))))
        ≡ cycles_on today j p
  unfolding or_ignored
  or_ignored_same j p none f p' h = refl
  or_ignored_same j p (some g) f p' h = elim (Option-cases (f g)) [
    | inl e ↦ rw e refl
    | inr (g', e) ↦ rw e h
  ]

  -- a step that is settled keeps the record's id and counters
  settle_step-same :
      (wanted : String) (g : Goal)
      → (goal_id_of (in_place py cut (settle_step py cut lower wanted) g) ≡ goal_id_of g)
        × (cycles_of today (in_place py cut (settle_step py cut lower wanted) g)
            ≡ cycles_of today g)
  unfolding settle_step in_place
  settle_step-same wanted g =
      elim (Bool-cases (length (hits (meant py cut lower wanted g) g) == 1)) [
        | inl h ↦ simp h (refl, refl)
        | inr h ↦ simp h (refl, refl)
      ]

  cycles_on-mutate_row :
      (j id wanted : String) (p : Plan)
      → cycles_on today j
          (or_ignored py cut lower p (mutate_row py cut id (settle_step py cut lower wanted) p))
        ≡ cycles_on today j p
  unfolding mutate_row
  cycles_on-mutate_row j id wanted p =
      let f : Goal → Goal = in_place py cut (settle_step py cut lower wanted) in
      let same : cycles_on today j (on_goals (mutate id f) p) ≡ cycles_on today j p =
        cycles_on-mutate today id j f p (λ g. (settle_step-same wanted g).0)
          (λ g. (settle_step-same wanted g).1) in
      or_ignored_same j p (find goal_id_of id p.goals) (settle_step py cut lower wanted)
        (on_goals (mutate id f) p) same

  cycles_on-apply_done :
      (j id : String) (wanted : Option String) (p : Plan)
      → cycles_on today j (apply_done py cut lower id wanted p).1 ≡ cycles_on today j p
  unfolding apply_done
  cycles_on-apply_done j id none p = refl
  cycles_on-apply_done j id (some wanted) p = cycles_on-mutate_row j id (py.folded wanted) p

  pub cycles_on-keep_books :
      (j : String) (read : Goal) (c : Cycle) (f : Option Finding) (p : Plan)
      → cycles_on today j (keep_books py cut lower read c f p) ≡ cycles_on today j p
  unfolding keep_books
  cycles_on-keep_books j read c none p = refl
  cycles_on-keep_books j read c (some f) p =
      let p₁ : Plan = (apply_done py cut lower read.id f.done p).1 in
      let p₂ : Plan = (apply_adds py cut lower read.id f.adds p₁).1 in
      let p₃ : Plan = (apply_finding py cut lower read f.text p₂).1 in
      cycles_on-report j read c.delivered _ p₃
      ∙ cycles_on-apply_finding j read f.text p₂
      ∙ cycles_on-apply_adds j read.id f.adds p₁
      ∙ cycles_on-apply_done j read.id f.done p
