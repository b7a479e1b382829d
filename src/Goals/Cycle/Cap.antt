-- ===== src/Goals/Cycle/Cap.antt =====
-- The day's cap on a goal's runs of the model, in goals.py.
use mathlib.Core.Path.{subst}
use kyraan.Base.{
  ℕ, suc, ◌+◌, ◌≤◌, String, Bool, true, ◌&&◌, Option, none, some, List, [], ◌∷◌, leb, str_eq,
  if◌then◌else◌, ◌≡◌, refl, ap, ◌∙◌, arith, eq_iff, Bool-cases, inl, inr, str_eq_self,
}
use kyraan.Base.Table.{find, id-find}
use kyraan.Calendar.{Moment}
use kyraan.Goals.{Goal, Plan, Texts, goal_id_of, mutate, same_status, active}
use kyraan.Goals.Cycle.{
  Cycle, on_goals, reschedule, cycles_of, moved_on, counted, fire_goal, fire_found, fire,
}
use kyraan.Goals.Cycle.Counts.{
  find-mutate, count_of, cycles_on, cycles_on-mutate, cycles_on-reschedule, cycles_on-keep_books,
}

module _ (py : Texts) (cut : ℕ → String → String) (lower : String → String) (today : String) where
  -- a cycle that is counted raises its goal's cycles by one, from what was read
  cycles_on-counted :
      (j : String) (now : Moment) (read : Goal) (p : Plan)
      → find goal_id_of read.id p.goals ≡ some read
      → cycles_on today j (on_goals (mutate read.id (counted now today read)) p)
        ≡ (if str_eq read.id j then suc (cycles_on today j p) else cycles_on today j p)
  cycles_on-counted j now read p e =
      ap (count_of today) (find-mutate read.id j (counted now today read) p.goals (λ g. refl))
      ∙ elim (Bool-cases (str_eq read.id j)) [
        | inl h ↦
            let there : find goal_id_of j p.goals ≡ some read =
              ground (arith, e, h, eq_iff read.id j) in
            rw (h, there) (ground (arith, str_eq_self today))
        | inr h ↦ rw h
      ]

  -- no goal has more cycles than the cap
  abbrev pub IsCapped : String → Plan → Type 0
  IsCapped j p = cycles_on today j p ≤ 2

  abbrev pub ran : String → String → Bool × Plan → ℕ
  ran j id out = if out.0 && str_eq id j then 1 else 0

  -- What a cycle does: a run of the model is counted, and the count stays within the cap.
  abbrev Counted : String → String → Plan → Bool × Plan → Type 0
  Counted j id p out =
      (cycles_on today j p + ran j id out ≤ cycles_on today j out.1) × (cycles_on today j out.1 ≤ 2)

  own_cycles :
      (j : String) (read : Goal) (p : Plan)
      → find goal_id_of read.id p.goals ≡ some read
      → str_eq read.id j ≡ true
      → cycles_on today j p ≡ cycles_of today read
  own_cycles j read p e h =
      let there : find goal_id_of j p.goals ≡ some read = ground (arith, e, h, eq_iff read.id j) in
      ap (count_of today) there

  fire_goal-Counted :
      (j : String) (c : Cycle) (read : Goal) (p : Plan)
      → c.today ≡ today
      → find goal_id_of read.id p.goals ≡ some read
      → IsCapped j p
      → Counted j read.id p (fire_goal py cut lower c read p)
  unfolding fire_goal
  fire_goal-Counted j c read p t e h =
      let moved : Plan = on_goals (mutate read.id (moved_on c.now read)) p in
      let begun : Plan = on_goals (mutate read.id (counted c.now today read)) p in
      let on_time : Plan = reschedule c.now read.id begun in
      let moved_same : cycles_on today j (reschedule c.now read.id moved) ≡ cycles_on today j p =
        cycles_on-reschedule today j c.now read.id moved
        ∙ cycles_on-mutate today read.id j (moved_on c.now read) p (λ g. refl) (λ g. refl) in
      let begun_one : cycles_on today j on_time
          ≡ (if str_eq read.id j then suc (cycles_on today j p) else cycles_on today j p) =
        cycles_on-reschedule today j c.now read.id begun ∙ cycles_on-counted j c.now read p e in
      let own : str_eq read.id j ≡ true → cycles_on today j p ≡ cycles_of today read =
        own_cycles j read p e in
      elim (Bool-cases (same_status read.status active)) [
        | inr idle ↦ simp idle (omega arith, h)
        | inl on ↦ elim (Bool-cases (leb 2 (cycles_of today read))) [
          | inl capped ↦
              simp (on, t, capped) (omega (arith, moved_same), omega (arith, moved_same, h))
          | inr room ↦ elim (Bool-cases c.may_send) [
            | inr held ↦
                simp (on, t, room, held)
                  (ground (arith, begun_one, own, h, room), ground (arith, begun_one, own, h, room))
            | inl sends ↦
                simp (on, t, room, sends)
                  (
                    ground (
                      arith,
                      begun_one,
                      own,
                      h,
                      room,
                      cycles_on-keep_books py cut lower today j read c c.finding on_time,
                    ),
                    ground (
                      arith,
                      begun_one,
                      own,
                      h,
                      room,
                      cycles_on-keep_books py cut lower today j read c c.finding on_time,
                    ),
                  )
          ]
        ]
      ]

  fire_found-Counted :
      (j id : String) (c : Cycle) (o : Option Goal) (p : Plan)
      → c.today ≡ today
      → find goal_id_of id p.goals ≡ o
      → IsCapped j p
      → Counted j id p (fire_found py cut lower c o p)
  unfolding fire_found
  fire_found-Counted j id c none p t e h = (omega arith, h)
  fire_found-Counted j id c (some read) p t e h =
      let same : read.id ≡ id = id-find goal_id_of id p.goals read e in
      subst (λ i. Counted j i p (fire_goal py cut lower c read p)) same
        (fire_goal-Counted j c read p t (ap (λ i. find goal_id_of i p.goals) same ∙ e) h)

  -- Fires one after another, of any goals, and how many ran the model for one of them.
  abbrev pub fires : List (String × Cycle) → Plan → Plan
  fires [] p = p
  fires ((id, c) ∷ rest) p = fires rest (fire py cut lower id c p).1

  abbrev pub runs : String → List (String × Cycle) → Plan → ℕ
  runs j [] p = 0
  runs j ((id, c) ∷ rest) p =
      ran j id (fire py cut lower id c p) + runs j rest (fire py cut lower id c p).1

  abbrev pub OnDate : List (String × Cycle) → Type 0
  OnDate [] = Unit
  OnDate ((id, c) ∷ rest) = (c.today ≡ today) × OnDate rest

  counted_runs :
      (j : String) (cs : List (String × Cycle)) (p : Plan)
      → OnDate cs
      → IsCapped j p
      → cycles_on today j p + runs j cs p ≤ 2
  unfolding fire
  counted_runs j [] p d h = omega (arith, h)
  counted_runs j ((id, c) ∷ rest) p (t, d) h =
      let step = fire_found-Counted j id c (find goal_id_of id p.goals) p t refl h in
      let later = counted_runs j rest (fire py cut lower id c p).1 d step.1 in
      omega (arith, step, later)

  -- However often the cycles of the goals fire on one date, for whatever goals, with whatever gate,
  -- model and delivery, the model is run at most twice for a goal, and less by the cycles that its
  -- record counts for that date already, if these are at most two.
  pub cycles_capped :
      (j : String) (cs : List (String × Cycle)) (p : Plan)
      → OnDate cs
      → cycles_on today j p ≤ 2
      → runs j cs p + cycles_on today j p ≤ 2
  cycles_capped j cs p d h = omega (arith, counted_runs j cs p d h)
