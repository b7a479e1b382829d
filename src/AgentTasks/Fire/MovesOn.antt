-- ===== src/AgentTasks/Fire/MovesOn.antt =====
-- The parts of `fire` of agent_tasks.py, and a series under it.
use kyraan.Base.{
  ℕ, zero, suc, ◌+◌, ◌<◌, String, ◌≡◌, refl, sym, ◌∙◌, ap, inl, inr, Bool, true, false, not, ◌&&◌,
  Option, none, some, List, [], ◌∷◌, arith, ltb, str_eq, str_eq_self, eq_iff, any, Bool-cases,
}
use mathlib.Core.Path.{subst}
use mathlib.Core.Option.{some-injective}
use kyraan.Base.Table.{find, find-update, id-find}
use kyraan.Calendar.{Moment, seconds, MomentIsValid}
use kyraan.Schedule.{Repeat}
use kyraan.Schedule.Later.{IsCalendar, IsLater, advance_occurrence-Advances}
use kyraan.Reminders.{moment}
use kyraan.Reminders.Fire.{is_once}
use kyraan.Reminders.Fire.Promise.{is_once-rule}
use kyraan.AgentTasks.{
  AgentTask, TaskJob, Desk, Outside, task_id_of, list_active, advance, schedule_fn,
  set_pending_result, catch_up, is_not_after, rounds, placed,
}
use kyraan.AgentTasks.Fire.{
  message, retry_single, redeliver_later, done, deliver, settle_run, run_fresh, or_task, redeliver,
  held, opened, gated, move_on, fire_task, fire_found, fire,
}

-- With a round for every second that is missed, the loop ends after now.
pub catch_up-IsLater :
    (fuel : ℕ) (repeat : Repeat) (now when : Moment)
    → IsCalendar repeat
    → MomentIsValid when
    → seconds now < seconds when + fuel
    → (u : Moment) × (catch_up fuel (is_not_after now) repeat when ≡ some u) × IsLater now u
unfolding catch_up
catch_up-IsLater zero repeat now when k v h =
    (when, refl, record { valid = v; later = omega arith })
catch_up-IsLater (suc fuel) repeat now when k v h = elim (Bool-cases (is_not_after now when)) [
  | inl past ↦
      let (next, e, l) = advance_occurrence-Advances when v repeat k in
      rw past (rw e (catch_up-IsLater fuel repeat now next k l.valid (omega (arith, l.later))))
  | inr future ↦ rw future (when, refl, record { valid = v; later = ground arith })
]

-- the step comes to a desk that has the jobs that were there
abbrev KeepsJobs : Desk → Option Desk → Type 0
KeepsJobs d o =
    (d' : Desk) × (o ≡ some d')
    × ((p : TaskJob → Bool) → any p d.jobs ≡ true → any p d'.jobs ≡ true)

-- a desk with one job more, or none
keeps_all : (d d' : Desk) → d'.jobs ≡ d.jobs → KeepsJobs d (some d')
keeps_all d d' e = (d', refl, λ p h. rw e h)

keeps_more : (d d' : Desk) (j : TaskJob) → d'.jobs ≡ j ∷ d.jobs → KeepsJobs d (some d')
keeps_more d d' j e = (d', refl, λ p h. rw e (ground arith))

module _ (o : Outside) where
  redeliver_later-KeepsJobs :
      (t : AgentTask) (d : Desk)
      → is_once t.repeat ≡ false
      → KeepsJobs d (some (redeliver_later o t d))
  unfolding redeliver_later
  redeliver_later-KeepsJobs t d series = rw series (keeps_more d _ _ refl)

  deliver-KeepsJobs :
      (t : AgentTask) (text : String) (d : Desk)
      → is_once t.repeat ≡ false
      → KeepsJobs d (deliver o t text d)
  unfolding deliver done redeliver_later message
  deliver-KeepsJobs t text d series = elim (Bool-cases o.delivers) [
    | inl sent ↦ rw sent (rw series (keeps_all d _ refl))
    | inr lost ↦ rw lost (rw series (keeps_more d _ _ refl))
  ]

  settle_run-KeepsJobs :
      (t : AgentTask) (d : Desk) (outcome : Option String)
      → is_once t.repeat ≡ false
      → KeepsJobs d (settle_run o t d outcome)
  unfolding settle_run retry_single
  settle_run-KeepsJobs t d none series = rw series (keeps_all d _ refl)
  settle_run-KeepsJobs t d (some text) series = elim (Bool-cases (o.is_blank text)) [
    | inl blank ↦ rw blank (rw series (keeps_all d _ refl))
    | inr told ↦ rw told (deliver-KeepsJobs t text d series)
  ]

  run_fresh-KeepsJobs :
      (t : AgentTask) (d : Desk) → is_once t.repeat ≡ false → KeepsJobs d (run_fresh o t d)
  unfolding run_fresh
  run_fresh-KeepsJobs t d series =
      settle_run-KeepsJobs t (record d { runs = (t.chat_id, t.instruction) ∷ d.runs }) o.outcome
        series

-- the record that the file has under the id of a series is a series
abbrev IsSeries : Desk → AgentTask → Type 0
IsSeries d t =
    (is_once t.repeat ≡ false)
    × ((x : AgentTask) × (find task_id_of t.id d.tasks ≡ some x) × (is_once x.repeat ≡ false))

module _ (o : Outside) (redeliver_only : Bool) (t : AgentTask) (d : Desk) where
  redeliver-KeepsJobs : IsSeries d t → KeepsJobs d (redeliver o redeliver_only t d)
  unfolding redeliver message or_task
  redeliver-KeepsJobs (series, (x, found, again)) = elim (Bool-cases o.redelivers) [
    | inr lost ↦ simp lost (redeliver_later-KeepsJobs o t d series)
    | inl sent ↦ elim (Bool-cases redeliver_only) [
      | inl only ↦ rw sent (rw series (rw only (keeps_all d _ refl)))
      | inr both ↦
          let d2 = set_pending_result t.id "" (message t t.pending_result true d) in
          let kept : find task_id_of t.id d2.tasks ≡ some (record x { pending_result = "" }) =
            find-update task_id_of t.id t.id _ d.tasks (λ y. refl)
            ∙ rw (str_eq_self t.id) (rw found refl) in
          simp (sent, series, both)
            (rw kept (run_fresh-KeepsJobs o (record x { pending_result = "" }) d2 again))
    ]
  ]

opened-KeepsJobs :
    (o : Outside) (redeliver_only : Bool) (t : AgentTask) (d : Desk)
    → IsSeries d t
    → KeepsJobs d (opened o redeliver_only t d)
unfolding opened
opened-KeepsJobs o true t d s = elim (Bool-cases (str_eq t.pending_result "")) [
  | inr stash ↦ simp stash (redeliver-KeepsJobs o true t d s)
  | inl empty ↦ simp empty (keeps_all d _ refl)
]
opened-KeepsJobs o false t d s = elim (Bool-cases (str_eq t.pending_result "")) [
  | inr stash ↦ simp stash (redeliver-KeepsJobs o false t d s)
  | inl empty ↦ simp empty (run_fresh-KeepsJobs o t d s.0)
]

gated-KeepsJobs :
    (o : Outside) (redeliver_only : Bool) (t : AgentTask) (d : Desk)
    → IsSeries d t
    → KeepsJobs d (gated o redeliver_only t d)
unfolding gated held
gated-KeepsJobs o redeliver_only t d s = elim (Bool-cases o.allowed) [
  | inr quiet ↦ elim (Bool-cases (str_eq t.pending_result "")) [
    | inl empty ↦ simp (quiet, s.0, empty) (keeps_all d _ refl)
    | inr stash ↦ simp (quiet, s.0, stash) (keeps_more d _ _ refl)
  ]
  | inl open_hours ↦ simp open_hours (opened-KeepsJobs o redeliver_only t d s)
]

-- the job of a task's next occurrence
abbrev pub is_next : Moment → String → TaskJob → Bool
is_next now id j = str_eq j.task_id id && not j.redeliver_only && ltb (seconds now) (seconds j.due)

find-active :
    (id : String) (tasks : List AgentTask) (t : AgentTask)
    → find task_id_of id tasks ≡ some t
    → t.active ≡ true
    → find task_id_of id (list_active none tasks) ≡ some t
unfolding find list_active
find-active id [] t e h = cc
find-active id (x ∷ xs) t e h = elim (Bool-cases (str_eq x.id id)) [
  | inl same ↦
      let is_t : some x ≡ some t = ground arith in
      let there : x.active ≡ true =
        ap (λ (y : AgentTask). y.active) (some-injective _ _ is_t) ∙ h in
      simp (there, same) is_t
  | inr other ↦
      let rest = find-active id xs t (ground arith) h in
      elim (Bool-cases x.active) [ inl there ↦ rw there (rw other rest) | inr gone ↦ rw gone rest ]
]

move_on-IsLater :
    (o : Outside) (t : AgentTask) (d : Desk) (base : Moment)
    → IsCalendar t.repeat
    → t.when_iso ≡ moment base
    → MomentIsValid base
    → (u : Moment) × (move_on o t d ≡ placed t.id d u) × IsLater o.now u
unfolding move_on
move_on-IsLater o t d base k due v =
    let (next, e, l) = advance_occurrence-Advances base v t.repeat k in
    let (u, e2, l2) =
      catch_up-IsLater (rounds o.now next) t.repeat o.now next k l.valid (omega arith) in
    (u, rw due (rw e (rw e2 refl)), l2)

-- The task's next occurrence is scheduled, the desk is otherwise as it was.
moved-IsSeries :
    (t : AgentTask) (d : Desk) (u : Moment)
    → is_once t.repeat ≡ false
    → find task_id_of t.id d.tasks ≡ some t
    → IsSeries (schedule_fn t.id u false (advance t.id u d)) t
moved-IsSeries t d u series found = (
  series,
  (
    record t { when_iso = moment u },
    find-update task_id_of t.id t.id _ d.tasks (λ y. refl) ∙ rw (str_eq_self t.id) (rw found refl),
    series,
  ),
)

-- A `fire` of an active series with a valid due time comes to an end, and the series has a job for its
-- next occurrence after now, whatever the gate, the model and the sends come to.
pub fire_moves_on :
    (id : String) (o : Outside) (d : Desk) (t : AgentTask) (base : Moment)
    → find task_id_of id d.tasks ≡ some t
    → t.active ≡ true
    → IsCalendar t.repeat
    → t.when_iso ≡ moment base
    → MomentIsValid base
    → (d' : Desk) × (fire id false o d ≡ some d') × (any (is_next o.now id) d'.jobs ≡ true)
unfolding fire fire_found fire_task placed
fire_moves_on id o d t base found on k due v =
    let is_id : t.id ≡ id = id-find task_id_of id d.tasks t found in
    let series : is_once t.repeat ≡ false = is_once-rule t.repeat (inr k) in
    let (u, moves, l) = move_on-IsLater o t d base k due v in
    let d1 = schedule_fn t.id u false (advance t.id u d) in
    let s =
      moved-IsSeries t d u series
        (subst (λ x. find task_id_of x d.tasks ≡ some t) (sym is_id) found) in
    let (d', e, keeps) = gated-KeepsJobs o false t d1 s in
    (
      d',
      rw (find-active id d.tasks t found on) (rw series (rw moves e)),
      keeps (is_next o.now id) (ground (arith, l.later, eq_iff t.id id)),
    )
