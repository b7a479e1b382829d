-- ===== src/AgentTasks/Fire/Single.antt =====
-- A single task of agent_tasks.py under `cancel` and `fire`.
use mathlib.Core.Path.{subst}
use kyraan.Base.{
  ℕ, ◌*◌, ◌<◌, String, ◌≡◌, refl, sym, ap, ◌⊎◌, inl, inr, Bool, true, false, Option, none, some,
  List, [], ◌∷◌, arith, leb, str_eq, starts_with_self, eq_iff, keep, length, starts_with,
  Bool-cases,
}
use kyraan.Base.Table.{find, update}
use kyraan.Calendar.{Moment, seconds, add_seconds, MomentIsValid}
use kyraan.Calendar.Ordinals.{seconds-add_seconds}
use kyraan.Schedule.{once}
use kyraan.Reminders.{moment}
use kyraan.Reminders.Fire.{is_once}
use kyraan.AgentTasks.{
  AgentTask, TaskJob, TaskMessage, Desk, Outside, task_id_of, list_active, matches, matches_exactly,
  retire, is_some_task, cancel, retry_later, set_pending_result,
}
use kyraan.AgentTasks.Fire.{
  message, cancelled, retry_single, redeliver_later, done, deliver, settle_run, run_fresh,
  redeliver, held, opened, gated, fire_task, fire_found, fire,
}

-- Retiring what a test picks out that every active record of the id passes leaves none active.
find-retire :
    (id : String) (picked : AgentTask → Bool) (tasks : List AgentTask)
    → ((t : AgentTask) → t.active ≡ true → str_eq t.id id ≡ true → picked t ≡ true)
    → find task_id_of id (list_active none (retire picked tasks)) ≡ none
unfolding find list_active retire
find-retire id picked [] p = refl
find-retire id picked (x ∷ xs) p = ground (arith, p x, find-retire id picked xs p)

-- An exact match is found among the exact matches.
is_some_task-exact :
    (id : String) (tasks : List AgentTask) (t : AgentTask)
    → starts_with id id ≡ true
    → find task_id_of id (list_active none tasks) ≡ some t
    → is_some_task (keep (matches_exactly id) tasks) ≡ true
unfolding find list_active is_some_task
is_some_task-exact id [] t s h = cc
is_some_task-exact id (x ∷ xs) t s h = ground (arith, eq_iff x.id id, is_some_task-exact id xs t s)

find-active_update :
    (id : String) (f : AgentTask → AgentTask) (tasks : List AgentTask) (t : AgentTask)
    → ((x : AgentTask) → (f x).id ≡ x.id)
    → ((x : AgentTask) → (f x).active ≡ x.active)
    → find task_id_of id (list_active none tasks) ≡ some t
    → find task_id_of id (list_active none (update task_id_of id f tasks)) ≡ some (f t)
unfolding find list_active update
find-active_update id f [] t same_id same_active h = cc
find-active_update id f (x ∷ xs) t same_id same_active h = ground (
  arith,
  same_id x,
  same_active x,
  eq_iff x.id id,
  find-active_update id f xs t same_id same_active,
)

matches_self :
    (id : String) (t : AgentTask) → t.active ≡ true → str_eq t.id id ≡ true → matches id t ≡ true
matches_self id t on same =
    let is_id = (eq_iff t.id id).0 same in rw on (rw is_id (starts_with_self id))

-- `cancel` of an active task's own id is not ambiguous, and none of the id is active after it.
cancelled-retires :
    (id : String) (d : Desk) (t : AgentTask)
    → find task_id_of id (list_active none d.tasks) ≡ some t
    → (ts : List AgentTask) × (cancelled id d ≡ some (record d { tasks = ts }))
      × (find task_id_of id (list_active none ts) ≡ none)
unfolding cancelled cancel
cancelled-retires id d t found = elim (Bool-cases (leb (length (keep (matches id) d.tasks)) 1)) [
  | inl few ↦ rw few (_, refl, find-retire id (matches id) d.tasks (matches_self id))
  | inr many ↦ rw many (
      rw (is_some_task-exact id d.tasks t (starts_with_self id) found) (
        _,
        refl,
        find-retire id (matches_exactly id) d.tasks
            (λ x on same. rw (matches_self id x on same) same),
      ))
]

-- What is sent of a task: a fresh result of the model, or the result that the task has kept.
abbrev pub IsResult : Outside → AgentTask → String → Type 0
IsResult o t text =
    ((o.outcome ≡ some text) × (o.delivers ≡ true))
    ⊎ ((t.pending_result ≡ text) × (o.redelivers ≡ true))

-- No send succeeded, and the task is active and has a job that is to come; or its result went out to
-- its chat, and it is retired.
abbrev pub Kept : Outside → AgentTask → Desk → Option Desk → Type 0
Kept o t d out =
    (d' : Desk) × (out ≡ some d')
    × (((d'.messages ≡ d.messages)
          × ((j : TaskJob) × (d'.jobs ≡ j ∷ d.jobs)
              × (j.task_id ≡ t.id)
              × (seconds o.now < seconds j.due))
          × ((t' : AgentTask) × (find task_id_of t.id (list_active none d'.tasks) ≡ some t')
              × (t'.instruction ≡ t.instruction)))
        ⊎ ((m : TaskMessage) × (d'.messages ≡ m ∷ d.messages)
            × (m.chat_id ≡ t.chat_id)
            × IsResult o t m.text
            × (find task_id_of t.id (list_active none d'.tasks) ≡ none)))

module _ (o : Outside) (vn : MomentIsValid o.now) (t : AgentTask) (d : Desk) where
  -- the task's record while it waits
  abbrev Waits : Desk → Type 0
  Waits d1 =
      (t1 : AgentTask) × (find task_id_of t.id (list_active none d1.tasks) ≡ some t1)
      × (t1.instruction ≡ t.instruction)

  retry-Kept :
      (minutes : ℕ) (d1 : Desk)
      → 0 < minutes
      → d1.jobs ≡ d.jobs
      → d1.messages ≡ d.messages
      → Waits d1
      → Kept o t d (some (retry_later o.now t.id minutes d1))
  retry-Kept minutes d1 pos same silent (t1, found, same_task) =
      let due : Moment = add_seconds o.now (60 * minutes) in
      let job : TaskJob = record { task_id = t.id; due = due; redeliver_only = false } in
      (
        retry_later o.now t.id minutes d1,
        refl,
        inl (
          silent,
          (
            job,
            ap (λ js. job ∷ js) same,
            refl,
            omega (arith, seconds-add_seconds o.now (60 * minutes) vn),
          ),
          (
            record t1 { when_iso = moment due },
            find-active_update t.id (λ (x : AgentTask). record x { when_iso = moment due }) d1.tasks
                t1 (λ x. refl) (λ x. refl) found,
            same_task,
          ),
        ),
      )

  cancelled-Kept :
      (d1 : Desk) (m : TaskMessage) (t1 : AgentTask)
      → d1.messages ≡ m ∷ d.messages
      → m.chat_id ≡ t.chat_id
      → IsResult o t m.text
      → find task_id_of t.id (list_active none d1.tasks) ≡ some t1
      → Kept o t d (cancelled t.id d1)
  cancelled-Kept d1 m t1 told chat result found =
      let (ts, e, gone) = cancelled-retires t.id d1 t1 found in
      (record d1 { tasks = ts }, e, inr (m, told, chat, result, gone))

  module _ (single : is_once t.repeat ≡ true)
      (found : find task_id_of t.id (list_active none d.tasks) ≡ some t) where
    -- the desk with another kept result
    find-stashed :
        (text : String)
        → find task_id_of t.id (list_active none (set_pending_result t.id text d).tasks)
          ≡ some (record t { pending_result = text })
    find-stashed text =
        find-active_update t.id (λ (x : AgentTask). record x { pending_result = text }) d.tasks t
          (λ x. refl) (λ x. refl) found

    deliver-Kept :
        (text : String) (runs : List (ℕ × String))
        → o.outcome ≡ some text
        → Kept o t d (deliver o t text (record d { runs = runs }))
    unfolding deliver done redeliver_later message
    deliver-Kept text runs told = elim (Bool-cases o.delivers) [
      | inl sent ↦
          let e : deliver o t text (record d { runs = runs })
              ≡ cancelled t.id (message t text false (record d { runs = runs })) =
            rw sent (rw single refl) in
          subst (Kept o t d) (sym e) (cancelled-Kept _ _ t refl refl (inl (told, sent)) found)
      | inr lost ↦
          let e : deliver o t text (record d { runs = runs })
              ≡ some (
                  retry_later o.now t.id 5
                    (set_pending_result t.id text (record d { runs = runs }))) =
            rw lost (rw single refl) in
          subst (Kept o t d) (sym e)
            (retry-Kept 5 _ (omega arith) refl refl (_, find-stashed text, refl))
    ]

    failed-Kept :
        (runs : List (ℕ × String))
        → Kept o t d (some (retry_single o t 15 (record d { runs = runs })))
    unfolding retry_single
    failed-Kept runs =
        let e : retry_single o t 15 (record d { runs = runs })
            ≡ retry_later o.now t.id 15 (record d { runs = runs }) =
          rw single refl in
        subst (λ x. Kept o t d (some x)) (sym e)
          (retry-Kept 15 _ (omega arith) refl refl (t, found, refl))

    settle_run-Kept :
        (runs : List (ℕ × String)) (outcome : Option String)
        → o.outcome ≡ outcome
        → Kept o t d (settle_run o t (record d { runs = runs }) outcome)
    unfolding settle_run
    settle_run-Kept runs none told = failed-Kept runs
    settle_run-Kept runs (some text) told = elim (Bool-cases (o.is_blank text)) [
      | inl blank ↦
          let e : settle_run o t (record d { runs = runs }) (some text)
              ≡ some (retry_single o t 15 (record d { runs = runs })) =
            rw blank refl in
          subst (Kept o t d) (sym e) (failed-Kept runs)
      | inr full ↦
          let e : settle_run o t (record d { runs = runs }) (some text)
              ≡ deliver o t text (record d { runs = runs }) =
            rw full refl in
          subst (Kept o t d) (sym e) (deliver-Kept text runs told)
    ]

    redeliver-Kept : Kept o t d (redeliver o false t d)
    unfolding redeliver redeliver_later message
    redeliver-Kept = elim (Bool-cases o.redelivers) [
      | inl sent ↦
          let d2 : Desk = set_pending_result t.id "" (message t t.pending_result true d) in
          let e : redeliver o false t d ≡ cancelled t.id d2 = rw sent (rw single refl) in
          subst (Kept o t d) (sym e) (
            cancelled-Kept d2 _ (record t { pending_result = "" }) refl refl (inr (refl, sent))
              (find-stashed ""))
      | inr lost ↦
          let e : redeliver o false t d ≡ some (retry_later o.now t.id 5 d) =
            rw lost (rw single refl) in
          subst (Kept o t d) (sym e) (retry-Kept 5 d (omega arith) refl refl (t, found, refl))
    ]

    gated-Kept : Kept o t d (gated o false t d)
    unfolding gated opened held run_fresh
    gated-Kept = elim (Bool-cases o.allowed) [
      | inr quiet ↦
          let e : gated o false t d ≡ some (retry_later o.now t.id 30 d) =
            rw quiet (rw single refl) in
          subst (Kept o t d) (sym e) (retry-Kept 30 d (omega arith) refl refl (t, found, refl))
      | inl open_hours ↦ elim (Bool-cases (str_eq t.pending_result "")) [
        | inl empty ↦
            let e : gated o false t d
                ≡ settle_run o t (record d { runs = (t.chat_id, t.instruction) ∷ d.runs })
                    o.outcome =
              rw open_hours (rw empty refl) in
            subst (Kept o t d) (sym e) (settle_run-Kept _ o.outcome refl)
        | inr stash ↦
            let e : gated o false t d ≡ redeliver o false t d = rw open_hours (rw stash refl) in
            subst (Kept o t d) (sym e) redeliver-Kept
      ]
    ]

fire_task-Kept :
    (o : Outside) (t : AgentTask) (d : Desk)
    → MomentIsValid o.now
    → is_once t.repeat ≡ true
    → find task_id_of t.id (list_active none d.tasks) ≡ some t
    → Kept o t d (fire_task o false t d)
unfolding fire_task
fire_task-Kept o t d vn single found =
    let e : fire_task o false t d ≡ gated o false t d = rw single refl in
    subst (Kept o t d) (sym e) (gated-Kept o vn t d single found)

-- A `fire` of an active single task comes to an end, whatever the gate, the model and the sends come
-- to. Either no send succeeded, and the task is still active, with its instruction, and has a job
-- that is to come; or its result, a fresh one or the one that it had kept, went out to its chat by a
-- send that did not fail, and the task is retired. The condition is a valid clock.
pub fire_keeps_single :
    (o : Outside) (d : Desk) (t : AgentTask)
    → MomentIsValid o.now
    → t.repeat ≡ once
    → find task_id_of t.id (list_active none d.tasks) ≡ some t
    → Kept o t d (fire t.id false o d)
unfolding fire fire_found
fire_keeps_single o d t vn e found =
    let single : is_once t.repeat ≡ true = unfold is_once in ap is_once e in
    let task : fire t.id false o d ≡ fire_task o false t d = rw found refl in
    subst (Kept o t d) (sym task) (fire_task-Kept o t d vn single found)
