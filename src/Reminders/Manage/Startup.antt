-- ===== src/Reminders/Manage/Startup.antt =====
-- The reminders at a restart: `init` of scheduler.py.
use kyraan.Base.{
  ℕ, ◌+◌, String, ◌≡◌, refl, sym, ◌∙◌, ap, ◌⊎◌, inl, inr, Bool, true, ◌&&◌, Option, none, some,
  List, [], ◌∷◌, arith, ltb, leb, str_eq, str_eq_self, any, All, Bool-cases, Option-cases,
}
use kyraan.Calendar.{Moment, seconds, MomentIsValid}
use kyraan.Schedule.{once}
use kyraan.Schedule.Later.{RuleIsValid}
use kyraan.Schedule.CatchUp.{advance_past_now-IsLater}
use kyraan.Reminders.Defs.{moment, Reminder}
use kyraan.Reminders.Store.{Records, list_pending}
use kyraan.Reminders.Fire.{Job, World, Clock, next_of, rolled, is_once}
use kyraan.Reminders.Fire.Promise.{is_once-rule}
use kyraan.Reminders.Manage.{
  parse_when, schedule_overdue, schedule_at, schedule_record, started, start_each, init,
}

-- The record has a valid due time, and is single or has a valid rule.
pub record CanStart (r : Reminder) : Type 0 where
  pub base : Moment
  pub due : r.when_iso ≡ moment base
  pub valid : MomentIsValid base
  pub rule_valid : (r.repeat ≡ once) ⊎ RuleIsValid r.rule

-- A job for the reminder that is no more than a minute past.
abbrev pub is_due : Clock → String → Job → Bool
is_due clock id j = str_eq j.id id && leb (seconds clock.now) (seconds j.due + 60)

abbrev pub HasJob : Clock → String → World → Type 0
HasJob clock id w = any (is_due clock id) w.jobs ≡ true

-- What scheduling does to the jobs: one more, in front.
abbrev AddsJob : World → Option World → Type 0
AddsJob w o = (w' : World) → o ≡ some w' → (j : Job) × (w'.jobs ≡ j ∷ w.jobs)

jobs_of : List Job → Option World → List Job
jobs_of default none = default
jobs_of default (some w) = w.jobs

AddsJob-some : (w x : World) (j : Job) → x.jobs ≡ j ∷ w.jobs → AddsJob w (some x)
unfolding jobs_of
AddsJob-some w x j h w' e = (j, sym (ap (jobs_of []) e) ∙ h)

module _ (clock : Clock) (r : Reminder) (w : World) where
  rolled-AddsJob : (o : Option Moment) → AddsJob w (rolled r.id clock w o)
  unfolding rolled
  rolled-AddsJob none = λ w' e. cc
  rolled-AddsJob (some next) = AddsJob-some w _ _ refl

  schedule_at-AddsJob : (o : Option Moment) → AddsJob w (schedule_at clock r w o)
  unfolding schedule_at schedule_overdue
  schedule_at-AddsJob none = λ w' e. cc
  schedule_at-AddsJob (some when) =
      elim (Bool-cases (ltb (seconds when + 60) (seconds clock.now))) [
        | inl past ↦ elim (Bool-cases (is_once r.repeat)) [
          | inl single ↦ rw past (rw single (AddsJob-some w _ _ refl))
          | inr series ↦ rw past (rw series (rolled-AddsJob (next_of r clock.now)))
        ]
        | inr future ↦ rw future (AddsJob-some w _ _ refl)
      ]

  -- A job that is there stays there.
  started-HasJob :
      (id : String) → HasJob clock id w → HasJob clock id (started w (schedule_record clock r w))
  unfolding started schedule_record
  started-HasJob id h = elim (Option-cases (schedule_record clock r w)) [
    | inl fails ↦ rw fails h
    | inr (w', e) ↦
        let (j, more) = schedule_at-AddsJob (parse_when r.when_iso) w' e in
        rw e (rw more (ground arith))
  ]

  -- A record that can start has a job then.
  pub schedule-HasJob :
      MomentIsValid clock.now
      → CanStart r
      → (w' : World) × (schedule_record clock r w ≡ some w') × HasJob clock r.id w'
  unfolding schedule_record schedule_at schedule_overdue next_of rolled
  schedule-HasJob vn c = elim (Bool-cases (ltb (seconds c.base + 60) (seconds clock.now))) [
    | inl past ↦ elim c.rule_valid [
      | inl single ↦
          let one : is_once r.repeat ≡ true = unfold is_once in ap is_once single in
          rw c.due (rw past (rw one (_, refl, ground (arith, str_eq_self r.id))))
      | inr rv ↦
          let (next, e, later) = advance_past_now-IsLater r.rule c.base clock.now rv c.valid vn in
          rw c.due (
            rw past (
              rw (is_once-rule r.repeat rv.recurs)
                (rw e (_, refl, ground (arith, str_eq_self r.id, later.later)))))
    ]
    | inr future ↦ rw c.due (rw future (_, refl, ground (arith, str_eq_self r.id)))
  ]

start_each-HasJob :
    (clock : Clock) (id : String) (rs : Records) (w : World)
    → HasJob clock id w
    → HasJob clock id (start_each clock rs w)
unfolding start_each
start_each-HasJob clock id [] w h = h
start_each-HasJob clock id (r ∷ rs) w h =
    start_each-HasJob clock id rs (started w (schedule_record clock r w))
      (started-HasJob clock r w id h)

started-HasJob_self :
    (clock : Clock) (r : Reminder) (w : World)
    → MomentIsValid clock.now
    → CanStart r
    → HasJob clock r.id (started w (schedule_record clock r w))
unfolding started
started-HasJob_self clock r w vn c = let (w', e, h) = schedule-HasJob clock r w vn c in rw e h

All-starts :
    (clock : Clock) (rs : Records) (w : World)
    → MomentIsValid clock.now
    → All (λ r. CanStart r → HasJob clock r.id (start_each clock rs w)) rs
unfolding start_each
All-starts clock [] w vn = tt
All-starts clock (r ∷ rs) w vn = (
  λ c. start_each-HasJob clock r.id rs _ (started-HasJob_self clock r w vn c),
  All-starts clock rs _ vn,
)

-- After a restart every pending reminder that can start has a job, whatever stands beside it in the
-- store, and none of these jobs is more than a minute past.
pub init_strands_none :
    (only_chat : Option ℕ) (clock : Clock) (w : World)
    → MomentIsValid clock.now
    → All
        (λ r. CanStart r → HasJob clock r.id (init only_chat clock w))
        (list_pending only_chat w.records)
unfolding init
init_strands_none only_chat clock w vn = All-starts clock (list_pending only_chat w.records) w vn
