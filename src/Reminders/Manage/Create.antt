-- ===== src/Reminders/Manage/Create.antt =====
-- What `create_reminder` of scheduler.py stores and schedules.
use kyraan.Base.{
  ℕ, String, ◌≡◌, refl, ◌∙◌, ap, ◌⊎◌, inl, inr, true, false, none, some, [], ◌∷◌, ◌++◌, arith,
  str_eq_self, Bool-cases, if◌then◌else◌,
}
use kyraan.Base.Table.{find-update, find-append}
use kyraan.Calendar.{Moment, MomentIsValid}
use kyraan.Schedule.{
  Repeat, once, interval, daily, weekdays, weekly, monthly, other_rule, Rule, window, is_interval,
}
use kyraan.Schedule.Later.{RuleIsValid, WindowIsValid, IsCalendar}
use kyraan.Reminders.Defs.{blank, moment, Reminder}
use kyraan.Reminders.Store.{Records, id_of, add, get}
use kyraan.Reminders.Fire.{World, Clock}
use kyraan.Reminders.Manage.{
  parse_when, ClockTime, bad_time, minute_of, Request, acceptable, is_known, apply_interval_fields,
  stored, scheduled, with_record, is_parsed, create_reminder,
}
use kyraan.Reminders.Manage.Startup.{CanStart, HasJob, schedule-HasJob}

-- The rule that a request comes to, once its fields are in.
final_rule : Repeat → Request → Rule
final_rule repeat q =
    if is_interval repeat
    then record {
      repeat = repeat;
      interval_minutes = q.interval_minutes;
      window_start = minute_of q.window_start;
      window_end = minute_of q.window_end;
    }
    else record { repeat = repeat; interval_minutes = 0; window_start = none; window_end = none }

window_of_times-WindowIsValid :
    (repeat : Repeat) (minutes : ℕ) (start end : ClockTime)
    → bad_time start ≡ false
    → bad_time end ≡ false
    → WindowIsValid (
        window (record {
          repeat = repeat;
          interval_minutes = minutes;
          window_start = minute_of start;
          window_end = minute_of end;
        }))
unfolding window
window_of_times-WindowIsValid repeat minutes none end hs he = tt
window_of_times-WindowIsValid repeat minutes (some _) none hs he = tt
window_of_times-WindowIsValid repeat minutes (some (sh, sm)) (some (eh, em)) hs he =
    (ground arith, ground arith)

series-RuleIsValid :
    (repeat : Repeat) (q : Request)
    → IsCalendar repeat
    → is_interval repeat ≡ false
    → RuleIsValid (final_rule repeat q)
unfolding final_rule window
series-RuleIsValid repeat q k e = rw e (record { recurs = inr k; window_valid = tt })

final_rule-valid :
    (repeat : Repeat) (q : Request)
    → is_known repeat ≡ true
    → (is_interval repeat ≡ true
        → (bad_time q.window_start ≡ false) × (bad_time q.window_end ≡ false))
    → (repeat ≡ once) ⊎ RuleIsValid (final_rule repeat q)
unfolding final_rule is_known is_interval
final_rule-valid once q h times = inl refl
final_rule-valid daily q h times = inr (series-RuleIsValid daily q tt refl)
final_rule-valid weekdays q h times = inr (series-RuleIsValid weekdays q tt refl)
final_rule-valid weekly q h times = inr (series-RuleIsValid weekly q tt refl)
final_rule-valid monthly q h times = inr (series-RuleIsValid monthly q tt refl)
final_rule-valid interval q h times =
    let (start_fits, end_fits) = times refl in
    inr (record {
      recurs = inl refl;
      window_valid =
          window_of_times-WindowIsValid interval q.interval_minutes q.window_start q.window_end
            start_fits end_fits;
    })
final_rule-valid (other_rule _) q h times = cc

abbrev final : String → Request → Reminder
final id q = record {
  id = id;
  chat_id = q.chat_id;
  text = q.text;
  when_iso = q.when_iso;
  sent = false;
  claimed_at = blank;
  takeover = false;
  rule = final_rule q.repeat q;
  delivered_at = blank;
}

repeat-final_rule : (repeat : Repeat) (q : Request) → (final_rule repeat q).repeat ≡ repeat
unfolding final_rule
repeat-final_rule repeat q = elim (Bool-cases (is_interval repeat)) [
  | inl series ↦ rw series refl
  | inr single ↦ rw single refl
]

final-CanStart :
    (id : String) (q : Request) (base : Moment)
    → acceptable q ≡ true
    → q.when_iso ≡ moment base
    → MomentIsValid base
    → CanStart (final id q)
unfolding acceptable
final-CanStart id q base ok due valid = record {
  base = base;
  due = due;
  valid = valid;
  rule_valid =
      elim (final_rule-valid q.repeat q (ground arith) (λ series. (ground arith, ground arith))) [
        | inl single ↦ inl (repeat-final_rule q.repeat q ∙ single)
        | inr rv ↦ inr rv
      ];
}

stored-final :
    (id : String) (q : Request) (records : Records)
    → get id records ≡ none
    → (stored id q records).0 ≡ some (final id q)
unfolding stored final_rule add get apply_interval_fields
stored-final id q records fresh = elim (Bool-cases (is_interval q.repeat)) [
  | inl series ↦ rw series (
      find-update id_of id id _ (records ++ _ ∷ []) (λ x. refl)
      ∙ rw (find-append id_of id records _) (rw fresh (rw (str_eq_self id) refl)))
  | inr single ↦ rw single refl
]

create_accepted :
    (clock : Clock) (id : String) (q : Request) (w : World) (base : Moment)
    → acceptable q ≡ true
    → q.when_iso ≡ moment base
    → create_reminder clock id q w ≡ scheduled clock w (stored id q w.records)
unfolding create_reminder is_parsed
create_accepted clock id q w base ok due =
    let parsed : is_parsed (parse_when q.when_iso) ≡ true =
      ap (λ o. is_parsed (parse_when o)) due in
    rw parsed (rw ok refl)

-- A request that passes the tests of `create_reminder`, with a valid due time and an id that is not in
-- use, becomes a reminder that every restart can start, and that has a job at once.
pub create_reminder_starts :
    (clock : Clock) (id : String) (q : Request) (w : World) (base : Moment)
    → acceptable q ≡ true
    → q.when_iso ≡ moment base
    → MomentIsValid base
    → MomentIsValid clock.now
    → get id w.records ≡ none
    → (r : Reminder) × (w' : World) × (create_reminder clock id q w ≡ some (r, w'))
      × CanStart r
      × HasJob clock r.id w'
unfolding scheduled with_record
create_reminder_starts clock id q w base ok due valid vn fresh =
    let c = final-CanStart id q base ok due valid in
    let rs = (stored id q w.records).1 in
    let (w', e, h) = schedule-HasJob clock (final id q) (record w { records = rs }) vn c in
    let is_stored : stored id q w.records ≡ (some (final id q), rs) =
      ap (λ o. (o, rs)) (stored-final id q w.records fresh) in
    let starts : scheduled clock w (some (final id q), rs) ≡ some (final id q, w') =
      ap (with_record (final id q)) e in
    (
      final id q,
      w',
      create_accepted clock id q w base ok due ∙ ap (scheduled clock w) is_stored ∙ starts,
      c,
      h,
    )
