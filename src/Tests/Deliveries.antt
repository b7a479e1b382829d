-- ===== src/Tests/Deliveries.antt =====
-- Runs of the reminder store's lease and of `fire` of scheduler.py.
use kyraan.Base.{
  All, ◌||◌, ◌≡◌, ◌≢◌, refl, ◌⊎◌, inl, inr, true, false, none, some, [], ◌∷◌, arith, eq_iff, String,
}
use kyraan.Base.Table.{find}
use kyraan.Kernel.Proactive.{Gate, in_quiet_hours, person_is_quiet, can_send_proactively}
use kyraan.Reminders.{blank, moment, Reminder}
use kyraan.Reminders.Store.{get, list_pending, claim_for_send, lease_stale}
use kyraan.Reminders.Store.Lease.{claims, releases, run, lease_exclusive}
use kyraan.Reminders.Fire.{Clock, World, lease_seconds, sending, fire_begin, delivered, fire_end}
use kyraan.Reminders.Fire.Promise.{
  Rescheduled, Settled, fire_begin_owed, fire_end_settles, fire_begin_honest,
}
use kyraan.Schedule.{interval}
use kyraan.Reminders.Manage.{init, Request}
use kyraan.Reminders.Manage.Startup.{CanStart, HasJob, init_strands_none}
use kyraan.Tests.Times.{
  january_31, march_1, january_31-IsValid, march_1-IsValid, water, water-IsValid,
}

-- a sender took it at 1000 and crashed
abbrev pub glass : Reminder
glass = record {
  id = "glass";
  chat_id = 7;
  text = "a glass of water";
  when_iso = moment january_31;
  sent = false;
  claimed_at = moment 1000;
  takeover = false;
  rule = water;
  delivered_at = blank;
}

abbrev world : World
world = record { records = glass ∷ []; jobs = []; messages = [] }

abbrev clock : Clock
clock = record { now = march_1; utc = 5000 }

abbrev day_gate : Gate
day_gate = record {
  engaged = false;
  quiet_start = 79200;
  quiet_end = 25200;
  now = 36000;
  clock = "10:00";
  window = λ _. none;
}

glass_found : get "glass" world.records ≡ some glass
unfolding get find
glass_found = refl

cup_is_not_glass : ◌≢◌ {A = String} "cup" "glass"
cup_is_not_glass e = ground (arith, eq_iff "cup" "glass")

lease_exclusive_example :
    (claim_for_send "glass" 120 5060 (
      run 120
        (claims "cup" 900 ∷ claims "glass" 5030 ∷ releases "cup" ∷ [])
        (claim_for_send "glass" 120 5000 world.records).1)).0
    ≡ false
unfolding claim_for_send
lease_exclusive_example =
    lease_exclusive "glass" 120 5000 5060 world.records
      (claims "cup" 900 ∷ claims "glass" 5030 ∷ releases "cup" ∷ []) refl
      (inl cup_is_not_glass, (inr (omega arith), (cup_is_not_glass, tt))) (omega arith)

fire_begin_owed_example :
    let (phase, w') = fire_begin day_gate clock "glass" 7 "a glass of water" world in
    ((r' : Reminder) × (phase ≡ sending (some r')) × (r'.sent ≡ false))
    ⊎ Rescheduled "glass" world w'
fire_begin_owed_example =
    fire_begin_owed day_gate clock "glass" 7 "a glass of water" world glass glass_found refl

fire_end_settles_example :
    (w' : World) × (fire_end clock "glass" (some glass) delivered world ≡ some w')
    × Settled clock "glass" glass delivered world w'
fire_end_settles_example =
    fire_end_settles clock "glass" glass delivered world march_1-IsValid
      (inr (water-IsValid, (january_31, refl, january_31-IsValid)))

-- The stale lease of the crashed sender is taken over, so the message says that it may be a repeat.
fire_begin_honest_example :
    (fire_begin day_gate clock "glass" 7 "a glass of water" world).1.messages
    ≡ record {
      chat_id = 7;
      text = "a glass of water";
      may_repeat = lease_stale lease_seconds clock.utc glass.claimed_at || glass.takeover;
    }
      ∷ []
unfolding fire_begin get find claim_for_send can_send_proactively in_quiet_hours person_is_quiet
fire_begin_honest_example =
    fire_begin_honest day_gate clock "glass" 7 "a glass of water" world glass
      (some (record glass { claimed_at = moment 5000; takeover = true })) glass_found refl refl

-- After a restart the glass of water has a job again.
init_strands_none_example :
    All
      (λ r. CanStart r → HasJob clock r.id (init none clock world))
      (list_pending none world.records)
init_strands_none_example = init_strands_none none clock world march_1-IsValid

-- water every 90 minutes from 09:00 to 18:00, asked for after it was first due
abbrev water_please : Request
water_please = record {
  chat_id = 7;
  text = "drink water";
  when_iso = moment january_31;
  repeat = interval;
  interval_minutes = 90;
  window_start = some (9, 0);
  window_end = some (18, 0);
}
