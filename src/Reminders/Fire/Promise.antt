-- ===== src/Reminders/Fire/Promise.antt =====
-- Reminders that owe a send, under `fire` of scheduler.py.
use kyraan.Base.{
  ℕ, String, ◌<◌, ◌≡◌, ◌≢◌, refl, sym, ◌∙◌, ap, ◌⊎◌, inl, inr, Bool, true, false, ◌||◌, Option,
  some, ◌∷◌, arith, Bool-cases,
}
use kyraan.Calendar.{Moment, seconds, MomentIsValid}
use kyraan.Calendar.Ordinals.{seconds-add_seconds}
use kyraan.Kernel.Proactive.{Gate, can_send_proactively}
use kyraan.Schedule.{Repeat, once, interval}
use kyraan.Schedule.Later.{RuleIsValid, IsCalendar, IsLater}
use kyraan.Schedule.CatchUp.{advance_past_now-IsLater}
use kyraan.Reminders.Defs.{moment, Reminder}
use kyraan.Reminders.Store.{
  Records, get, mark_sent, claim_record, claim_for_send, lease_stale, roll_forward,
}
use kyraan.Reminders.Store.Lease.{get-claim, claim_refused_same}
use kyraan.Reminders.Fire.{
  World, Clock, lease_seconds, Phase, sending, deferred, cleared, claimed, owed, takes_over,
  fire_begin, Delivery, delivered, withheld, failed, next_of, rolled, is_once, settle_sent,
  fire_end,
}

-- The world has a job for the reminder that it had not.
abbrev pub Rescheduled : String → World → World → Type 0
Rescheduled id w w' =
    (due : Moment) × (w'.jobs ≡ record { id = id; due = due; late = false } ∷ w.jobs)

-- What the first part of a fire comes to: a message on its way with the record it is for, or a new job.
abbrev Covered : String → World → Phase × World → Type 0
Covered id w (phase, w') =
    ((r' : Reminder) × (phase ≡ sending (some r')) × (r'.sent ≡ false)) ⊎ Rescheduled id w w'

module _ (g : Gate) (clock : Clock) (id : String) (chat_id : ℕ) (text : String) (w : World) where
  cleared-Covered :
      (rs : Records) (r : Reminder)
      → get id rs ≡ some r
      → r.sent ≡ false
      → Covered id w (cleared g clock id chat_id text (record w { records = rs }))
  unfolding cleared
  cleared-Covered rs r e unsent =
      elim (Bool-cases (can_send_proactively g false (some chat_id)).0) [
        | inl sends ↦ rw sends (inl (r, ap sending e, unsent))
        | inr held ↦ rw held (inr (_, refl))
      ]

  claimed-Covered :
      (c : Bool × Records) (r : Reminder)
      → get id c.1 ≡ some r
      → r.sent ≡ false
      → Covered id w (claimed g clock id chat_id text w c)
  unfolding claimed deferred
  claimed-Covered (true, rs) r e unsent = cleared-Covered rs r e unsent
  claimed-Covered (false, rs) r e unsent = rw e (rw unsent (inr (_, refl)))

  get-claim_any :
      (r : Reminder)
      → get id w.records ≡ some r
      → r.sent ≡ false
      → (r' : Reminder) × (get id (claim_for_send id lease_seconds clock.utc w.records).1 ≡ some r')
        × (r'.sent ≡ false)
  get-claim_any r e unsent =
      elim (Bool-cases (claim_for_send id lease_seconds clock.utc w.records).0) [
        | inl granted ↦ (
          claim_record lease_seconds clock.utc r,
          get-claim id lease_seconds clock.utc w.records r e granted,
          unsent,
        )
        | inr refused ↦ (
          r,
          ap (get id) (claim_refused_same id lease_seconds clock.utc w.records refused) ∙ e,
          unsent,
        )
      ]

  -- The first part of a fire leaves a reminder that owes a send with a message on its way, or a new job.
  pub fire_begin_owed :
      (r : Reminder)
      → get id w.records ≡ some r
      → r.sent ≡ false
      → let (phase, w') = fire_begin g clock id chat_id text w in
        ((r' : Reminder) × (phase ≡ sending (some r')) × (r'.sent ≡ false)) ⊎ Rescheduled id w w'
  unfolding fire_begin owed
  fire_begin_owed r e unsent =
      let (r', e', unsent') = get-claim_any r e unsent in
      rw e (
        rw unsent
          (claimed-Covered (claim_for_send id lease_seconds clock.utc w.records) r' e' unsent'))

-- a record that `fire` can settle: one-shot, or a series with a valid rule and due time
abbrev pub CanSettle : Reminder → Type 0
CanSettle r =
    (r.repeat ≡ once)
    ⊎ (RuleIsValid r.rule × ((base : Moment) × (r.when_iso ≡ moment base) × MomentIsValid base))

pub is_once-rule : (x : Repeat) → (x ≡ interval) ⊎ IsCalendar x → is_once x ≡ false
unfolding is_once
is_once-rule once (inl e) = cc
is_once-rule once (inr k) = elim k [ ]
is_once-rule _ k = refl

-- What a fire leaves after the send `d`. A send that failed: the records as they were, and a job to
-- come. Else a one-shot is marked sent, without a job, and a series is rolled forward to a valid moment
-- after now, with a job for it.
abbrev pub Settled : Clock → String → Reminder → Delivery → World → World → Type 0
Settled clock id r d w w' =
    ((d ≡ failed)
      × (w'.records ≡ w.records)
      × ((due : Moment) × (w'.jobs ≡ record { id = id; due = due; late = false } ∷ w.jobs)
          × (seconds clock.now < seconds due)))
    ⊎ ((d ≢ failed)
        × (r.repeat ≡ once)
        × (w'.records ≡ mark_sent id w.records)
        × (w'.jobs ≡ w.jobs))
    ⊎ ((d ≢ failed)
        × (r.repeat ≢ once)
        × ((next : Moment) × IsLater clock.now next
            × (w'.records ≡ roll_forward id (moment next) clock.utc w.records)
            × (w'.jobs ≡ record { id = id; due = next; late = false } ∷ w.jobs)))

settles :
    (clock : Clock) (id : String) (r : Reminder) (d : Delivery) (w : World)
    → d ≢ failed
    → MomentIsValid clock.now
    → CanSettle r
    → (w' : World) × (settle_sent id clock w r ≡ some w') × Settled clock id r d w w'
unfolding settle_sent rolled next_of
settles clock id r d w went vn (inl single) =
    let one : is_once r.repeat ≡ true = unfold is_once in ap is_once single in
    rw one (_, refl, inr (inl (went, single, refl, refl)))
settles clock id r d w went vn (inr (rv, (base, e, vb))) =
    let (next, e2, later) = advance_past_now-IsLater r.rule base clock.now rv vb vn in
    let series : is_once r.repeat ≡ false = is_once-rule r.repeat rv.recurs in
    let not_once : r.repeat ≢ once =
      λ same. let one : is_once r.repeat ≡ true = unfold is_once in ap is_once same in cc in
    rw series (rw e (rw e2 (_, refl, inr (inr (went, not_once, (next, later, refl, refl))))))

-- The second part of a fire ends, whatever others did to the store meanwhile. After a send that failed
-- the records are as they were, and there is a new job, to come. After any other a one-shot is marked
-- sent, and a series is rolled forward to a valid moment after now, with a job for that moment. The
-- conditions: the clock is valid, and the reminder is one-shot, or has a valid rule and due time.
pub fire_end_settles :
    (clock : Clock) (id : String) (r : Reminder) (d : Delivery) (w : World)
    → MomentIsValid clock.now
    → CanSettle r
    → (w' : World) × (fire_end clock id (some r) d w ≡ some w') × Settled clock id r d w w'
unfolding fire_end
fire_end_settles clock id r failed w vn k =
    (_, refl, inl (refl, refl, (_, refl, omega (arith, seconds-add_seconds clock.now 150 vn))))
fire_end_settles clock id r delivered w vn k = settles clock id r delivered w (λ e. cc) vn k
fire_end_settles clock id r withheld w vn k = settles clock id r withheld w (λ e. cc) vn k

module _ (g : Gate) (clock : Clock) (id : String) (chat_id : ℕ) (text : String) (w : World) where
  cleared_message :
      (rs : Records) (r : Reminder) (sent_for : Option Reminder)
      → get id rs ≡ some r
      → (cleared g clock id chat_id text (record w { records = rs })).0 ≡ sending sent_for
      → (cleared g clock id chat_id text (record w { records = rs })).1.messages
        ≡ record { chat_id = chat_id; text = text; may_repeat = r.takeover } ∷ w.messages
  unfolding cleared
  cleared_message rs r sent_for e h =
      elim (Bool-cases (can_send_proactively g false (some chat_id)).0) [
        | inl sends ↦ rw sends (
            ap
              (λ o.
                record { chat_id = chat_id; text = text; may_repeat = takes_over o } ∷ w.messages)
              e)
        | inr held ↦ absurd (ground arith)
      ]

  claimed_granted :
      (c : Bool × Records) (sent_for : Option Reminder)
      → (claimed g clock id chat_id text w c).0 ≡ sending sent_for
      → c.0 ≡ true
  unfolding claimed deferred
  claimed_granted (true, rs) sent_for h = refl
  claimed_granted (false, rs) sent_for h = ground arith

  claimed_message :
      (c : Bool × Records) (r : Reminder) (sent_for : Option Reminder)
      → get id c.1 ≡ some r
      → (claimed g clock id chat_id text w c).0 ≡ sending sent_for
      → (claimed g clock id chat_id text w c).1.messages
        ≡ record { chat_id = chat_id; text = text; may_repeat = r.takeover } ∷ w.messages
  unfolding claimed deferred
  claimed_message (true, rs) r sent_for e h = cleared_message rs r sent_for e h
  claimed_message (false, rs) r sent_for e h = ground arith

  fire_begin_claims :
      (r : Reminder)
      → get id w.records ≡ some r
      → r.sent ≡ false
      → fire_begin g clock id chat_id text w
        ≡ claimed g clock id chat_id text w (claim_for_send id lease_seconds clock.utc w.records)
  unfolding fire_begin owed
  fire_begin_claims r e unsent = rw e (rw unsent refl)

  -- A message that goes out says that it may be a repeat exactly if the claim took over a stale lease
  -- now, or one before it did.
  pub fire_begin_honest :
      (r : Reminder) (sent_for : Option Reminder)
      → get id w.records ≡ some r
      → r.sent ≡ false
      → (fire_begin g clock id chat_id text w).0 ≡ sending sent_for
      → (fire_begin g clock id chat_id text w).1.messages
        ≡ record {
          chat_id = chat_id;
          text = text;
          may_repeat = lease_stale lease_seconds clock.utc r.claimed_at || r.takeover;
        }
          ∷ w.messages
  fire_begin_honest r sent_for e unsent h =
      let c = claim_for_send id lease_seconds clock.utc w.records in
      let claims = fire_begin_claims r e unsent in
      let open_claim = sym (ap (λ (x : Phase × World). x.0) claims) ∙ h in
      let granted = claimed_granted c sent_for open_claim in
      ap (λ (x : Phase × World). x.1.messages) claims
      ∙ claimed_message c (claim_record lease_seconds clock.utc r) sent_for
          (get-claim id lease_seconds clock.utc w.records r e granted) open_claim
