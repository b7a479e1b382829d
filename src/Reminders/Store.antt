-- ===== src/Reminders/Store.antt =====
-- The reminder store: the file's records in order. Every operation runs under the file lock, so it is
-- one step from records to records; `now` is the UTC clock.
pub mod Lease
use kyraan.Base.{
  ℕ, ◌+◌, String, Bool, true, false, not, ◌&&◌, ◌||◌, Option, none, some, List, [], ◌∷◌, ◌++◌, keep,
  ltb, ◌==◌, str_eq, length, if◌then◌else◌,
}
use kyraan.Base.Table.{find, update, remove}
use kyraan.Calendar.{Moment}
use kyraan.Schedule.{Rule}
use kyraan.Reminders.Defs.{Stamp, blank, moment, malformed, Reminder}

abbrev pub Records : Type 0
Records = List Reminder

abbrev pub id_of : Reminder → String
id_of r = r.id

-- `_add_locked`; the new id is the caller's
unfoldable pub add : String → ℕ → String → Stamp Moment → Rule → Records → Reminder × Records
add id chat_id text when_iso rule records =
    let reminder : Reminder = record {
      id = id;
      chat_id = chat_id;
      text = text;
      when_iso = when_iso;
      sent = false;
      claimed_at = blank;
      takeover = false;
      rule = rule;
      delivered_at = blank;
    } in
    (reminder, records ++ reminder ∷ [])

unfoldable pub list_pending : Option ℕ → Records → Records
list_pending chat_id records =
    let pending = keep (λ (r : Reminder). not r.sent) records in
    elim chat_id [ none ↦ pending | some c ↦ keep (λ (r : Reminder). r.chat_id == c) pending ]

unfoldable pub get : String → Records → Option Reminder
get = find id_of

unfoldable pub mark_sent : String → Records → Records
mark_sent id = update id_of id (λ (r : Reminder). record r { sent = true })

-- the lease of a claim: whether it is live, and whether it is a crashed sender's
unfoldable pub lease_live : ℕ → ℕ → Stamp ℕ → Bool
lease_live lease now (moment claimed) = ltb now (claimed + lease)
lease_live lease now _ = false

unfoldable pub lease_stale : ℕ → ℕ → Stamp ℕ → Bool
lease_stale lease now (moment claimed) = not (ltb now (claimed + lease))
lease_stale lease now _ = false

abbrev pub claim_record : ℕ → ℕ → Reminder → Reminder
claim_record lease now r = record r {
  claimed_at = moment now;
  takeover = lease_stale lease now r.claimed_at || r.takeover;
}

-- The loop of `claim_for_send`: the first record of the id decides.
unfoldable pub claim_for_send : String → ℕ → ℕ → Records → Bool × Records
unfolding lease_live lease_stale
claim_for_send id lease now [] = (false, [])
claim_for_send id lease now (r ∷ rs) =
    let (claimed, rest) : Bool × Records = claim_for_send id lease now rs in
    if not (str_eq r.id id)
    then (claimed, r ∷ rest)
    else if r.sent || lease_live lease now r.claimed_at
    then (false, r ∷ rs)
    else (true, claim_record lease now r ∷ rs)

unfoldable pub release_claim : String → Records → Records
release_claim id = update id_of id (λ (r : Reminder). record r { claimed_at = blank })

unfoldable pub cancel : String → Records → Bool × Records
cancel id records =
    let remaining = remove id_of id records in (not (length remaining == length records), remaining)

-- `record.get("claimed_at") or now`
delivery_time : ℕ → Stamp ℕ → Stamp ℕ
delivery_time now blank = moment now
delivery_time now stamp = stamp

unfoldable pub roll_forward : String → Stamp Moment → ℕ → Records → Records
unfolding delivery_time
roll_forward id next_when now = update id_of id (λ (r : Reminder). record r {
  when_iso = next_when;
  delivered_at = delivery_time now r.claimed_at;
  claimed_at = blank;
  takeover = false;
})
