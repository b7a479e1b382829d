-- ===== src/Reminders/Defs.antt =====
-- `Reminder`. A stored time text is what `fromisoformat` makes of it: "" is `blank`.
use kyraan.Base.{ℕ, String, Bool}
use kyraan.Calendar.{Moment}
use kyraan.Schedule.{Rule}

pub data Stamp (T : Type 0) : Type 0 where
  blank : Stamp T
  moment : T → Stamp T
  malformed : String → Stamp T

-- Claims and deliveries are stamped in UTC seconds; a due time is a wall-clock moment.
pub record Reminder : Type 0 where
  pub id : String
  pub chat_id : ℕ
  pub text : String
  pub when_iso : Stamp Moment
  pub sent : Bool
  pub claimed_at : Stamp ℕ
  pub takeover : Bool
  pub rule : Rule
  pub open rule use *
  pub delivered_at : Stamp ℕ
