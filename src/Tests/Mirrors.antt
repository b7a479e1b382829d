-- ===== src/Tests/Mirrors.antt =====
-- Runs of the database mirror and of the claim in SQL.
use mathlib.Core.Option
use kyraan.Base.{List, ◌≡◌, refl, true, false, some, [], ◌∷◌, arith}
use kyraan.Base.Table.{find}
use kyraan.Reminders.{blank, moment, Reminder}
use kyraan.Reminders.Store.{id_of, claim_for_send}
use kyraan.Mirror.{
  Mirror, Attempt, Marks, save_all, guarded_mirror, settle_mirror, committed, raised,
  records_for_read, reminder_columns, is_stale, mark_stale, clear_stale, pg_claim_for_send,
}
use kyraan.Mirror.Marks.{marks_own}
use kyraan.Mirror.View.{run_saves, read_refines}
use kyraan.Mirror.Claim.{claims_agree}
use kyraan.Tests.Deliveries.{glass}

abbrev cup : Reminder
cup = record glass { id = "cup"; claimed_at = blank }

abbrev empty_mirror : Mirror Reminder
empty_mirror = record { file = []; table = []; marks = []; breaker_until = 0 }

reminder_same_id : (r : Reminder) → id_of (reminder_columns r) ≡ id_of r
unfolding reminder_columns
reminder_same_id r = refl

reminder_same_columns : (r : Reminder) → reminder_columns (reminder_columns r) ≡ reminder_columns r
unfolding reminder_columns
reminder_same_columns r = refl

-- the first save reaches the database, the second raises, the third finds the breaker open
abbrev saves : List (List Reminder × Attempt Reminder)
saves =
    (
      glass ∷ [],
      record { enabled = true; now = 10; later = 10; outcome = committed; written = true },
    )
    ∷ (
      glass ∷ cup ∷ [],
      record {
        enabled = true;
        now = 20;
        later = 30;
        outcome = raised "no route" [];
        written = true;
      },
    )
    ∷ (
      cup ∷ [],
      record { enabled = true; now = 40; later = 40; outcome = committed; written = true },
    )
    ∷ []

-- the read finds the mark and serves the file, which the last save left without the glass
read_refines_example :
    Option.map reminder_columns (
      find id_of "cup" (
        records_for_read "reminders" true (some []) (
          run_saves id_of reminder_columns reminder_same_id reminder_same_columns "reminders" saves
            empty_mirror)))
    ≡ some (reminder_columns cup)
unfolding find save_all guarded_mirror settle_mirror
read_refines_example =
    read_refines id_of reminder_columns reminder_same_id reminder_same_columns "reminders" saves
      empty_mirror true (some []) "cup"
      (((refl, tt), refl, refl), (((refl, (refl, tt)), refl, refl), (((refl, tt), refl, refl), tt)))
      (λ _ _. refl) (λ _. refl)

claims_agree_example :
    pg_claim_for_send (λ _ _. false) "cup" 120 5000 (glass ∷ cup ∷ [])
    ≡ (true, glass ∷ record cup { claimed_at = moment 5000 } ∷ [])
unfolding claim_for_send find
claims_agree_example =
    claims_agree (λ _ _. false) "cup" 120 5000 (glass ∷ cup ∷ []) (refl, (refl, tt))
      ((λ e. ground (arith, e)), (tt, tt))

abbrev ledger_marked : Marks
ledger_marked = record { store = "ledger"; stale = true; reason = "no route" } ∷ []

marks_own_example :
    (is_stale "ledger" (mark_stale "tasks" "no route" true ledger_marked) ≡ true)
    × (is_stale "ledger" (clear_stale "tasks" true ledger_marked) ≡ true)
unfolding is_stale find
marks_own_example = marks_own "tasks" "ledger" "no route" ledger_marked
