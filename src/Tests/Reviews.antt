-- ===== src/Tests/Reviews.antt =====
-- Runs of the review scaling.
use kyraan.Base.{String, refl, true, false, some, List, [], ◌∷◌, ◌≤◌, again, arith}
use kyraan.Reviews.{
  Stats, sampled, Fingerprints, review_mode, is_sampled, is_changed, record_decision,
  next_proposal_holds, hold,
}
use kyraan.Reviews.Trust.{Op, decide, propose, sweep, apply, resets}
use kyraan.Reviews.Holds.{unheld, every_third_held}

abbrev prints : Fingerprints
prints = record { tiers = "groq:llama"; prompt = "5ba9" }

-- the hash, for the tests
abbrev itself : String → String
itself s = s

abbrev trusted : Stats
trusted = record {
  total_reviewed = 240;
  recent = again 50 true [];
  since_hold = 0;
  mode_logged = some sampled;
  fingerprints = some prints;
  auto_recent = [];
}

-- two hundred approvals and a proposal
abbrev approving : List Op
approving = again 200 (decide true) (propose prints ∷ [])

every_third_held_example :
    unheld itself (propose prints ∷ decide true ∷ propose prints ∷ propose prints ∷ []) trusted 0
    ≤ 2
unfolding is_changed resets apply record_decision next_proposal_holds hold review_mode is_sampled
every_third_held_example =
    every_third_held itself (propose prints ∷ decide true ∷ propose prints ∷ propose prints ∷ [])
      trusted 0 (refl, (refl, (refl, (refl, tt)))) (omega arith, omega arith)

-- between the approval and the forgetting a person decides, a proposal comes in and a sweep promotes
abbrev busy : List Op
busy =
    decide false
    ∷ propose prints
    ∷ sweep 500 (
        record { content = "a cat"; deadline = some 400; promotable = true }
        ∷ record { content = "a dog"; deadline = some 600; promotable = true }
        ∷ [])
    ∷ []
