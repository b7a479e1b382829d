-- ===== src/Reviews/Trust.antt =====
-- The counters of review_scaling.py, and the decisions since the last retrigger.
use kyraan.Base.{
  ℕ, String, Bool, false, ◌&&◌, List, [], ◌∷◌, ◌++◌, length, last, ◌≡◌, refl, leb, if◌then◌else◌,
  arith,
}
use kyraan.Reviews.{
  Stats, Mode, full, sampled, Fingerprints, Proposal, record_decision, retrigger, approvals,
  is_changed, review_mode, hold, next_proposal_holds, record_auto_approved, is_wrong, on_forgotten,
  sweep_auto_approvals,
}

-- What happens to the stats: a human decision, a question for the mode, a new proposal, facts forgotten,
-- a sweep of the pending folder.
pub data Op : Type 0 where
  decide : Bool → Op
  ask : Fingerprints → Op
  propose : Fingerprints → Op
  forget : List String → Op
  sweep : ℕ → List Proposal → Op

pub review_mode_counts :
    (current : Fingerprints) (s : Stats)
    → ((review_mode current s).1.total_reviewed ≡ s.total_reviewed)
      × ((review_mode current s).1.recent
          ≡ (if is_changed current s.fingerprints then [] else s.recent))
unfolding review_mode
review_mode_counts current s = ground arith

pub hold_counts :
    (mode : Mode) (s : Stats)
    → ((hold mode s).1.total_reviewed ≡ s.total_reviewed) × ((hold mode s).1.recent ≡ s.recent)
unfolding hold
hold_counts full s = (refl, refl)
hold_counts sampled s = ground arith

module _ (digest : String → String) where
  unfoldable pub apply : Op → Stats → Stats
  apply (decide approved) s = record_decision approved s
  apply (ask current) s = (review_mode current s).1
  apply (propose current) s = (next_proposal_holds current s).1
  apply (forget contents) s = on_forgotten digest contents s
  apply (sweep now ps) s = (sweep_auto_approvals digest now ps s).1

  abbrev pub run : List Op → Stats → Stats
  run [] s = s
  run (x ∷ xs) s = run xs (apply x s)

  -- the fingerprints changed, or a fact that was approved automatically was forgotten
  unfoldable pub resets : Op → Stats → Bool
  resets (ask current) s = is_changed current s.fingerprints
  resets (propose current) s = is_changed current s.fingerprints
  resets (forget contents) s = is_wrong digest contents s
  resets _ s = false

  -- a human decision, oldest first
  abbrev pub decision : Op → List Bool
  decision (decide approved) = approved ∷ []
  decision _ = []

  -- All human decisions, and those since the last reset.
  abbrev pub decisions : List Op → List Bool → List Bool
  decisions [] before = before
  decisions (x ∷ xs) before = decisions xs (before ++ decision x)

  abbrev pub fresh_decisions : List Op → Stats → List Bool → List Bool
  fresh_decisions [] s before = before
  fresh_decisions (x ∷ xs) s before =
      fresh_decisions xs (apply x s) (if resets x s then [] else before ++ decision x)

  -- The counters: the total, and the last fifty fresh decisions.
  abbrev pub Counts : Stats → List Bool → List Bool → Type 0
  Counts s all fresh = (s.total_reviewed ≡ length all) × (s.recent ≡ last 50 fresh)

  pub sweep_counts :
      (now : ℕ) (ps : List Proposal) (s : Stats)
      → ((sweep_auto_approvals digest now ps s).1.total_reviewed ≡ s.total_reviewed)
        × ((sweep_auto_approvals digest now ps s).1.recent ≡ s.recent)
  unfolding sweep_auto_approvals record_auto_approved
  sweep_counts now [] s = (refl, refl)
  sweep_counts now (p ∷ ps) s =
      ground (
        arith,
        sweep_counts now ps s,
        sweep_counts now ps (record_auto_approved digest p.content s),
      )

  pub forgotten_recent :
      (contents : List String) (s : Stats)
      → (on_forgotten digest contents s).recent
        ≡ (if is_wrong digest contents s then [] else s.recent)
  unfolding on_forgotten retrigger
  forgotten_recent contents s = ground arith

  -- Two hundred decisions of `all`, fifty of `fresh`, and 45 approvals among the last fifty of these.
  abbrev pub is_earned : List Bool → List Bool → Bool
  is_earned all fresh =
      leb 200 (length all) && leb 50 (length fresh) && leb 45 (approvals (last 50 fresh))
