-- ===== src/Reviews/Holds.antt =====
-- Which proposals review_scaling.py holds for a human.
use kyraan.Base.{ℕ, suc, ◌≤◌, String, false, List, [], ◌∷◌, ◌≡◌, refl, if◌then◌else◌, arith}
use kyraan.Reviews.{
  Stats, Mode, full, sampled, Fingerprints, Proposal, record_decision, is_changed, review_mode,
  hold, next_proposal_holds, record_auto_approved, on_forgotten, sweep_auto_approvals,
}
use kyraan.Reviews.Trust.{Op, decide, ask, propose, forget, sweep, apply, resets}

module _ (digest : String → String) where
  -- No step of the run resets the trailing window.
  abbrev pub IsQuiet : List Op → Stats → Type 0
  IsQuiet [] s = Unit
  IsQuiet (x ∷ xs) s = (resets digest x s ≡ false) × IsQuiet xs (apply digest x s)

  -- how many proposals in a row went by without a human
  abbrev pub unheld_after : Op → Stats → ℕ → ℕ
  unheld_after (propose current) s n = if (next_proposal_holds current s).0 then 0 else suc n
  unheld_after _ s n = n

  abbrev pub unheld : List Op → Stats → ℕ → ℕ
  unheld [] s n = n
  unheld (x ∷ xs) s n = unheld xs (apply digest x s) (unheld_after x s n)

  sweep_since_hold :
      (now : ℕ) (ps : List Proposal) (s : Stats)
      → (sweep_auto_approvals digest now ps s).1.since_hold ≡ s.since_hold
  unfolding sweep_auto_approvals record_auto_approved
  sweep_since_hold now [] s = refl
  sweep_since_hold now (p ∷ ps) s = ground (
    arith,
    sweep_since_hold now ps s,
    sweep_since_hold now ps (record_auto_approved digest p.content s),
  )

  since_hold-review_mode :
      (current : Fingerprints) (s : Stats)
      → is_changed current s.fingerprints ≡ false
      → (review_mode current s).1.since_hold ≡ s.since_hold
  unfolding review_mode
  since_hold-review_mode current s h = ground (arith, h)

  -- the proposals in a row never outnumber the counter, which stays below three
  abbrev pub Paced : Stats → ℕ → Type 0
  Paced s n = (n ≤ s.since_hold) × (s.since_hold ≤ 2)

  hold-Paced :
      (mode : Mode) (s : Stats) (n : ℕ)
      → Paced s n
      → Paced (hold mode s).1 (if (hold mode s).0 then 0 else suc n)
  unfolding hold
  hold-Paced full s n h = (omega arith, h.1)
  hold-Paced sampled s n h = ground (arith, h)

  apply-Paced :
      (x : Op) (s : Stats) (n : ℕ)
      → resets digest x s ≡ false
      → Paced s n
      → Paced (apply digest x s) (unheld_after x s n)
  unfolding apply resets record_decision on_forgotten next_proposal_holds
  apply-Paced (decide approved) s n q h = h
  apply-Paced (ask current) s n q h = rw (since_hold-review_mode current s q) h
  apply-Paced (propose current) s n q h =
      hold-Paced (review_mode current s).0 (review_mode current s).1 n
        (rw (since_hold-review_mode current s q) h)
  apply-Paced (forget contents) s n q h = simp q h
  apply-Paced (sweep now ps) s n q h = rw (sweep_since_hold now ps s) h

  -- As long as nothing resets the trailing window, at most two proposals in a row go by without being
  -- held for a human, whatever decisions, sweeps and questions for the mode come between, if the
  -- counter started below three and as high as the proposals that had gone by.
  pub every_third_held :
      (xs : List Op) (s : Stats) (n : ℕ) → IsQuiet xs s → Paced s n → unheld xs s n ≤ 2
  every_third_held [] s n q h = omega (arith, h)
  every_third_held (x ∷ xs) s n q h =
      every_third_held xs (apply digest x s) (unheld_after x s n) q.1 (apply-Paced x s n q.0 h)
