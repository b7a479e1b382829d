-- ===== src/Reviews/Wrong.antt =====
-- Wrong automatic approvals in review_scaling.py.
use kyraan.Base.{ℕ, ◌+◌, ◌≤◌, String, List, [], ◌∷◌, ◌++◌, length, ◌≡◌}
use kyraan.Reviews.{Stats, sweep_auto_approvals}
use kyraan.Reviews.Trust.{Op, sweep, apply, decision}

module _ (digest : String → String) where
  -- automatic approvals in a run
  abbrev pub approved_by : Op → Stats → ℕ
  approved_by (sweep now ps) s = length (sweep_auto_approvals digest now ps s).0
  approved_by _ s = 0

  abbrev pub auto_approvals : List Op → Stats → ℕ
  auto_approvals [] s = 0
  auto_approvals (x ∷ xs) s = approved_by x s + auto_approvals xs (apply digest x s)

  -- human decisions in a run
  abbrev pub human_decisions : List Op → ℕ
  human_decisions [] = 0
  human_decisions (x ∷ xs) = length (decision digest x) + human_decisions xs

  -- The digest is among the remembered ones, with at most `n` after it.
  record Remembers (d : String) (n : ℕ) (s : Stats) : Type 0 where
    front : List String
    back : List String
    at : s.auto_recent ≡ front ++ d ∷ back
    few : length back ≤ n
