-- ===== src/Reviews.antt =====
-- Review scaling, memory/review_scaling.py: which memory proposals a human must see. Every operation
-- runs under the file lock on the stats; `digest` is the hash of a fact's stripped content.
pub mod Trust
pub mod Holds
pub mod Wrong
use kyraan.Base.{
  ℕ, suc, ◌+◌, ◌*◌, String, Bool, true, false, not, ◌&&◌, ◌||◌, Option, none, some, List, [], ◌∷◌,
  ◌++◌, length, last, any, map, ltb, leb, ◌==◌, str_eq, str_in, if◌then◌else◌,
}

pub data Mode : Type 0 where
  full : Mode
  sampled : Mode

pub record Fingerprints : Type 0 where
  pub tiers : String
  pub prompt : String

pub record Stats : Type 0 where
  pub total_reviewed : ℕ
  pub recent : List Bool
  pub since_hold : ℕ
  pub mode_logged : Option Mode
  pub fingerprints : Option Fingerprints
  pub auto_recent : List String

-- `_load` of a missing file
abbrev pub no_stats : Stats
no_stats = record {
  total_reviewed = 0;
  recent = [];
  since_hold = 0;
  mode_logged = none;
  fingerprints = none;
  auto_recent = [];
}

abbrev pub total_needed : ℕ
total_needed = 200

abbrev pub trailing : ℕ
trailing = 50

abbrev pub hold_every : ℕ
hold_every = 3

-- `_AUTO_RECENT_MAX`
abbrev pub auto_recent_max : ℕ
auto_recent_max = 50

unfoldable pub record_decision : Bool → Stats → Stats
record_decision approved s = record s {
  total_reviewed = suc s.total_reviewed;
  recent = last trailing (s.recent ++ approved ∷ []);
}

unfoldable pub retrigger : Stats → Stats
retrigger s = record s { recent = []; since_hold = 0; mode_logged = none }

-- `sum(recent)`
abbrev pub approvals : List Bool → ℕ
approvals [] = 0
approvals (true ∷ rest) = suc (approvals rest)
approvals (false ∷ rest) = approvals rest

-- The counters' condition. The rate is `sum / len >= 0.90`; ten times the one and nine times the other
-- compare alike, since the window has exactly fifty decisions there.
unfoldable pub is_sampled : Stats → Bool
is_sampled s =
    leb total_needed s.total_reviewed
    && leb trailing (length s.recent)
    && leb (9 * length s.recent) (10 * approvals s.recent)

same_fingerprints : Fingerprints → Fingerprints → Bool
same_fingerprints f g = str_eq f.tiers g.tiers && str_eq f.prompt g.prompt

-- `stored is not None and stored != current`
unfoldable pub is_changed : Fingerprints → Option Fingerprints → Bool
unfolding same_fingerprints
is_changed current none = false
is_changed current (some stored) = not (same_fingerprints stored current)

-- The saved stats when nothing changed: the first fingerprints stay, the mode is logged.
stored_fingerprints : Fingerprints → Option Fingerprints → Option Fingerprints
stored_fingerprints current none = some current
stored_fingerprints current (some stored) = some stored

unfoldable pub review_mode : Fingerprints → Stats → Mode × Stats
unfolding stored_fingerprints
review_mode current s =
    if is_changed current s.fingerprints
    then (full, record s { recent = []; since_hold = 0; fingerprints = some current })
    else (let mode : Mode = if is_sampled s then sampled else full in
        (
          mode,
          record s {
            fingerprints = stored_fingerprints current s.fingerprints;
            mode_logged = some mode;
          },
        ))

-- the rest of `next_proposal_holds`, after the mode
unfoldable pub hold : Mode → Stats → Bool × Stats
hold full s = (true, s)
hold sampled s =
    if leb hold_every (suc s.since_hold)
    then (true, record s { since_hold = 0 })
    else (false, record s { since_hold = suc s.since_hold })

unfoldable pub next_proposal_holds : Fingerprints → Stats → Bool × Stats
next_proposal_holds current s =
    let (mode, s') : Mode × Stats = review_mode current s in hold mode s'

-- A file of the pending folder: its fact, its `auto_approve_after` line when it has one, as seconds, and
-- whether the memory store could promote it.
pub record Proposal : Type 0 where
  pub content : String
  pub deadline : Option ℕ
  pub promotable : Bool

-- `not deadline or deadline > now`
is_open : ℕ → Option ℕ → Bool
is_open now none = true
is_open now (some deadline) = ltb now deadline

module _ (digest : String → String) where
  unfoldable pub record_auto_approved : String → Stats → Stats
  record_auto_approved content s = record s {
    auto_recent = last auto_recent_max (s.auto_recent ++ digest content ∷ []);
  }

  -- `digests & set(auto_recent)`
  unfoldable pub is_wrong : List String → Stats → Bool
  is_wrong contents s = any (λ content. str_in (digest content) s.auto_recent) contents

  unfoldable pub on_forgotten : List String → Stats → Stats
  on_forgotten contents s = if is_wrong contents s then retrigger s else s

  -- The promoted proposals and the stats, file by file.
  unfoldable pub sweep_auto_approvals : ℕ → List Proposal → Stats → List Proposal × Stats
  unfolding is_open
  sweep_auto_approvals now [] s = ([], s)
  sweep_auto_approvals now (p ∷ ps) s =
      let skipped : Bool = is_open now p.deadline || not p.promotable in
      let (promoted, s') : List Proposal × Stats =
        sweep_auto_approvals now ps (if skipped then s else record_auto_approved p.content s) in
      (if skipped then promoted else p ∷ promoted, s')
