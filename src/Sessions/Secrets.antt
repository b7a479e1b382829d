-- ===== src/Sessions/Secrets.antt =====
-- `redact_recent` of secrets.py, in the window and in the lines of the log.
pub mod Lines
pub mod Covered
use mathlib.Core.Path.{subst}
use kyraan.Base.{
  ℕ, suc, zero, ◌-◌, String, Bool, true, false, not, ◌&&◌, Option, none, some, List, [], ◌∷◌, ◌++◌,
  length, ◌==◌, str_eq, if◌then◌else◌, All, ◌≡◌, refl, ap, sym, ◌∙◌, arith, Bool-cases, inl, inr,
  drop, last, ◌≢◌,
}
use kyraan.Sessions.{Role, user, assistant, Turn, Session, window, clear_window, extend_window}
use kyraan.Sessions.Steady.{Steady, seen, left, After, Steady-After, window-After, command_lem}
use kyraan.Sessions.Shown.{extend_window_lem}
use kyraan.Sessions.Log.{
  Words, Line, redact, placeholder, is_redact, is_turn_of, covered, mentions, cover_mentions,
  redacted, redact_from, apply_redactions, legacy_cloud_placeholder, role_of, or_text, or_legacy,
  seen_text, shown_role, turn_of, or_skip, turns,
}

-- the entries that `contains` means
unfoldable pub has_words : Words → String → Turn → Bool
has_words w needle t = w.has_lower t.text needle

unfoldable pub cover_words : Words → String → List Turn → List Turn
cover_words w needle [] = []
cover_words w needle (t ∷ ts) =
    (if has_words w needle t then record t { text = placeholder } else t) ∷ cover_words w needle ts

-- the last ones, by their number: all but the first `k`
unfoldable pub cover_last : ℕ → List Turn → List Turn
cover_last k [] = []
cover_last zero (t ∷ ts) = record t { text = placeholder } ∷ cover_last zero ts
cover_last (suc k) (t ∷ ts) = t ∷ cover_last k ts

unfoldable pub count_words : Words → String → List Turn → ℕ
count_words w needle [] = 0
count_words w needle (t ∷ ts) =
    let rest = count_words w needle ts in if has_words w needle t then suc rest else rest

-- The `redact` line of the log.
unfoldable pub redact_line : ℕ → String → ℕ → Line
redact_line chat_id contains count = record {
  role = redact;
  chat_id = chat_id;
  text = "";
  cloud_text = none;
  contains = contains;
  count = count;
}

unfoldable pub replaced : List Turn → Session → Session
replaced turns s = extend_window turns (clear_window s)

-- `redact_recent`: how many entries, the session, and the lines for the log
unfoldable pub redact_recent : Words → ℕ → ℕ → String → Session → ℕ × Session × List Line
unfolding has_words cover_words cover_last count_words replaced
redact_recent w chat_id entries contains s =
    let (hist, s') : List Turn × Session = window s in
    let by_words : Bool = not (str_eq contains "") in
    let skip : ℕ = length hist - entries in
    let targets : ℕ = if by_words then count_words w contains hist else length hist - skip in
    if targets == 0 then (0, s', []) else (
      targets,
      replaced (if by_words then cover_words w contains hist else cover_last skip hist) s',
      redact_line chat_id contains (if by_words then 0 else targets) ∷ [],
    )
