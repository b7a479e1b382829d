-- ===== src/Sessions/Secrets/Covered.antt =====
-- What `redact_recent` leaves of a secret, in the window and in the log.
use mathlib.Core.Path.{subst}
use kyraan.Base.{
  ℕ, suc, zero, ◌-◌, String, false, List, [], ◌∷◌, ◌++◌, length, ◌==◌, str_eq, All, ◌≡◌, refl, ap,
  sym, ◌∙◌, arith, Bool-cases, inl, inr, drop, last, ◌≢◌,
}
use kyraan.Sessions.{Turn, Session, window, clear_window}
use kyraan.Sessions.Steady.{Steady, seen, left, After, Steady-After, window-After, command_lem}
use kyraan.Sessions.Shown.{extend_window_lem}
use kyraan.Sessions.Log.{Words, Line, apply_redactions, turns}
use kyraan.Sessions.Secrets.{
  has_words, cover_words, count_words, redact_line, replaced, redact_recent,
}
use kyraan.Sessions.Secrets.Lines.{IsNeutral, IsHidden, log_covered}

All-drop : (P : Turn → Type 0) (n : ℕ) (ts : List Turn) → All P ts → All P (drop n ts)
All-drop P zero ts h = h
All-drop P (suc n) [] h = tt
All-drop P (suc n) (t ∷ ts) h = All-drop P n ts h.1

cover_words-IsHidden :
    (w : Words) (needle : String) (ts : List Turn)
    → IsNeutral w needle
    → All (IsHidden w needle) (cover_words w needle ts)
unfolding cover_words has_words
cover_words-IsHidden w needle [] n = tt
cover_words-IsHidden w needle (t ∷ ts) n = (
  elim (Bool-cases (w.has_lower t.text needle)) [ inl h ↦ simp h n.0 | inr h ↦ simp h refl ],
  cover_words-IsHidden w needle ts n,
)

clear_window-After : (s : Session) → Steady s → After (clear_window s) s [] (left s)
unfolding clear_window
clear_window-After s h = rw (command_lem s h) (record {
  live_same = ground arith;
  answers_same = ground arith;
  seen_now = ground arith;
  left_now = ground arith;
  rolling_same = ground arith;
})

-- the window is replaced by these turns, cut to the last forty
replaced_lem : (ts : List Turn) (s : Session) → Steady s → seen (replaced ts s) ≡ last 40 ts
unfolding replaced
replaced_lem ts s h =
    let a = clear_window-After s h in
    extend_window_lem ts (clear_window s) (Steady-After a h) (rw a.seen_now (omega arith))
    ∙ ap (λ l. last 40 (l ++ ts)) a.seen_now

-- what `redact_recent` does when it finds the words
redact_recent_lem :
    (w : Words) (c entries : ℕ) (needle : String) (s : Session)
    → str_eq needle "" ≡ false
    → (redact_recent w c entries needle s).0 ≢ 0
    → ((redact_recent w c entries needle s).1
        ≡ replaced (cover_words w needle (window s).0) (window s).1)
      × ((redact_recent w c entries needle s).2 ≡ redact_line c needle 0 ∷ [])
unfolding redact_recent
redact_recent_lem w c entries needle s h found =
    elim (Bool-cases (count_words w needle (window s).0 == 0)) [
      | inl none_found ↦ absurd (found (simp (h, none_found) refl))
      | inr some_found ↦ simp (h, some_found) (refl, refl)
    ]

-- When `redact_recent` finds an entry with the words, no entry of the window has them afterwards, and no
-- turn that a restart reads back from the log, whatever lines and redactions this holds before. The
-- conditions: the words are not empty, the fixed texts (the placeholder of a secret and those of old
-- lines) do not have them, and Redis answers every command or is given up.
pub secret_covered :
    (w : Words) (c entries : ℕ) (needle : String) (s : Session) (log : List Line)
    → str_eq needle "" ≡ false
    → IsNeutral w needle
    → Steady s
    → (redact_recent w c entries needle s).0 ≢ 0
    → All (IsHidden w needle) (seen (redact_recent w c entries needle s).1)
      × All
          (IsHidden w needle)
          (turns w c (apply_redactions w (log ++ (redact_recent w c entries needle s).2)))
secret_covered w c entries needle s log h n steady found =
    let (session, line) = redact_recent_lem w c entries needle s h found in
    let (_, a) = window-After s steady in
    let covered_now : List Turn = cover_words w needle (window s).0 in
    (
      subst (λ r. All (IsHidden w needle) (seen r)) (sym session)
          (subst (All (IsHidden w needle))
            (sym (replaced_lem covered_now (window s).1 (Steady-After a steady)))
            (All-drop (IsHidden w needle) (length covered_now - 40) covered_now
              (cover_words-IsHidden w needle (window s).0 n))),
      subst (λ ls. All (IsHidden w needle) (turns w c (apply_redactions w (log ++ ls)))) (sym line)
          (log_covered w c needle log h n),
    )
