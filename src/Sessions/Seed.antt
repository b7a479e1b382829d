-- ===== src/Sessions/Seed.antt =====
-- The window that a restart rebuilds from the chat log.
use mathlib.Core.Path.{ap₂}
use mathlib.Core.List.{append_assoc, append-nil}
use kyraan.Base.{
  ℕ, ◌-◌, ◌≤◌, String, false, Option, none, some, List, [], ◌∷◌, ◌++◌, map, length, last, drop,
  ◌==◌, str_eq, starts_with, All, All-append, ◌≡◌, refl, ap, sym, ◌∙◌, arith, Bool-cases, inl, inr,
}
use kyraan.Sessions.{Turn, Session, window, shown}
use kyraan.Sessions.Window.{Step, exchange, proactive, begin, end, run}
use kyraan.Sessions.Steady.{Steady, seen, Steady-After, window-After, last_idem}
use kyraan.Sessions.Kept.{recorded_by, recorded}
use kyraan.Sessions.Shown.{seen-run, extend_window_lem}
use kyraan.Sessions.Log.{
  Words, Line, log_exchange, log_proactive, is_redact, redact_from, apply_redactions,
  legacy_cloud_placeholder, or_skip, turn_of, seed_tail, turns, parsed, seed_history_from_log,
  plain_record, log_line, shown_role, role_of, seen_text, or_text,
}

-- a log line of a clean text is its turn, in the window and in the log
abbrev pub IsClean : Words → String → Type 0
IsClean w text =
    (str_eq text "" ≡ false)
    × (starts_with text w.html_mark ≡ false)
    × (legacy_cloud_placeholder w text ≡ none)

abbrev pub SaysClean : Words → Step → Type 0
SaysClean w (exchange private user_text assistant_text) =
    IsClean w user_text × IsClean w assistant_text
SaysClean w (proactive text) = IsClean w text
SaysClean w _ = Unit

-- what a step writes to the log
abbrev pub logged : Words → ℕ → Step → List Line
logged w chat_id (exchange private user_text assistant_text) =
    log_exchange w chat_id private user_text assistant_text
logged w chat_id (proactive text) = log_proactive w chat_id text
logged w chat_id _ = []

abbrev pub log_of : Words → ℕ → List Step → List Line
log_of w chat_id [] = []
log_of w chat_id (x ∷ xs) = logged w chat_id x ++ log_of w chat_id xs

or_skip-append : (o : Option Turn) (xs ys : List Turn) → or_skip o xs ++ ys ≡ or_skip o (xs ++ ys)
unfolding or_skip
or_skip-append none xs ys = refl
or_skip-append (some t) xs ys = refl

turns-append :
    (w : Words) (c : ℕ) (xs ys : List Line) → turns w c (xs ++ ys) ≡ turns w c xs ++ turns w c ys
unfolding turns
turns-append w c [] ys = refl
turns-append w c (x ∷ xs) ys = elim (Bool-cases (x.chat_id == c)) [
  | inl h ↦ simp h (
      ap (or_skip (turn_of w x)) (turns-append w c xs ys)
      ∙ sym (or_skip-append (turn_of w x) (turns w c xs) (turns w c ys)))
  | inr h ↦ simp h (turns-append w c xs ys)
]

turns-logged :
    (w : Words) (c : ℕ) (x : Step) → SaysClean w x → turns w c (logged w c x) ≡ recorded_by x
unfolding turns turn_of shown_role role_of seen_text or_text or_skip log_exchange log_proactive
    log_line plain_record shown
turns-logged w c (exchange private u a) (hu, ha) = ground (arith, hu, ha)
turns-logged w c (proactive text) h = ground (arith, h)
turns-logged w c begin h = refl
turns-logged w c (end answer) h = refl

-- without a redaction the lines stay as they are
redact_from-none :
    (w : Words) (out ls : List Line)
    → All (λ l. is_redact l ≡ false) ls
    → redact_from w out ls ≡ out ++ ls
unfolding redact_from
redact_from-none w out [] h = sym (append-nil out)
redact_from-none w out (l ∷ ls) (here, later) =
    simp here (redact_from-none w (out ++ l ∷ []) ls later ∙ append_assoc out (l ∷ []) ls)

turns-log_of :
    (w : Words) (c : ℕ) (xs : List Step)
    → All (SaysClean w) xs
    → turns w c (log_of w c xs) ≡ recorded xs
unfolding turns
turns-log_of w c [] h = refl
turns-log_of w c (x ∷ xs) (here, later) =
    turns-append w c (logged w c x) (log_of w c xs)
    ∙ ap₂ (λ a b. a ++ b) (turns-logged w c x here) (turns-log_of w c xs later)

logged-plain : (w : Words) (c : ℕ) (x : Step) → All (λ l. is_redact l ≡ false) (logged w c x)
unfolding log_exchange log_proactive log_line
logged-plain w c (exchange private u a) = (refl, (refl, tt))
logged-plain w c (proactive text) = (refl, tt)
logged-plain w c begin = tt
logged-plain w c (end answer) = tt

log_of-plain : (w : Words) (c : ℕ) (xs : List Step) → All (λ l. is_redact l ≡ false) (log_of w c xs)
log_of-plain w c [] = tt
log_of-plain w c (x ∷ xs) =
    All-append (λ l. is_redact l ≡ false) (logged w c x) (log_of w c xs) (logged-plain w c x)
      (log_of-plain w c xs)

parsed-map : (ls : List Line) → parsed (map some ls) ≡ ls
unfolding parsed
parsed-map [] = refl
parsed-map (l ∷ ls) = ap (λ r. l ∷ r) (parsed-map ls)

length-map-some : (ls : List Line) → length (map {B = Option Line} some ls) ≡ length ls
length-map-some [] = refl
length-map-some (l ∷ ls) = omega (arith, length-map-some ls)

-- what the seeding reads of a short log of clean texts
read_back :
    (w : Words) (c : ℕ) (xs : List Step)
    → All (SaysClean w) xs
    → length (log_of w c xs) ≤ 2000
    → turns w c (apply_redactions w (parsed (last 2000 (map some (log_of w c xs))))) ≡ recorded xs
unfolding apply_redactions
read_back w c xs clean short =
    let log : List (Option Line) = map some (log_of w c xs) in
    let whole : length log - 2000 ≡ 0 = omega (arith, short, length-map-some (log_of w c xs)) in
    ap (λ n. turns w c (apply_redactions w (parsed (drop n log)))) whole
    ∙ ap (λ l. turns w c (apply_redactions w l)) (parsed-map (log_of w c xs))
    ∙ ap (turns w c) (redact_from-none w [] (log_of w c xs) (log_of-plain w c xs))
    ∙ turns-log_of w c xs clean

-- A restart is invisible: an empty window that is seeded from the chat's log is the window that the
-- exchanges, private ones included, proactive messages and rolls since the first line had left. The
-- conditions: before and after, Redis answers every command or is given up, and the window starts
-- empty; the log is of this chat, without redactions, and no longer than 2000 lines; every text is
-- neither empty, nor marked as HTML, nor one of the templates that the seeding replaces.
pub seed_restores :
    (w : Words) (c : ℕ) (xs : List Step) (s s₀ : Session)
    → Steady s
    → seen s ≡ []
    → Steady s₀
    → seen s₀ ≡ []
    → All (SaysClean w) xs
    → length (log_of w c xs) ≤ 2000
    → seen (seed_history_from_log w 40 c (map some (log_of w c xs)) s₀) ≡ seen (run xs s)
unfolding seed_history_from_log seed_tail
seed_restores w c xs s s₀ h e h₀ e₀ clean short =
    let read : List Turn =
      turns w c (apply_redactions w (parsed (last 2000 (map some (log_of w c xs))))) in
    let s₁ : Session = (window s₀).1 in
    let (live, a) = window-After s₀ h₀ in
    let none_seen : seen s₁ ≡ [] = a.seen_now ∙ e₀ in
    ap (λ l. seen (seed_tail l (last 40 read) s₁)) (live ∙ e₀)
    ∙ extend_window_lem (last 40 read) s₁ (Steady-After a h₀) (rw none_seen (omega arith))
    ∙ ap (λ l. last 40 (l ++ last 40 read)) none_seen
    ∙ last_idem read
    ∙ ap (last 40) (read_back w c xs clean short)
    ∙ ap (λ l. last 40 (l ++ recorded xs)) (sym e)
    ∙ sym (seen-run xs s h (rw e (omega arith)))
