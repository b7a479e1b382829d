-- ===== src/Sessions/Secrets/Lines.antt =====
-- What a redaction by words leaves of the log's turns.
use mathlib.Core.Path.{subst}
use kyraan.Base.{
  ℕ, String, true, false, ◌&&◌, Option, none, some, List, [], ◌∷◌, ◌++◌, ◌==◌, str_eq,
  if◌then◌else◌, All, ◌≡◌, refl, sym, arith, Bool-cases, inl, inr,
}
use kyraan.Sessions.{Role, user, assistant, Turn}
use kyraan.Sessions.Log.{
  Words, Line, placeholder, is_redact, is_turn_of, covered, mentions, cover_mentions, redacted,
  redact_from, apply_redactions, legacy_cloud_placeholder, role_of, or_text, or_legacy, seen_text,
  shown_role, turn_of, or_skip, turns,
}
use kyraan.Sessions.Secrets.{redact_line}

-- The fixed texts of the log do not have the words.
abbrev pub IsNeutral : Words → String → Type 0
IsNeutral w needle =
    (w.has_lower placeholder needle ≡ false)
    × ((text shown : String)
        → legacy_cloud_placeholder w text ≡ some shown
        → w.has_lower shown needle ≡ false)

-- a line that is covered when it has the words
abbrev covered_line : Words → String → ℕ → Line → Line
covered_line w needle c l = if is_turn_of c l && mentions w needle l then covered l else l

abbrev pub IsHidden : Words → String → Turn → Type 0
IsHidden w needle t = w.has_lower t.text needle ≡ false

-- neither the text nor its placeholder has the words
abbrev Unmentioned : Words → String → Option String → String → Type 0
Unmentioned w needle cloud text =
    (w.has_lower text needle ≡ false)
    × ((t : String) → cloud ≡ some t → w.has_lower t needle ≡ false)

or_legacy_hidden :
    (w : Words) (needle text : String) (o : Option String)
    → w.has_lower text needle ≡ false
    → ((shown : String) → o ≡ some shown → w.has_lower shown needle ≡ false)
    → w.has_lower (or_legacy o text) needle ≡ false
or_legacy_hidden w needle text none h n = h
or_legacy_hidden w needle text (some t) h n = n t refl

seen_text_hidden :
    (w : Words) (needle : String) (r : Role) (cloud : Option String) (text : String)
    → IsNeutral w needle
    → Unmentioned w needle cloud text
    → w.has_lower (seen_text w r cloud text) needle ≡ false
unfolding seen_text or_text
seen_text_hidden w needle user none text n h = h.0
seen_text_hidden w needle assistant none text n h =
    or_legacy_hidden w needle text (legacy_cloud_placeholder w text) h.0 (n.1 text)
seen_text_hidden w needle user (some t) text n h = ground (arith, h.0, h.1 t refl)
seen_text_hidden w needle assistant (some t) text n h = ground (arith, h.0, h.1 t refl)

-- a turn that is there is hidden
abbrev OptHidden : Words → String → Option Turn → Type 0
OptHidden w needle none = Unit
OptHidden w needle (some t) = IsHidden w needle t

shown_role-OptHidden :
    (w : Words) (needle : String) (r : Option Role) (cloud : Option String) (text : String)
    → ((role : Role) → w.has_lower (seen_text w role cloud text) needle ≡ false)
    → OptHidden w needle (shown_role w r cloud text)
unfolding shown_role
shown_role-OptHidden w needle none cloud text h = tt
shown_role-OptHidden w needle (some r) cloud text h = h r

turn_of-OptHidden :
    (w : Words) (needle : String) (l : Line)
    → ((role : Role) → w.has_lower (seen_text w role l.cloud_text l.text) needle ≡ false)
    → OptHidden w needle (turn_of w l)
unfolding turn_of
turn_of-OptHidden w needle l h = elim (Bool-cases (str_eq l.text "")) [
  | inl e ↦ simp e tt
  | inr e ↦ simp e (shown_role-OptHidden w needle (role_of l.role) l.cloud_text l.text h)
]

mentions-Unmentioned :
    (w : Words) (needle : String) (l : Line)
    → mentions w needle l ≡ false
    → Unmentioned w needle l.cloud_text l.text
unfolding mentions
mentions-Unmentioned w needle l h = (ground (arith, h), λ t e. ground (arith, h, e))

-- a redaction is no turn
turn_of-is_redact : (w : Words) (l : Line) → is_redact l ≡ true → turn_of w l ≡ none
unfolding turn_of role_of shown_role
turn_of-is_redact w l h = ground (arith, h)

covered_seen :
    (w : Words) (needle : String) (r : Role) (text : String)
    → IsNeutral w needle
    → w.has_lower (seen_text w r (some placeholder) text) needle ≡ false
unfolding seen_text or_text
covered_seen w needle user text n = n.0
covered_seen w needle assistant text n = n.0

-- each line of the chat, covered where it has the words, shows nothing of them
covered_line-OptHidden :
    (w : Words) (needle : String) (c : ℕ) (l : Line)
    → IsNeutral w needle
    → (l.chat_id == c) ≡ true
    → OptHidden w needle (turn_of w (covered_line w needle c l))
unfolding is_turn_of covered
covered_line-OptHidden w needle c l n here = elim (Bool-cases (is_redact l)) [
  | inl red ↦ simp (here, red) (subst (OptHidden w needle) (sym (turn_of-is_redact w l red)) tt)
  | inr turn ↦ elim (Bool-cases (mentions w needle l)) [
    | inl has ↦
        simp (here, turn, has)
          (turn_of-OptHidden w needle (record l { cloud_text = some placeholder })
            (λ r. covered_seen w needle r l.text n))
    | inr hasnt ↦
        simp (here, turn, hasnt)
          (turn_of-OptHidden w needle l (λ r.
            seen_text_hidden w needle r l.cloud_text l.text n
              (mentions-Unmentioned w needle l hasnt)))
  ]
]

or_skip-IsHidden :
    (w : Words) (needle : String) (o : Option Turn) (ts : List Turn)
    → OptHidden w needle o
    → All (IsHidden w needle) ts
    → All (IsHidden w needle) (or_skip o ts)
unfolding or_skip
or_skip-IsHidden w needle none ts h a = a
or_skip-IsHidden w needle (some t) ts h a = (h, a)

-- covering keeps a line's chat
chat_same :
    (w : Words) (needle : String) (c : ℕ) (l : Line)
    → (covered_line w needle c l).chat_id ≡ l.chat_id
unfolding covered
chat_same w needle c l = ground arith

cover_mentions-IsHidden :
    (w : Words) (needle : String) (c : ℕ) (ls : List Line)
    → IsNeutral w needle
    → All (IsHidden w needle) (turns w c (cover_mentions w needle c ls))
unfolding turns cover_mentions
cover_mentions-IsHidden w needle c [] n = tt
cover_mentions-IsHidden w needle c (l ∷ ls) n =
    let rest = cover_mentions-IsHidden w needle c ls n in
    let chat : (covered_line w needle c l).chat_id ≡ l.chat_id = chat_same w needle c l in
    elim (Bool-cases (l.chat_id == c)) [
      | inl here ↦
          rw (chat, here)
            (or_skip-IsHidden w needle (turn_of w (covered_line w needle c l))
              (turns w c (cover_mentions w needle c ls))
              (covered_line-OptHidden w needle c l n here) rest)
      | inr other ↦ rw (chat, other) rest
    ]

-- the last line of a log is redacted last
redact_from-last :
    (w : Words) (out ls : List Line) (r : Line)
    → redact_from w out (ls ++ r ∷ []) ≡ redact_from w (redact_from w out ls) (r ∷ [])
unfolding redact_from
redact_from-last w out [] r = refl
redact_from-last w out (l ∷ ls) r =
    redact_from-last w (if is_redact l then redacted w l out else out ++ l ∷ []) ls r

pub log_covered :
    (w : Words) (c : ℕ) (needle : String) (log : List Line)
    → str_eq needle "" ≡ false
    → IsNeutral w needle
    → All (IsHidden w needle) (turns w c (apply_redactions w (log ++ redact_line c needle 0 ∷ [])))
unfolding apply_redactions redact_from redacted redact_line
log_covered w c needle log h n =
    subst (λ ls. All (IsHidden w needle) (turns w c ls))
      (sym (redact_from-last w [] log (redact_line c needle 0)))
      (simp h (cover_mentions-IsHidden w needle c (redact_from w [] log) n))
