-- ===== src/Sessions/Log.antt =====
-- The chat log, and what a restart rebuilds from it: `log_chat`, `apply_redactions` of secrets.py, and
-- `seed_history_from_log` of session.py.
use kyraan.Base.{
  ℕ, ◌+◌, ◌-◌, String, Bool, true, false, not, ◌&&◌, ◌||◌, Option, none, some, List, [], ◌∷◌, ◌++◌,
  length, last, all, any, ltb, ◌==◌, str_eq, if◌then◌else◌, starts_with,
}
use kyraan.Sessions.{Role, user, assistant, Turn, Session, clear_window, extend_window, window}

-- Python's text functions: whether a text contains another, the same in lower case, the first line,
-- the regular expression of an unread count, and a marked text without its tags.
pub record Words : Type 0 where
  pub has : String → String → Bool
  pub has_lower : String → String → Bool
  pub first_line : String → String
  pub counts_unread : String → Bool
  pub html_mark : String
  pub untagged : String → String

pub data LineRole : Type 0 where
  by_user : LineRole
  by_assistant : LineRole
  by_proactive : LineRole
  redact : LineRole

-- A line of chat.jsonl; `contains` and `count` are a redaction's.
pub record Line : Type 0 where
  pub role : LineRole
  pub chat_id : ℕ
  pub text : String
  pub cloud_text : Option String
  pub contains : String
  pub count : ℕ

abbrev pub placeholder : String
placeholder = "[a private matter the owner asked to keep secret]"

-- `plain_record`
unfoldable pub plain_record : Words → String → String
plain_record w text = if starts_with text w.html_mark then w.untagged text else text

-- `log_chat`: the line that it appends
unfoldable pub log_line : Words → LineRole → ℕ → String → Option String → Line
log_line w role chat_id text cloud_text = record {
  role = role;
  chat_id = chat_id;
  text = plain_record w text;
  cloud_text = cloud_text;
  contains = "";
  count = 0;
}

-- `record_exchange` and `record_proactive` on the log
abbrev pub cloud_of : Bool → Option String
cloud_of private = if private then some placeholder else none

unfoldable pub log_exchange : Words → ℕ → Bool → String → String → List Line
log_exchange w chat_id private user_text assistant_text =
    log_line w by_user chat_id user_text (cloud_of private)
    ∷ log_line w by_assistant chat_id assistant_text (cloud_of private)
    ∷ []

unfoldable pub log_proactive : Words → ℕ → String → List Line
log_proactive w chat_id text = log_line w by_proactive chat_id text none ∷ []

abbrev pub is_redact : Line → Bool
is_redact l = elim l.role [ redact ↦ true | _ ↦ false ]

-- the lines that a redaction may cover
unfoldable pub is_turn_of : ℕ → Line → Bool
is_turn_of chat_id l = l.chat_id == chat_id && not (is_redact l)

unfoldable pub covered : Line → Line
covered l = record l { cloud_text = some placeholder }

unfoldable pub mentions : Words → String → Line → Bool
mentions w needle l =
    w.has_lower l.text needle
    || elim l.cloud_text [ none ↦ w.has_lower "" needle | some t ↦ w.has_lower t needle ]

unfoldable pub cover_mentions : Words → String → ℕ → List Line → List Line
cover_mentions w needle chat_id [] = []
cover_mentions w needle chat_id (l ∷ ls) =
    (if is_turn_of chat_id l && mentions w needle l then covered l else l)
    ∷ cover_mentions w needle chat_id ls

turns_of : ℕ → List Line → ℕ
turns_of chat_id [] = 0
turns_of chat_id (l ∷ ls) = (if is_turn_of chat_id l then 1 else 0) + turns_of chat_id ls

-- all turns but the first `k`
cover_after : ℕ → ℕ → List Line → List Line
cover_after k chat_id [] = []
cover_after k chat_id (l ∷ ls) =
    let rest : List Line = cover_after (if is_turn_of chat_id l then k - 1 else k) chat_id ls in
    (if is_turn_of chat_id l && k == 0 then covered l else l) ∷ rest

unfoldable pub redacted : Words → Line → List Line → List Line
unfolding turns_of cover_after
redacted w r out =
    if not (str_eq r.contains "")
    then cover_mentions w r.contains r.chat_id out
    else cover_after (turns_of r.chat_id out - r.count) r.chat_id out

-- the loop of `apply_redactions`, with what it has so far
unfoldable pub redact_from : Words → List Line → List Line → List Line
redact_from w out [] = out
redact_from w out (l ∷ ls) =
    redact_from w (if is_redact l then redacted w l out else out ++ l ∷ []) ls

unfoldable pub apply_redactions : Words → List Line → List Line
apply_redactions w = redact_from w []

unfoldable pub legacy_cloud_placeholder : Words → String → Option String
legacy_cloud_placeholder w text =
    if w.counts_unread text || w.has text "Latest unread:"
    then some "[showed the unread email summary]"
    else if starts_with text "Facts awaiting your review:" || w.has text "Pending facts awaiting"
    then some "[showed the pending-review list]"
    else if starts_with text "✅ Saved to memory:"
        || starts_with text "🗑 Rejected:"
        || w.has (w.first_line text) "Saved to memory:"
    then some "[applied the owner's review decisions]"
    else none

-- the role in the window; a redaction has none
unfoldable pub role_of : LineRole → Option Role
role_of by_user = some user
role_of by_assistant = some assistant
role_of by_proactive = some assistant
role_of redact = none

unfoldable pub or_text : Option String → String → String
or_text none text = text
or_text (some t) text = if str_eq t "" then text else t

abbrev pub or_legacy : Option String → String → String
or_legacy none text = text
or_legacy (some t) text = t

-- `text` after the placeholder of an old assistant line
unfoldable pub seen_text : Words → Role → Option String → String → String
seen_text w assistant none text = or_legacy (legacy_cloud_placeholder w text) text
seen_text w _ cloud text = or_text cloud text

unfoldable pub shown_role : Words → Option Role → Option String → String → Option Turn
shown_role w none cloud text = none
shown_role w (some r) cloud text = some (record { role = r; text = seen_text w r cloud text })

-- one line's turn, where it has one
unfoldable pub turn_of : Words → Line → Option Turn
turn_of w l = if str_eq l.text "" then none else shown_role w (role_of l.role) l.cloud_text l.text

unfoldable pub or_skip : Option Turn → List Turn → List Turn
or_skip none turns = turns
or_skip (some t) turns = t ∷ turns

-- `per_chat[chat_id]`
unfoldable pub turns : Words → ℕ → List Line → List Turn
unfolding turn_of or_skip
turns w chat_id [] = []
turns w chat_id (l ∷ ls) =
    let rest : List Turn = turns w chat_id ls in
    if l.chat_id == chat_id then or_skip (turn_of w l) rest else rest

same_role : Role → Role → Bool
same_role user user = true
same_role assistant assistant = true
same_role _ _ = false

-- `set(live) <= set(tail)`
is_subset : List Turn → List Turn → Bool
is_subset live tail =
    all (λ t. any (λ u. same_role t.role u.role && str_eq t.text u.text) tail) live

-- The log as read: a damaged line is none.
unfoldable pub parsed : List (Option Line) → List Line
parsed [] = []
parsed (none ∷ ls) = parsed ls
parsed (some l ∷ ls) = l ∷ parsed ls

-- `seed_history_from_log` on one chat of the log
unfoldable pub seed_tail : List Turn → List Turn → Session → Session
unfolding same_role is_subset
seed_tail [] tail s = extend_window tail s
seed_tail (t ∷ ts) tail s =
    if is_subset (t ∷ ts) tail && ltb (length (t ∷ ts)) (length tail)
    then extend_window tail (clear_window s)
    else s

unfoldable pub seed_history_from_log : Words → ℕ → ℕ → List (Option Line) → Session → Session
unfolding seed_tail
seed_history_from_log w max_per_chat chat_id log s =
    let (live, s') : List Turn × Session = window s in
    seed_tail live
      (last max_per_chat (turns w chat_id (apply_redactions w (parsed (last 2000 log))))) s'
