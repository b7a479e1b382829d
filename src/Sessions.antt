-- ===== src/Sessions.antt =====
-- One chat's conversation, from session.py: the window of recent entries, the backlog of entries that
-- left it, and the rolling summary. Both lists live in Redis, or in memory once redis_kv.py has found
-- Redis off or dead. The steps of a roll are separate, so that other steps may come between.
pub mod Window
pub mod Steady
mod Grown
mod Shown
pub mod Kept
pub mod Log
pub mod Seed
pub mod Secrets
use kyraan.Base.{
  ℕ, suc, ◌+◌, String, Bool, true, false, not, ◌&&◌, ◌||◌, Option, none, some, List, [], ◌∷◌, ◌++◌,
  length, take, drop, last, ltb, ◌==◌, str_eq, if◌then◌else◌,
}

pub data Role : Type 0 where
  user : Role
  assistant : Role

pub record Turn : Type 0 where
  pub role : Role
  pub text : String

-- `live`: the backend is Redis and Redis is not declared dead; the n-th command that is sent succeeds
-- when `answers n` does. `rolling` is the chunk of the roll in flight, whose lock it holds.
pub record Session : Type 0 where
  pub live : Bool
  pub answers : ℕ → Bool
  pub asked : ℕ
  pub redis_history : List Turn
  pub redis_backlog : List Turn
  pub mem_history : List Turn
  pub mem_backlog : List Turn
  pub rolling : Option (List Turn)
  pub summary : String

-- `_HISTORY_MAX_ENTRIES` and `_SUMMARY_CHUNK`
abbrev pub history_max_entries : ℕ
history_max_entries = 40

abbrev pub summary_chunk : ℕ
summary_chunk = 10

-- A command of redis_kv.py: nothing is sent to a dead backend, and a failure declares it dead.
unfoldable pub command : Session → Bool × Session
command s =
    if not s.live
    then (false, s)
    else if s.answers s.asked
    then (true, record s { asked = suc s.asked })
    else (false, record s { asked = suc s.asked; live = false })

-- `_ChatHistory._items` and `_ChatBacklog._items`
unfoldable pub window : Session → List Turn × Session
window s =
    let (ok, s') : Bool × Session = command s in
    (if ok then s'.redis_history else s'.mem_history, s')

unfoldable pub backlog : Session → List Turn × Session
backlog s =
    let (ok, s') : Bool × Session = command s in
    (if ok then s'.redis_backlog else s'.mem_backlog, s')

-- `_ChatHistory.append`: RPUSH and LTRIM, or the bounded deque
unfoldable pub append_window : Turn → Session → Session
append_window e s =
    let (ok, s') : Bool × Session = command s in
    if ok
    then record s' { redis_history = last history_max_entries (s'.redis_history ++ e ∷ []) }
    else record s' { mem_history = last history_max_entries (s'.mem_history ++ e ∷ []) }

unfoldable pub append_backlog : Turn → Session → Session
append_backlog e s =
    let (ok, s') : Bool × Session = command s in
    if ok
    then record s' { redis_backlog = s'.redis_backlog ++ e ∷ [] }
    else record s' { mem_backlog = s'.mem_backlog ++ e ∷ [] }

-- `_ChatBacklog._set`
unfoldable pub set_backlog : List Turn → Session → Session
set_backlog entries s =
    let (ok, s') : Bool × Session = command s in
    if ok then record s' { redis_backlog = entries } else record s' { mem_backlog = entries }

-- `_ChatHistory.clear` and `extend`
unfoldable pub clear_window : Session → Session
clear_window s =
    let (ok, s') : Bool × Session = command s in
    if ok
    then record s' { redis_history = []; mem_history = [] }
    else record s' { mem_history = [] }

unfoldable pub extend_window : List Turn → Session → Session
extend_window [] s = s
extend_window (e ∷ es) s = extend_window es (append_window e s)

-- `_summary_backlog[chat_id].append(_history[chat_id][0])`; false where the empty window raises
-- IndexError
unfoldable pub spill : List Turn → Session → Bool × Session
spill [] s = (false, s)
spill (e ∷ _) s = (true, append_backlog e s)

unfoldable pub finish : Turn → Bool × Session → Bool × Session
finish e (ok, s) = if ok then (true, append_window e s) else (false, s)

-- One entry of `record_exchange`; the Bool is false where it raises.
unfoldable pub record_entry : Turn → Session → Bool × Session
unfolding spill finish
record_entry e s =
    let (seen, s') : List Turn × Session = window s in
    let (again, s'') : List Turn × Session = window s' in
    if length seen == history_max_entries
    then finish e (spill again s'')
    else (true, append_window e s')

-- `private` is `secrets.active(chat_id)`
unfoldable pub shown : Bool → String → String
shown private text = if private then "[a private matter the owner asked to keep secret]" else text

unfoldable pub record_exchange : Bool → String → String → Session → Bool × Session
record_exchange private user_text assistant_text s =
    let (ok, s') : Bool × Session =
      record_entry (record { role = user; text = shown private user_text }) s in
    if ok
    then record_entry (record { role = assistant; text = shown private assistant_text }) s'
    else (false, s')

unfoldable pub record_proactive : String → Session → Session
record_proactive text = append_window (record { role = assistant; text = text })

-- `_roll_summary` up to the model call: with the lock free and ten entries waiting, the oldest ten
-- leave the backlog.
unfoldable pub is_free : Option (List Turn) → Bool
is_free none = true
is_free (some _) = false

unfoldable pub roll_begin : Session → Session
unfolding is_free
roll_begin s =
    if not (is_free s.rolling)
    then s
    else (let (waiting, s') : List Turn × Session = backlog s in
        if ltb (length waiting) summary_chunk
        then s'
        else (record (set_backlog (drop summary_chunk waiting) s') {
          rolling = some (take summary_chunk waiting);
        }))

-- The rest, on the model's answer: the stripped summary, or none where the call or the file raised.
unfoldable pub settle_roll : Option (List Turn) → Option String → Session → Session
settle_roll none answer s = s
settle_roll (some chunk) none s =
    let (waiting, s') : List Turn × Session = backlog s in
    record (set_backlog (chunk ++ waiting) s') { rolling = none }
settle_roll (some chunk) (some summary) s =
    if str_eq summary ""
    then record s { rolling = none }
    else record s { rolling = none; summary = summary }

unfoldable pub roll_end : Option String → Session → Session
roll_end answer s = settle_roll s.rolling answer s
