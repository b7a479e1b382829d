-- ===== src/Sessions/Window.antt =====
-- The window's bound, under every operation and every failure of Redis.
use kyraan.Base.{
  String, Bool, Option, none, some, List, [], ◌∷◌, ◌++◌, ◌≤◌, arith, length, length-last, ◌==◌,
  Bool-cases, inl, inr, drop,
}
use kyraan.Sessions.{
  Turn, Session, command, window, backlog, append_window, append_backlog, set_backlog, record_entry,
  record_exchange, record_proactive, roll_begin, roll_end, shown, user, assistant, finish, spill,
  settle_roll, summary_chunk,
}

-- What happens to a chat's session, in any order.
pub data Step : Type 0 where
  exchange : Bool → String → String → Step
  proactive : String → Step
  begin : Step
  end : Option String → Step

unfoldable pub step : Step → Session → Session
step (exchange private user_text assistant_text) s =
    (record_exchange private user_text assistant_text s).1
step (proactive text) s = record_proactive text s
step begin s = roll_begin s
step (end answer) s = roll_end answer s

abbrev pub run : List Step → Session → Session
run [] s = s
run (x ∷ xs) s = run xs (step x s)

-- Neither copy of the window holds more than forty entries.
abbrev pub IsBounded : Session → Type 0
IsBounded s = (length s.redis_history ≤ 40) × (length s.mem_history ≤ 40)

command-IsBounded : (s : Session) → IsBounded s → IsBounded (command s).1
unfolding command
command-IsBounded s h = ground (arith, h)

append_window-IsBounded : (e : Turn) (s : Session) → IsBounded s → IsBounded (append_window e s)
unfolding append_window
append_window-IsBounded e s h = ground (
  arith,
  command-IsBounded s h,
  length-last 40 ((command s).1.redis_history ++ e ∷ []),
  length-last 40 ((command s).1.mem_history ++ e ∷ []),
)

append_backlog-IsBounded : (e : Turn) (s : Session) → IsBounded s → IsBounded (append_backlog e s)
unfolding append_backlog
append_backlog-IsBounded e s h = ground (arith, command-IsBounded s h)

set_backlog-IsBounded :
    (entries : List Turn) (s : Session) → IsBounded s → IsBounded (set_backlog entries s)
unfolding set_backlog
set_backlog-IsBounded entries s h = ground (arith, command-IsBounded s h)

window-IsBounded : (s : Session) → IsBounded s → IsBounded (window s).1
unfolding window
window-IsBounded s h = command-IsBounded s h

backlog-IsBounded : (s : Session) → IsBounded s → IsBounded (backlog s).1
unfolding backlog
backlog-IsBounded s h = command-IsBounded s h

finish-spill-IsBounded :
    (e : Turn) (again : List Turn) (s : Session)
    → IsBounded s
    → IsBounded (finish e (spill again s)).1
unfolding finish spill
finish-spill-IsBounded e [] s h = h
finish-spill-IsBounded e (x ∷ xs) s h =
    append_window-IsBounded e (append_backlog x s) (append_backlog-IsBounded x s h)

record_entry-IsBounded : (e : Turn) (s : Session) → IsBounded s → IsBounded (record_entry e s).1
unfolding record_entry
record_entry-IsBounded e s h = elim (Bool-cases (length (window s).0 == 40)) [
  | inl full ↦ simp full (
      finish-spill-IsBounded e (window (window s).1).0 (window (window s).1).1
        (window-IsBounded (window s).1 (window-IsBounded s h)))
  | inr room ↦ simp room (append_window-IsBounded e (window s).1 (window-IsBounded s h))
]

record_exchange-IsBounded :
    (private : Bool) (user_text assistant_text : String) (s : Session)
    → IsBounded s
    → IsBounded (record_exchange private user_text assistant_text s).1
unfolding record_exchange
record_exchange-IsBounded private user_text assistant_text s h =
    let first : Turn = record { role = user; text = shown private user_text } in
    let second : Turn = record { role = assistant; text = shown private assistant_text } in
    elim (Bool-cases (record_entry first s).0) [
      | inl ok ↦ simp ok (
          record_entry-IsBounded second (record_entry first s).1 (record_entry-IsBounded first s h))
      | inr failed ↦ simp failed (record_entry-IsBounded first s h)
    ]

roll_begin-IsBounded : (s : Session) → IsBounded s → IsBounded (roll_begin s)
unfolding roll_begin
roll_begin-IsBounded s h = ground (
  arith,
  h,
  backlog-IsBounded s h,
  set_backlog-IsBounded (drop summary_chunk (backlog s).0) (backlog s).1,
)

settle_roll-IsBounded :
    (chunk : Option (List Turn)) (answer : Option String) (s : Session)
    → IsBounded s
    → IsBounded (settle_roll chunk answer s)
unfolding settle_roll
settle_roll-IsBounded none answer s h = h
settle_roll-IsBounded (some chunk) none s h =
    set_backlog-IsBounded (chunk ++ (backlog s).0) (backlog s).1 (backlog-IsBounded s h)
settle_roll-IsBounded (some chunk) (some summary) s h = ground (arith, h)

roll_end-IsBounded :
    (answer : Option String) (s : Session) → IsBounded s → IsBounded (roll_end answer s)
unfolding roll_end
roll_end-IsBounded answer s h = settle_roll-IsBounded s.rolling answer s h

step-IsBounded : (x : Step) (s : Session) → IsBounded s → IsBounded (step x s)
unfolding step record_proactive
step-IsBounded (exchange private user_text assistant_text) s h =
    record_exchange-IsBounded private user_text assistant_text s h
step-IsBounded (proactive text) s h =
    append_window-IsBounded (record { role = assistant; text = text }) s h
step-IsBounded begin s h = roll_begin-IsBounded s h
step-IsBounded (end answer) s h = roll_end-IsBounded answer s h

-- However exchanges, proactive messages and rolls follow one another, and whichever commands Redis
-- fails, neither the Redis list nor the in-memory copy of the window ever holds more than forty
-- entries, if they did not at the start.
pub run-IsBounded : (xs : List Step) (s : Session) → IsBounded s → IsBounded (run xs s)
run-IsBounded [] s h = h
run-IsBounded (x ∷ xs) s h = run-IsBounded xs (step x s) (step-IsBounded x s h)
