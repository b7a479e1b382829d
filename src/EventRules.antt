-- ===== src/EventRules.antt =====
-- src/kyraan/triggers/event_rules.py: watch rules on the entities of the house, checked at each tick.
-- Readings are whole numbers; times are UTC seconds.
pub mod Edges
pub mod Create
use kyraan.Base.{
  ℕ, ◌+◌, ◌-◌, ◌*◌, ◌/◌, String, Bool, true, false, not, ◌&&◌, ◌||◌, Option, none, some, List, [],
  ◌∷◌, ◌++◌, ltb, leb, ◌==◌, str_eq, str_in, starts_with, keep, length, if◌then◌else◌,
}
use Prim.Native.Nat.{max}
use kyraan.Base.Table.{find, update}
use kyraan.Kernel.Context.{Args, ToolCall}
use kyraan.Reminders.{Stamp, blank, moment}

-- `op` with its value, as `create` accepts it
pub data Op : Type 0 where
  is_value : String → Op
  above below : ℕ → Op

pub record Rule : Type 0 where
  pub id : String
  pub chat_id : ℕ
  pub description : String
  pub entity : String
  pub op : Op
  pub for_minutes : ℕ
  pub cooldown_minutes : ℕ
  pub last_fired : Stamp ℕ
  pub active : Bool
  pub last_met : Bool
  pub action : Option (String × Args)

-- an entity's state: its text, the number that it reads as, and when it last changed
pub record Reading : Type 0 where
  pub state : String
  pub number : Option ℕ
  pub last_changed : Stamp ℕ

abbrev pub Rules : Type 0
Rules = List Rule

abbrev pub rule_id_of : Rule → String
rule_id_of r = r.id

unfoldable pub list_active : Option ℕ → Rules → Rules
list_active chat_id rules =
    let active = keep (λ (r : Rule). r.active) rules in
    elim chat_id [ none ↦ active | some c ↦ keep (λ (r : Rule). r.chat_id == c) active ]

-- how long the state has held, against `for_minutes`
held_for : ℕ → ℕ → Stamp ℕ → Bool
held_for minutes now (moment changed) = leb (changed + minutes * 60) now
held_for minutes now _ = false

-- `condition_met`; `same` is the comparison of texts without case
unfoldable pub condition_met : (String → String → Bool) → Rule → Reading → ℕ → Bool
unfolding held_for
condition_met same r reading now = elim r.op [
  | is_value value ↦
      if not (same reading.state value)
      then false
      else if r.for_minutes == 0
      then true
      else held_for r.for_minutes now reading.last_changed
  | above bound ↦ elim reading.number [ none ↦ false | some n ↦ ltb bound n ]
  | below bound ↦ elim reading.number [ none ↦ false | some n ↦ ltb n bound ]
]

cooling : ℕ → ℕ → Stamp ℕ → Bool
cooling minutes now (moment fired) = ltb now (fired + minutes * 60)
cooling minutes now _ = false

-- `_in_cooldown`
unfoldable pub in_cooldown : Rule → ℕ → Bool
unfolding cooling
in_cooldown r now = cooling r.cooldown_minutes now r.last_fired

-- `_mark_fired`
unfoldable pub mark_fired : String → ℕ → Rules → Rules
mark_fired id now = update rule_id_of id (λ (r : Rule). record r { last_fired = moment now })

differs : Bool → Bool → Bool
differs true b = not b
differs false b = b

-- `_mark_met`: the first record of the id whose memory differs
unfoldable pub mark_met : String → Bool → Rules → Rules
unfolding differs
mark_met id met [] = []
mark_met id met (r ∷ rs) =
    let rest = mark_met id met rs in
    if str_eq r.id id && differs met r.last_met then record r { last_met = met } ∷ rs else r ∷ rest

-- what `cancel` picks out
watched_by : ℕ → String → Rule → Bool
watched_by chat_id wanted r = r.active && r.chat_id == chat_id && starts_with r.id wanted

switch_off : (Rule → Bool) → Rules → Rules
switch_off picked [] = []
switch_off picked (r ∷ rs) =
    (if picked r then record r { active = false } else r) ∷ switch_off picked rs

-- `cancel`, with the prefix stripped and in lower case; `none` is the ValueError for none or several
unfoldable pub cancel : ℕ → String → Rules → Option Rules
unfolding watched_by switch_off
cancel chat_id wanted rules =
    if length (keep (watched_by chat_id wanted) rules) == 1
    then some (switch_off (watched_by chat_id wanted) rules)
    else none

-- `reactivate`: the first cancelled rule of the id
unfoldable pub reactivate : ℕ → String → Rules → Option Rules
reactivate chat_id id [] = none
reactivate chat_id id (r ∷ rs) =
    let rest = reactivate chat_id id rs in
    if str_eq r.id id && r.chat_id == chat_id && not r.active
    then some (record r { active = true } ∷ rs)
    else elim rest [ none ↦ none | some rs' ↦ some (r ∷ rs') ]

-- the alerts handed to the channel and the calls of tools, whatever became of them, newest first
pub record House : Type 0 where
  pub rules : Rules
  pub alerts : List (ℕ × String)
  pub actions : List ToolCall

-- what `home.get_state` comes to: an exception, no dict, or a reading
pub data Observed : Type 0 where
  raised shapeless : Observed
  observed : Reading → Observed

-- What a tick meets for one rule: the state, whether an action goes through, whether the gate lets a
-- message pass, and what the send comes to. A channel is there.
pub data Sent : Type 0 where
  delivered undelivered send_raises : Sent

pub record Visit : Type 0 where
  pub state : Observed
  pub acts : Bool
  pub allowed : Bool
  pub sent : Sent

-- `_mark_fired` and `_mark_met(id, True)`
abbrev pub settled : String → ℕ → House → House
settled id now h = record h { rules = mark_met id true (mark_fired id now h.rules) }

abbrev alert : Rule → House → House
alert r h = record h { alerts = (r.chat_id, r.id) ∷ h.alerts }

abbrev commanded : String × Args → House → House
commanded (tool, args) h = record h {
  actions = record { tool_name = tool; args = args; confirmed = true } ∷ h.actions;
}

-- a rule with an action: the act is never held, the message may be
act : Visit → ℕ → Rule → String × Args → House → House × ℕ
act v now r action h =
    if not v.acts
    then (commanded action h, 0)
    else if v.allowed
    then (alert r (settled r.id now (commanded action h)), 1)
    else (settled r.id now (commanded action h), 1)

settle_alert : ℕ → Rule → House → Sent → House × ℕ
settle_alert now r h delivered = (settled r.id now (alert r h), 1)
settle_alert now r h _ = (alert r h, 0)

-- a rule that tells: held by the quiet hours, and not settled by a send that does not arrive
tell : Visit → ℕ → Rule → House → House × ℕ
tell v now r h = if not v.allowed then (h, 0) else settle_alert now r h v.sent

respond : Visit → ℕ → Rule → Option (String × Args) → House → House × ℕ
respond v now r none h = tell v now r h
respond v now r (some action) h = act v now r action h

-- the test of the crossing and of the cooldown
crossed : Visit → ℕ → Rule → Bool → House → House × ℕ
crossed v now r met h =
    if not met
    then (if r.last_met then record h { rules = mark_met r.id false h.rules } else h, 0)
    else if r.last_met
    then (h, 0)
    else if in_cooldown r now
    then (h, 0)
    else respond v now r r.action h

look : (String → String → Bool) → Visit → ℕ → Rule → House → Observed → House × ℕ
look same v now r h raised = (h, 0)
look same v now r h shapeless = crossed v now r false h
look same v now r h (observed reading) = crossed v now r (condition_met same r reading now) h

-- one rule of the loop, with the number that fired
unfoldable pub check : (String → String → Bool) → (Rule → Visit) → ℕ → Rule → House → House × ℕ
unfolding crossed respond act tell settle_alert look
check same visit now r h = look same (visit r) now r h (visit r).state

check_all : (String → String → Bool) → (Rule → Visit) → ℕ → Rules → House → House × ℕ
check_all same visit now [] h = (h, 0)
check_all same visit now (r ∷ rs) h =
    let (h1, fired) = check same visit now r h in
    let (h2, more) = check_all same visit now rs h1 in (h2, fired + more)

-- `tick`
unfoldable pub tick : (String → String → Bool) → (Rule → Visit) → ℕ → Bool → House → House × ℕ
unfolding check_all
tick same visit now engaged h =
    if engaged then (h, 0) else check_all same visit now (list_active none h.rules) h
