-- ===== src/EventRules/Create.antt =====
-- `_check_action` and `create` of event_rules.py. `none` is a ValueError. What Python makes of a value
-- or a text is a parameter.
pub mod Safe
pub mod Ticks
use Prim.Native.Nat.{max}
use kyraan.Base.{
  ℕ, String, Bool, true, false, not, ◌&&◌, ◌||◌, Option, none, some, List, [], ◌∷◌, ◌++◌, leb,
  str_eq, str_in, if◌then◌else◌,
}
use kyraan.Kernel.Context.{Value, text, Args}
use kyraan.Reminders.{blank}
use kyraan.EventRules.{Op, Rule, Rules}

-- `str(v)` of a value that counts as true, the length of a text, and `strip`
pub record Texts : Type 0 where
  pub shown : Value → Option String
  pub chars : String → ℕ
  pub strip : String → String

-- `ACTION_TOOLS`
abbrev pub action_keys : String → Option (List String)
action_keys tool =
    if str_eq tool "home.purifier"
    then some ("mode" ∷ "timer" ∷ "index" ∷ [])
    else if str_eq tool "home.turn_on" || str_eq tool "home.turn_off"
    then some ("entity" ∷ [])
    else none

abbrev pub purifier_modes : List String
purifier_modes = "auto" ∷ "turbo" ∷ "medium" ∷ "sleep" ∷ []

-- the arguments that the tool takes and that are given, as texts
chosen : Texts → List String → Args → List (String × String)
chosen py keys [] = []
chosen py keys ((k, v) ∷ rest) =
    let others = chosen py keys rest in
    elim (py.shown v) [ none ↦ others | some s ↦ if str_in k keys then (k, s) ∷ others else others ]

abbrev pub value_of : String → List (String × String) → Option String
value_of key [] = none
value_of key ((k, s) ∷ rest) = if str_eq k key then some s else value_of key rest

bad_mode : Option String → Bool
bad_mode none = false
bad_mode (some m) = not (str_in m purifier_modes)

abbrev pub is_known_entity : List String → Option String → Bool
is_known_entity known none = false
is_known_entity known (some entity) = str_in entity known

is_empty : List (String × String) → Bool
is_empty [] = true
is_empty _ = false

abbrev pub as_args : List (String × String) → Args
as_args [] = []
as_args ((k, s) ∷ rest) = (k, text s) ∷ as_args rest

-- the tests of the arguments that are left
check_args : List String → String → List (String × String) → Option (Option (String × Args))
check_args known tool args =
    if is_empty args
    then none
    else if str_eq tool "home.purifier" && bad_mode (value_of "mode" args)
    then none
    else if not (str_eq tool "home.purifier")
        && not (is_known_entity known (value_of "entity" args))
    then none
    else some (some (tool, as_args args))

check_tool :
    Texts → List String → String → Args → Option (List String) → Option (Option (String × Args))
check_tool py known tool args none = none
check_tool py known tool args (some keys) = check_args known tool (chosen py keys args)

-- `_check_action`
unfoldable pub check_action :
    Texts → List String → Option (String × Args) → Option (Option (String × Args))
unfolding check_tool check_args chosen bad_mode is_empty
check_action py known none = some none
check_action py known (some (tool, args)) = check_tool py known tool args (action_keys tool)

-- what `create` is asked for
pub record Wish : Type 0 where
  pub chat_id : ℕ
  pub description : String
  pub entity : String
  pub op : Op
  pub for_minutes : ℕ
  pub cooldown_minutes : ℕ
  pub action : Option (String × Args)

stored : Texts → String → Wish → Rules → Option (String × Args) → Rule × Rules
stored py id q rules action =
    let r : Rule = record {
      id = id;
      chat_id = q.chat_id;
      description = py.strip q.description;
      entity = q.entity;
      op = q.op;
      for_minutes = q.for_minutes;
      cooldown_minutes = max 15 q.cooldown_minutes;
      last_fired = blank;
      active = true;
      last_met = false;
      action = action;
    } in
    (r, rules ++ r ∷ [])

accepted :
    Texts
    → List String
    → String
    → Wish
    → Rules
    → Option (Option (String × Args))
    → Option (Rule × Rules)
accepted py known id q rules none = none
accepted py known id q rules (some action) =
    if not (str_in q.entity known)
    then none
    else if not (leb 2 (py.chars q.description) && leb (py.chars q.description) 200)
    then none
    else some (stored py id q rules action)

-- `create`; the new id is the caller's
unfoldable pub create : Texts → List String → String → Wish → Rules → Option (Rule × Rules)
unfolding accepted stored
create py known id q rules = accepted py known id q rules (check_action py known q.action)
