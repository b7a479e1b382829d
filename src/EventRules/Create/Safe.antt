-- ===== src/EventRules/Create/Safe.antt =====
-- The actions of stored rules: what `create` of event_rules.py accepts.
use mathlib.Core.Path.{subst}
use kyraan.Base.{
  ◌≤◌, String, ◌≡◌, refl, ◌⊎◌, inl, inr, true, ◌&&◌, Option, none, some, List, [], ◌∷◌, arith, leb,
  str_eq, str_in, eq_iff, All, All-append, Bool-cases, Option-cases,
}
use kyraan.Kernel.Context.{Args}
use kyraan.EventRules.{Rule, Rules}
use kyraan.EventRules.Create.{
  Texts, action_keys, value_of, is_known_entity, as_args, chosen, check_args, check_tool, is_empty,
  bad_mode, check_action, Wish, stored, accepted, create,
}

-- An action is one of the three tools, and a switch names an entity of the house.
abbrev pub ActionIsSafe : List String → Option (String × Args) → Type 0
ActionIsSafe known none = Unit
ActionIsSafe known (some (tool, args)) =
    (tool ≡ "home.purifier")
    ⊎ (((tool ≡ "home.turn_on") ⊎ (tool ≡ "home.turn_off"))
        × ((given : List (String × String)) × (args ≡ as_args given)
            × (is_known_entity known (value_of "entity" given) ≡ true)))

pub record RuleIsSafe (known : List String) (r : Rule) : Type 0 where
  pub cooldown_le : 15 ≤ r.cooldown_minutes
  pub entity_known : str_in r.entity known ≡ true
  pub action_safe : ActionIsSafe known r.action

module _ (known : List String) where
  -- an outcome of the checks: no action, or a safe one
  abbrev Checks : Option (Option (String × Args)) → Type 0
  Checks none = Unit
  Checks (some action) = ActionIsSafe known action

  check_args-Checks :
      (tool : String) (given : List (String × String))
      → (tool ≡ "home.purifier") ⊎ ((tool ≡ "home.turn_on") ⊎ (tool ≡ "home.turn_off"))
      → Checks (check_args known tool given)
  unfolding check_args
  check_args-Checks tool given h = elim (Bool-cases (is_empty given)) [
    | inl empty ↦ simp empty tt
    | inr full ↦ elim (Bool-cases (str_eq tool "home.purifier")) [
      | inl purifier ↦ elim (Bool-cases (bad_mode (value_of "mode" given))) [
        | inl bad ↦ simp (full, purifier, bad) tt
        | inr good ↦ simp (full, purifier, good) (inl ((eq_iff tool "home.purifier").0 purifier))
      ]
      | inr switch ↦ elim (Bool-cases (is_known_entity known (value_of "entity" given))) [
        | inr unknown ↦ simp (full, switch, unknown) tt
        | inl entity ↦
            simp (full, switch, entity)
              (inr (ground (arith, eq_iff tool "home.purifier", h), (given, refl, entity)))
      ]
    ]
  ]

  action_keys-tool :
      (tool : String) (keys : List String)
      → action_keys tool ≡ some keys
      → (tool ≡ "home.purifier") ⊎ ((tool ≡ "home.turn_on") ⊎ (tool ≡ "home.turn_off"))
  action_keys-tool tool keys e =
      ground (
        arith,
        eq_iff tool "home.purifier",
        eq_iff tool "home.turn_on",
        eq_iff tool "home.turn_off",
      )

  check_action-Checks :
      (py : Texts) (action : Option (String × Args)) → Checks (check_action py known action)
  unfolding check_action check_tool
  check_action-Checks py none = tt
  check_action-Checks py (some (tool, args)) = elim (Option-cases (action_keys tool)) [
    | inl none_such ↦ simp none_such tt
    | inr (keys, e) ↦
        simp e (check_args-Checks tool (chosen py keys args) (action_keys-tool tool keys e))
  ]

  stored-safe :
      (py : Texts) (id : String) (q : Wish) (rules : Rules) (action : Option (String × Args))
      → str_in q.entity known ≡ true
      → ActionIsSafe known action
      → All (RuleIsSafe known) rules
      → All (RuleIsSafe known) (stored py id q rules action).1
  unfolding stored
  stored-safe py id q rules action entity safe h =
      All-append (RuleIsSafe known) rules (_ ∷ []) h
        (record { cooldown_le = omega arith; entity_known = entity; action_safe = safe }, tt)

  -- an outcome of `create`
  abbrev Created : Option (Rule × Rules) → Type 0
  Created none = Unit
  Created (some (r, rules)) = All (RuleIsSafe known) rules

  accepted-Created :
      (py : Texts) (id : String) (q : Wish) (rules : Rules) (o : Option (Option (String × Args)))
      → Checks o
      → All (RuleIsSafe known) rules
      → Created (accepted py known id q rules o)
  unfolding accepted
  accepted-Created py id q rules none safe h = tt
  accepted-Created py id q rules (some action) safe h = elim (Bool-cases (str_in q.entity known)) [
    | inr unknown ↦ simp unknown tt
    | inl entity ↦
        elim (Bool-cases (leb 2 (py.chars q.description) && leb (py.chars q.description) 200)) [
          | inr odd ↦ simp (entity, odd) tt
          | inl fine ↦ simp (entity, fine) (stored-safe py id q rules action entity safe h)
        ]
  ]

  -- If `create` accepts a request, the rules that it leaves are safe if they were, whatever was asked for: a cooldown of a
  -- quarter of an hour at least, an entity of the house, and an action that is the purifier's or switches
  -- an entity of the house.
  pub create_keeps_safe :
      (py : Texts) (id : String) (q : Wish) (rules : Rules) (r : Rule) (rules' : Rules)
      → All (RuleIsSafe known) rules
      → create py known id q rules ≡ some (r, rules')
      → All (RuleIsSafe known) rules'
  unfolding create
  create_keeps_safe py id q rules r rules' h e =
      subst Created e (accepted-Created py id q rules _ (check_action-Checks py q.action) h)
