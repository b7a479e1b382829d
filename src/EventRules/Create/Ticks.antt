-- ===== src/EventRules/Create/Ticks.antt =====
-- The actions of rules under `tick` of event_rules.py.
use mathlib.Core.Path.{subst}
use kyraan.Base.{
  ℕ, String, ◌≡◌, refl, sym, inl, inr, Bool, true, false, ◌&&◌, Option, none, some, List, [], ◌∷◌,
  str_eq, All, Bool-cases,
}
use kyraan.Base.Table.{update}
use kyraan.Kernel.Context.{Args, ToolCall}
use kyraan.EventRules.{
  Rule, Rules, House, Visit, Observed, raised, shapeless, observed, Sent, delivered, differs,
  mark_fired, mark_met, settled, alert, commanded, settle_alert, list_active, act, tell, respond,
  crossed, look, check, check_all, tick, in_cooldown, condition_met,
}
use kyraan.EventRules.Create.Safe.{ActionIsSafe, RuleIsSafe}

module _ (known : List String) where
  -- Safe rules, and only safe commands so far.
  pub record HouseIsSafe (h : House) : Type 0 where
    pub rules_safe : All (RuleIsSafe known) h.rules
    pub actions_safe :
        All (λ (c : ToolCall). ActionIsSafe known (some (c.tool_name, c.args))) h.actions

  mark_met-safe :
      (id : String) (met : Bool) (rs : Rules)
      → All (RuleIsSafe known) rs
      → All (RuleIsSafe known) (mark_met id met rs)
  unfolding mark_met
  mark_met-safe id met [] h = tt
  mark_met-safe id met (r ∷ rs) h = elim (Bool-cases (str_eq r.id id && differs met r.last_met)) [
    | inl this ↦ simp this (
      record {
        cooldown_le = h.0.cooldown_le;
        entity_known = h.0.entity_known;
        action_safe = h.0.action_safe;
      },
      h.1,
    )
    | inr other ↦ simp other (h.0, mark_met-safe id met rs h.1)
  ]

  mark_fired-safe :
      (id : String) (now : ℕ) (rs : Rules)
      → All (RuleIsSafe known) rs
      → All (RuleIsSafe known) (mark_fired id now rs)
  unfolding mark_fired update
  mark_fired-safe id now [] h = tt
  mark_fired-safe id now (r ∷ rs) h = elim (Bool-cases (str_eq r.id id)) [
    | inl this ↦ simp this (
      record {
        cooldown_le = h.0.cooldown_le;
        entity_known = h.0.entity_known;
        action_safe = h.0.action_safe;
      },
      mark_fired-safe id now rs h.1,
    )
    | inr other ↦ simp other (h.0, mark_fired-safe id now rs h.1)
  ]

  settled-safe :
      (id : String) (now : ℕ) (h : House) → HouseIsSafe h → HouseIsSafe (settled id now h)
  settled-safe id now h safe = record {
    rules_safe = mark_met-safe id true _ (mark_fired-safe id now h.rules safe.rules_safe);
    actions_safe = safe.actions_safe;
  }

  alert-safe : (r : Rule) (h : House) → HouseIsSafe h → HouseIsSafe (alert r h)
  alert-safe r h safe = record { rules_safe = safe.rules_safe; actions_safe = safe.actions_safe }

  module _ (v : Visit) (now : ℕ) (r : Rule) where
    settle_alert-safe :
        (sent : Sent) (h : House) → HouseIsSafe h → HouseIsSafe (settle_alert now r h sent).0
    unfolding settle_alert
    settle_alert-safe delivered h safe = settled-safe r.id now (alert r h) (alert-safe r h safe)
    settle_alert-safe _ h safe = alert-safe r h safe

    respond-safe :
        (action : Option (String × Args)) (h : House)
        → ActionIsSafe known action
        → HouseIsSafe h
        → HouseIsSafe (respond v now r action h).0
    unfolding respond act tell
    respond-safe none h fits safe = elim (Bool-cases v.allowed) [
      | inr quiet ↦ simp quiet safe
      | inl open_hours ↦ simp open_hours (settle_alert-safe v.sent h safe)
    ]
    respond-safe (some (tool, args)) h fits safe =
        let h1 = commanded (tool, args) h in
        let safe1 : HouseIsSafe h1 = record {
          rules_safe = safe.rules_safe;
          actions_safe = (fits, safe.actions_safe);
        } in
        let safe2 = settled-safe r.id now h1 safe1 in
        elim (Bool-cases v.acts) [
          | inr fails ↦ simp fails safe1
          | inl acted ↦ elim (Bool-cases v.allowed) [
            | inr quiet ↦ simp (acted, quiet) safe2
            | inl open_hours ↦ simp (acted, open_hours) (alert-safe r (settled r.id now h1) safe2)
          ]
        ]

    crossed-safe :
        (met : Bool) (h : House)
        → RuleIsSafe known r
        → HouseIsSafe h
        → HouseIsSafe (crossed v now r met h).0
    unfolding crossed
    crossed-safe false h fits safe = elim (Bool-cases r.last_met) [
      | inl was ↦
          let e : crossed v now r false h ≡ (record h { rules = mark_met r.id false h.rules }, 0) =
            rw was refl in
          subst (λ x. HouseIsSafe x.0) (sym e)
            (record {
              rules_safe = mark_met-safe r.id false h.rules safe.rules_safe;
              actions_safe = safe.actions_safe;
            })
      | inr not_yet ↦
          let e : crossed v now r false h ≡ (h, 0) = rw not_yet refl in
          subst (λ x. HouseIsSafe x.0) (sym e) safe
    ]
    crossed-safe true h fits safe = elim (Bool-cases r.last_met) [
      | inl was ↦
          let e : crossed v now r true h ≡ (h, 0) = rw was refl in
          subst (λ x. HouseIsSafe x.0) (sym e) safe
      | inr not_yet ↦ elim (Bool-cases (in_cooldown r now)) [
        | inl cool ↦
            let e : crossed v now r true h ≡ (h, 0) = simp (not_yet, cool) refl in
            subst (λ x. HouseIsSafe x.0) (sym e) safe
        | inr warm ↦
            let e : crossed v now r true h ≡ respond v now r r.action h =
              simp (not_yet, warm) refl in
            subst (λ x. HouseIsSafe x.0) (sym e) (respond-safe r.action h fits.action_safe safe)
      ]
    ]

  module _ (same : String → String → Bool) (visit : Rule → Visit) (now : ℕ) where
    look-safe :
        (v : Visit) (r : Rule) (h : House) (state : Observed)
        → RuleIsSafe known r
        → HouseIsSafe h
        → HouseIsSafe (look same v now r h state).0
    unfolding look
    look-safe v r h raised fits safe = safe
    look-safe v r h shapeless fits safe = crossed-safe v now r false h fits safe
    look-safe v r h (observed reading) fits safe =
        crossed-safe v now r (condition_met same r reading now) h fits safe

    check_all-safe :
        (rs : Rules) (h : House)
        → All (RuleIsSafe known) rs
        → HouseIsSafe h
        → HouseIsSafe (check_all same visit now rs h).0
    unfolding check_all check
    check_all-safe [] h fits safe = safe
    check_all-safe (r ∷ rs) h fits safe =
        check_all-safe rs (check same visit now r h).0 fits.1
          (look-safe (visit r) r h (visit r).state fits.0 safe)

    list_active-safe :
        (rs : Rules) → All (RuleIsSafe known) rs → All (RuleIsSafe known) (list_active none rs)
    unfolding list_active
    list_active-safe [] h = tt
    list_active-safe (r ∷ rs) h = elim (Bool-cases r.active) [
      | inl on ↦ simp on (h.0, list_active-safe rs h.1)
      | inr off ↦ simp off (list_active-safe rs h.1)
    ]

    -- A tick over safe rules leaves safe rules, and gives only safe commands, whatever it meets.
    pub tick_keeps_safe :
        (engaged : Bool) (h : House) → HouseIsSafe h → HouseIsSafe (tick same visit now engaged h).0
    unfolding tick
    tick_keeps_safe true h safe = safe
    tick_keeps_safe false h safe =
        check_all-safe (list_active none h.rules) h (list_active-safe h.rules safe.rules_safe) safe
