-- ===== src/EventRules/Edges.antt =====
-- The edges of event_rules.py: settling a rule, and the ticks that count it as fired.
use kyraan.Base.{
  ℕ, String, ◌≡◌, refl, sym, ◌∙◌, ◌≢◌, ap, ◌⊎◌, inl, inr, Bool, true, false, Option, none, some,
  List, [], ◌∷◌, arith, if◌then◌else◌, str_eq_self, eq_iff, Bool-cases,
}
use mathlib.Core.Path.{subst}
use kyraan.Base.Table.{find, find-update}
use kyraan.Kernel.Context.{Args, ToolCall}
use kyraan.Reminders.{moment}
use kyraan.EventRules.{
  Rule, Rules, rule_id_of, House, Visit, Sent, settle_alert, Observed, raised, shapeless, observed,
  delivered, undelivered, send_raises, Reading, differs, mark_fired, mark_met, settled, alert,
  commanded, in_cooldown, condition_met, act, tell, respond, crossed, look, check,
}

find-mark_met :
    (id : String) (met : Bool) (rs : Rules) (r : Rule)
    → find rule_id_of id rs ≡ some r
    → find rule_id_of id (mark_met id met rs) ≡ some (record r { last_met = met })
unfolding find mark_met differs
find-mark_met id true [] r e = cc
find-mark_met id false [] r e = cc
find-mark_met id true (x ∷ xs) r e = ground (arith, eq_iff x.id id, find-mark_met id true xs r)
find-mark_met id false (x ∷ xs) r e = ground (arith, eq_iff x.id id, find-mark_met id false xs r)

bool_clash : {b : Bool} → b ≡ false → b ≡ true → ⊥
bool_clash f t = cc

observed-injective : {x y : Reading} → observed x ≡ observed y → x ≡ y
observed-injective e = cc

-- The rule is due: its state was read and meets the condition, the last time that it was seen it did not,
-- and it is out of its cooldown.
abbrev pub IsDue : (String → String → Bool) → Visit → ℕ → Rule → Type 0
IsDue same v now r =
    (reading : Reading) × (v.state ≡ observed reading)
    × (condition_met same r reading now ≡ true)
    × (r.last_met ≡ false)
    × (in_cooldown r now ≡ false)

-- the calls of tools after a rule with this action has answered
abbrev pub commands : Option (String × Args) → List ToolCall → List ToolCall
commands none calls = calls
commands (some (tool, args)) calls =
    record { tool_name = tool; args = args; confirmed = true } ∷ calls

-- What keeps a due rule from being counted: its action fails; or it has none, and quiet hours hold the
-- message back or the send does not arrive.
abbrev pub IsUndone : Visit → Option (String × Args) → Type 0
IsUndone v none = (v.allowed ≡ false) ⊎ (v.sent ≢ delivered)
IsUndone v (some action) = v.acts ≡ false

-- A due rule counts as fired, remembers that and its time, has called its action, and alerts unless
-- quiet hours hold that back; or what it answers with does not go through, it has called its action,
-- and the rules are as they were; or it is not due, nobody is told, no tool is called, the time is as
-- it was, and the condition is remembered as met only if it was before.
abbrev pub Outcome : (String → String → Bool) → Visit → ℕ → Rule → House → House × ℕ → Type 0
Outcome same v now r h (h', fired) =
    (IsDue same v now r
      × (fired ≡ 1)
      × (find rule_id_of r.id h'.rules
          ≡ some (record r { last_met = true; last_fired = moment now }))
      × (h'.actions ≡ commands r.action h.actions)
      × (h'.alerts ≡ (if v.allowed then (r.chat_id, r.id) ∷ h.alerts else h.alerts)))
    ⊎ (IsDue same v now r
        × (fired ≡ 0)
        × IsUndone v r.action
        × (h'.rules ≡ h.rules)
        × (h'.actions ≡ commands r.action h.actions)
        × ((h'.alerts ≡ h.alerts) ⊎ (h'.alerts ≡ (r.chat_id, r.id) ∷ h.alerts)))
    ⊎ (¬ IsDue same v now r
        × (fired ≡ 0)
        × (h'.actions ≡ h.actions)
        × (h'.alerts ≡ h.alerts)
        × ((met : Bool) × (find rule_id_of r.id h'.rules ≡ some (record r { last_met = met }))
            × (met ≡ true → r.last_met ≡ true)))

-- a rule that fired remembers that and when
find-settled :
    (now : ℕ) (r : Rule) (rs : Rules)
    → find rule_id_of r.id rs ≡ some r
    → find rule_id_of r.id (mark_met r.id true (mark_fired r.id now rs))
      ≡ some (record r { last_met = true; last_fired = moment now })
unfolding mark_fired
find-settled now r rs found =
    let stamped : find rule_id_of r.id (mark_fired r.id now rs)
        ≡ some (record r { last_fired = moment now }) =
      find-update rule_id_of r.id r.id _ rs (λ x. refl) ∙ rw (str_eq_self r.id) (rw found refl) in
    find-mark_met r.id true _ _ stamped

module _ (same : String → String → Bool) (v : Visit) (now : ℕ) (r : Rule) where
  idle :
      (h : House)
      → ¬ IsDue same v now r
      → find rule_id_of r.id h.rules ≡ some r
      → Outcome same v now r h (h, 0)
  idle h idle_now found = inr (inr (idle_now, refl, refl, refl, (r.last_met, found, λ e. e)))

  module _ (h : House) (due : IsDue same v now r)
      (found : find rule_id_of r.id h.rules ≡ some r) where
    abbrev told_if : Bool → List (ℕ × String)
    told_if b = if b then (r.chat_id, r.id) ∷ h.alerts else h.alerts

    fires :
        (h' : House) (action : Option (String × Args)) (allowed : Bool)
        → r.action ≡ action
        → v.allowed ≡ allowed
        → h'.rules ≡ mark_met r.id true (mark_fired r.id now h.rules)
        → h'.actions ≡ commands action h.actions
        → h'.alerts ≡ told_if allowed
        → Outcome same v now r h (h', 1)
    fires h' action allowed e a rules actions alerts = inl (
      due,
      refl,
      ap (find rule_id_of r.id) rules ∙ find-settled now r h.rules found,
      actions ∙ ap (λ x. commands x h.actions) (sym e),
      alerts ∙ ap told_if (sym a),
    )

    fails :
        (h' : House) (action : Option (String × Args))
        → r.action ≡ action
        → IsUndone v action
        → h'.rules ≡ h.rules
        → h'.actions ≡ commands action h.actions
        → (h'.alerts ≡ h.alerts) ⊎ (h'.alerts ≡ (r.chat_id, r.id) ∷ h.alerts)
        → Outcome same v now r h (h', 0)
    fails h' action e undone rules actions alerts = inr (
        inl (
          due,
          refl,
          subst (IsUndone v) (sym e) undone,
          rules,
          actions ∙ ap (λ x. commands x h.actions) (sym e),
          alerts,
        ))

    settle_alert-Outcome :
        (sent : Sent)
        → v.sent ≡ sent
        → v.allowed ≡ true
        → r.action ≡ none
        → Outcome same v now r h (settle_alert now r h sent)
    unfolding settle_alert
    settle_alert-Outcome delivered e open_hours tells =
        fires (settled r.id now (alert r h)) none true tells open_hours refl refl refl
    settle_alert-Outcome undelivered e open_hours tells =
        fails (alert r h) none tells (inr (λ d. cc)) refl refl (inr refl)
    settle_alert-Outcome send_raises e open_hours tells =
        fails (alert r h) none tells (inr (λ d. cc)) refl refl (inr refl)

    tell-Outcome : r.action ≡ none → Outcome same v now r h (tell v now r h)
    unfolding tell
    tell-Outcome tells = elim (Bool-cases v.allowed) [
      | inr quiet ↦
          let e : tell v now r h ≡ (h, 0) = rw quiet refl in
          subst (Outcome same v now r h) (sym e)
            (fails h none tells (inl quiet) refl refl (inl refl))
      | inl open_hours ↦
          let e : tell v now r h ≡ settle_alert now r h v.sent = rw open_hours refl in
          subst (Outcome same v now r h) (sym e) (settle_alert-Outcome v.sent refl open_hours tells)
    ]

    act-Outcome :
        (action : String × Args)
        → r.action ≡ some action
        → Outcome same v now r h (act v now r action h)
    unfolding act
    act-Outcome (tool, args) does =
        let called = commanded (tool, args) h in
        elim (Bool-cases v.acts) [
          | inr lost ↦
              let e : act v now r (tool, args) h ≡ (called, 0) = rw lost refl in
              subst (Outcome same v now r h) (sym e)
                (fails called (some (tool, args)) does lost refl refl (inl refl))
          | inl acted ↦ elim (Bool-cases v.allowed) [
            | inr quiet ↦
                let e : act v now r (tool, args) h ≡ (settled r.id now called, 1) =
                  rw acted (rw quiet refl) in
                subst (Outcome same v now r h) (sym e) (
                  fires (settled r.id now called) (some (tool, args)) false does quiet refl refl
                    refl)
            | inl open_hours ↦
                let e : act v now r (tool, args) h ≡ (alert r (settled r.id now called), 1) =
                  rw acted (rw open_hours refl) in
                subst (Outcome same v now r h) (sym e) (
                  fires (alert r (settled r.id now called)) (some (tool, args)) true does open_hours
                    refl refl refl)
          ]
        ]

    respond-Outcome :
        (action : Option (String × Args))
        → r.action ≡ action
        → Outcome same v now r h (respond v now r action h)
    unfolding respond
    respond-Outcome none e = tell-Outcome e
    respond-Outcome (some action) e = act-Outcome action e

  -- `met` is what the reading says, and false without one
  abbrev Judged : Bool → Type 0
  Judged met =
      ((reading : Reading) → v.state ≡ observed reading → condition_met same r reading now ≡ met)
      × (met ≡ true → (reading : Reading) × (v.state ≡ observed reading))

  crossed-Outcome :
      (met : Bool) (h : House)
      → Judged met
      → find rule_id_of r.id h.rules ≡ some r
      → Outcome same v now r h (crossed v now r met h)
  unfolding crossed
  crossed-Outcome false h judged found =
      let idle_now : ¬ IsDue same v now r =
        λ (d : IsDue same v now r). absurd (bool_clash (judged.0 d.0 d.1) d.2) in
      elim (Bool-cases r.last_met) [
        | inl was ↦
            let e : crossed v now r false h
                ≡ (record h { rules = mark_met r.id false h.rules }, 0) =
              rw was refl in
            subst (Outcome same v now r h) (sym e) (
              inr (
                inr (
                  idle_now,
                  refl,
                  refl,
                  refl,
                  (false, find-mark_met r.id false h.rules r found, λ _. was),
                )))
        | inr not_yet ↦
            let e : crossed v now r false h ≡ (h, 0) = rw not_yet refl in
            subst (Outcome same v now r h) (sym e) (idle h idle_now found)
      ]
  crossed-Outcome true h judged found = elim (Bool-cases r.last_met) [
    | inl was ↦
        let e : crossed v now r true h ≡ (h, 0) = rw was refl in
        subst (Outcome same v now r h) (sym e)
          (idle h (λ (d : IsDue same v now r). bool_clash d.3 was) found)
    | inr not_yet ↦ elim (Bool-cases (in_cooldown r now)) [
      | inl cool ↦
          let e : crossed v now r true h ≡ (h, 0) = simp (not_yet, cool) refl in
          subst (Outcome same v now r h) (sym e)
            (idle h (λ (d : IsDue same v now r). bool_clash d.4 cool) found)
      | inr warm ↦
          let e : crossed v now r true h ≡ respond v now r r.action h = simp (not_yet, warm) refl in
          let (reading, seen) = judged.1 refl in
          subst (Outcome same v now r h) (sym e) (
            respond-Outcome h (reading, seen, judged.0 reading seen, not_yet, warm) found r.action
              refl)
    ]
  ]

  look-Outcome :
      (h : House) (state : Observed)
      → v.state ≡ state
      → find rule_id_of r.id h.rules ≡ some r
      → Outcome same v now r h (look same v now r h state)
  unfolding look
  look-Outcome h raised e found =
      idle h (λ (d : IsDue same v now r). let there : v.state ≡ observed d.0 = d.1 in cc) found
  look-Outcome h shapeless e found =
      crossed-Outcome false h ((λ reading there. absurd (cc)), λ t. cc) found
  look-Outcome h (observed reading) e found =
      crossed-Outcome (condition_met same r reading now) h
        (
          (λ other there.
              ap (λ x. condition_met same r x now) (observed-injective (sym there ∙ e))),
          λ _. (reading, e),
        )
        found

-- What a look at a stored rule comes to. If the rule is due (its state was read and meets the condition,
-- the last time that it was seen it did not, and it is out of its cooldown), it calls its action if it
-- has one. It then counts as fired, remembers that and the time, and alerts unless quiet hours hold
-- that back; except where its action fails or, for a rule with no action, quiet hours hold the message
-- back or the send does not arrive: then the rules stay as they were. If it is not due nobody is told,
-- no tool is called, and the condition is remembered as met only if it was before.
pub check_fires_at_edges :
    (same : String → String → Bool) (visit : Rule → Visit) (now : ℕ) (r : Rule) (h : House)
    → find rule_id_of r.id h.rules ≡ some r
    → Outcome same (visit r) now r h (check same visit now r h)
unfolding check
check_fires_at_edges same visit now r h found =
    look-Outcome same (visit r) now r h (visit r).state refl found
