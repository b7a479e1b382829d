-- ===== src/Kernel/Skill.antt =====
-- `run_skill` of kernel.py. A handler is what it does with the kernel: the exit it comes to and the
-- state it leaves, given the context with the skill's confirmation.
use kyraan.Base.{
  String, ◌≡◌, ◌⊎◌, Bool, true, false, not, ◌&&◌, none, some, List, [], ◌∷◌, arith, str_eq,
  if◌then◌else◌,
}
use kyraan.Registry.{Permission, confirm, is_confirm}
use kyraan.Kernel.Context.{
  Args, SkillCall, out_of_scope, Exit, returned, kill_switch_engaged, confirmation_required,
  tool_failed, blocked_kill_switch, blocked_stage_scope, confirmation_asked, skill_call,
  skill_result, Context, State, logged,
}
use kyraan.Kernel.Viewer.{stage_allows}

-- `skill_config(name)["permission"]`
unfoldable pub skill_permission : String → List (String × Permission) → Permission → Permission
skill_permission name [] default = default
skill_permission name ((k, p) ∷ rest) default =
    if str_eq k name then p else skill_permission name rest default

abbrev pub is_return : Exit → Bool
is_return (returned _) = true
is_return _ = false

abbrev pub Handler : Type 0
Handler = Context → Args → State → Exit × State

-- The steps start empty and are put back, whatever the handler comes to.
run_handler : Context → SkillCall → Handler → State → Exit × State
run_handler c call handler s =
    let (e, s') =
      handler (record c { skill_confirmed = call.confirmed }) call.args
        (record s { steps = some []; log = skill_call call.skill_name ∷ s.log }) in
    (e, record s' { steps = s.steps; log = skill_result call.skill_name (is_return e) ∷ s'.log })

unfoldable pub run_skill : Context → SkillCall → Handler → State → Exit × State
unfolding run_handler
run_skill c call handler s =
    if c.engaged
    then (kill_switch_engaged, logged (blocked_kill_switch call.skill_name) s)
    else if not (stage_allows c call.skill_name none)
    then (
      tool_failed (out_of_scope call.skill_name),
      logged (blocked_stage_scope call.skill_name) s,
    )
    else if is_confirm (skill_permission call.skill_name c.skills c.default_permission)
        && not call.confirmed
    then (
      confirmation_required call.skill_name call.args,
      logged (confirmation_asked call.skill_name) s,
    )
    else run_handler c call handler s

-- A skill's steps are its own: the caller finds its step list as it left it.
pub steps-run_skill :
    (c : Context) (call : SkillCall) (handler : Handler) (s : State)
    → (run_skill c call handler s).1.steps ≡ s.steps
unfolding run_skill
steps-run_skill c call handler s = ground arith

-- What a skill may do to the world: with the kill switch on, out of the viewer's scope, or without the
-- yes that it needs, its handler does not run, and no call reaches an adapter.
pub run_skill_blocked :
    (c : Context) (call : SkillCall) (handler : Handler) (s : State)
    → (c.engaged ≡ true)
      ⊎ (stage_allows c call.skill_name none ≡ false)
      ⊎ ((skill_permission call.skill_name c.skills c.default_permission ≡ confirm)
          × (call.confirmed ≡ false))
    → (is_return (run_skill c call handler s).0 ≡ false)
      × ((run_skill c call handler s).1.sent ≡ s.sent)
unfolding run_skill
run_skill_blocked c call handler s h = ground arith
