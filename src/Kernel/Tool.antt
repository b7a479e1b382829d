-- ===== src/Kernel/Tool.antt =====
-- `run_tool` of kernel.py: the gates in their order, the step rail, the validation of the arguments,
-- the attempts, and the failure policy with its one fallback hop.
pub mod Audit
pub mod Sends
pub mod Rails
pub mod Retries
pub mod Fallback
use kyraan.Base.{
  ℕ, zero, suc, ◌+◌, String, Bool, true, false, not, ◌&&◌, ◌||◌, Option, none, some, List, [], ◌∷◌,
  str_eq, leb, length, if◌then◌else◌,
}
use kyraan.Registry.{
  auto, ParamType, string, datetime, number, boolean, OnFailure, surface, silent, fallback, Param,
  ToolSpec, is_confirm, is_disabled, is_read, is_write,
}
use kyraan.Registry.Load.{get}
use kyraan.Kernel.Context.{
  Value, text, numeral, truth, null, Args, ToolCall, Answer, result, timed_out, transient_error,
  tool_error, other_exception, Failure, out_of_scope, is_off, looped, step_limit, bad_args,
  outcome_unknown, exhausted, Exit, returned, kill_switch_engaged, confirmation_required,
  tool_failed, unknown_tool, raised, blocked_kill_switch, blocked_stage_scope, confirmation_asked,
  tool_loop_detected, tool_step_limit, tool_call, tool_fallback, tool_result, tool_retry, Context,
  Signature, State, logged,
}
use kyraan.Kernel.Viewer.{stage_allows}

abbrev pub max_tool_steps : ℕ
max_tool_steps = 8

-- `pname in args`, `spec.params.get(pname)`
assoc {ℓ} : {V : Type ℓ} → String → List (String × V) → Option V
assoc k [] = none
assoc k ((j, v) ∷ rest) = if str_eq j k then some v else assoc k rest

-- the test on a value's type; a type outside the four accepts nothing
fits : (String → Bool) → ParamType → Value → Bool
fits parses string (text _) = true
fits parses number (numeral _) = true
fits parses boolean (truth _) = true
fits parses datetime (text t) = parses t
fits parses _ _ = false

has_type : (String → Bool) → Option ParamType → Value → Bool
has_type parses none v = false
has_type parses (some t) v = fits parses t v

is_given : Option Value → Bool
is_given none = false
is_given (some _) = true

-- the first loop of `_validate_args`: every required parameter is there
required_given : List (String × Param) → Args → Bool
required_given [] args = true
required_given ((pname, p) ∷ rest) args =
    (not p.required || is_given (assoc pname args)) && required_given rest args

-- the second loop: every argument is a parameter, at its type
args_fit : (String → Bool) → List (String × Param) → Args → Bool
args_fit parses params [] = true
args_fit parses params ((pname, v) ∷ rest) =
    elim (assoc pname params) [ none ↦ false | some p ↦ has_type parses p.type v ]
    && args_fit parses params rest

-- `_validate_args`: whether it raises nothing
unfoldable pub validate_args : (String → Bool) → ToolSpec → Args → Bool
unfolding required_given args_fit is_given assoc has_type fits
validate_args parses spec args = required_given spec.params args && args_fit parses spec.params args

-- `signature in steps`
unfoldable pub sig_in : Signature → List Signature → Bool
sig_in sig [] = false
sig_in sig (x ∷ xs) = (str_eq x.0 sig.0 && str_eq x.1 sig.1) || sig_in sig xs

-- The gates: `none` lets the call pass, with the state that it then has.
gate : Context → ToolSpec → ToolCall → State → Option Exit × State
gate c spec call s =
    if c.engaged
    then (some kill_switch_engaged, logged (blocked_kill_switch spec.name) s)
    else if not (stage_allows c spec.name none)
    then (some (tool_failed (out_of_scope spec.name)), logged (blocked_stage_scope spec.name) s)
    else if is_disabled spec.permission
    then (some (tool_failed (is_off spec.name)), s)
    else if is_confirm spec.permission && not (call.confirmed || c.skill_confirmed)
    then (some (confirmation_required spec.name call.args), logged (confirmation_asked spec.name) s)
    else (none, s)

-- The step rail: it meters a call inside a skill, unless it is a machinery read.
metered :
    Context → ToolSpec → ToolCall → Bool → State → Option (List Signature) → Option Exit × State
metered c spec call meta s none = (none, s)
metered c spec call meta s (some steps) =
    if meta
    then (none, s)
    else if sig_in (spec.name, c.dumps call.args) steps
    then (some (tool_failed (looped spec.name)), logged (tool_loop_detected spec.name) s)
    else if leb max_tool_steps (length steps)
    then (some (tool_failed (step_limit spec.name)), logged (tool_step_limit spec.name) s)
    else (none, record s { steps = some ((spec.name, c.dumps call.args) ∷ steps) })

rail : Context → ToolSpec → ToolCall → Bool → State → Option Exit × State
rail c spec call meta s = metered c spec call meta s s.steps

-- The `except` clauses around one attempt: its answer ends the loop, or the loop goes on with `retry`.
-- `none` as an exit means that the loop ended with an exception to which the failure policy applies.
settle : ToolSpec → Option Exit × State → State → Answer → Option Exit × State
settle spec retry s (result v) = (some (returned v), logged (tool_result spec.name true) s)
settle spec retry s timed_out =
    if is_write spec.side_effects
    then (some (tool_failed (outcome_unknown spec.name)), logged (tool_result spec.name false) s)
    else retry
settle spec retry s transient_error = retry
settle spec retry s tool_error = (none, s)
settle spec retry s (other_exception e) = (some (raised e), s)

-- `for attempt in range(retries + 1)`, with the number of attempts that are left
pub attempts : Context → ToolSpec → Args → ℕ → ℕ → State → Option Exit × State
attempts c spec args zero attempt s = (none, s)
attempts c spec args (suc left) attempt s =
    let s1 = record s { sent = (spec.name, args) ∷ s.sent } in
    let retry =
      attempts c spec args left (attempt + 1) (logged (tool_retry spec.name attempt) s1) in
    settle spec retry s1 (c.dispatch spec args attempt)

-- A part of the run that raises ends it.
continue : Option Exit × State → (State → Option Exit × State) → Option Exit × State
continue (some e, s) rest = (some e, s)
continue (none, s) rest = rest s

-- The validation and the attempts.
checked_attempts : Context → ToolSpec → ToolCall → State → Option Exit × State
checked_attempts c spec call s =
    if validate_args c.parses_as_datetime spec call.args
    then attempts c spec call.args (suc spec.retries) 0 (logged (tool_call spec.name) s)
    else (some (tool_failed (bad_args spec.name)), s)

-- Everything up to the failure policy.
pub tried : Context → ToolSpec → ToolCall → Bool → State → Option Exit × State
tried c spec call meta s = continue (gate c spec call s) λ s1.
    continue (rail c spec call (meta && is_read spec.side_effects) s1)
      (checked_attempts c spec call)

-- The failure policy. `hop` runs the fallback; where it is `none` none is allowed.
policy :
    Option (ToolCall → State → Exit × State)
    → ToolSpec
    → ToolCall
    → State
    → OnFailure
    → Exit × State
policy hop spec call s silent = (returned null, s)
policy none spec call s (fallback name) = (tool_failed (exhausted spec.name), s)
policy (some run) spec call s (fallback name) =
    run (record { tool_name = name; args = call.args; confirmed = call.confirmed })
      (logged (tool_fallback spec.name) s)
policy hop spec call s _ = (tool_failed (exhausted spec.name), s)

-- The end of the loop: an exit that stands, or the failure policy.
conclude :
    Option (ToolCall → State → Exit × State)
    → ToolSpec
    → ToolCall
    → Option Exit × State
    → Exit × State
conclude hop spec call (some e, s) = (e, s)
conclude hop spec call (none, s) =
    policy hop spec call (logged (tool_result spec.name false) s) spec.on_failure

run_found :
    Option (ToolCall → State → Exit × State)
    → Context
    → ToolCall
    → Bool
    → State
    → Option ToolSpec
    → Exit × State
run_found hop c call meta s none = (unknown_tool call.tool_name, s)
run_found hop c call meta s (some spec) = conclude hop spec call (tried c spec call meta s)

run_with :
    Option (ToolCall → State → Exit × State) → Context → ToolCall → Bool → State → Exit × State
run_with hop c call meta s = run_found hop c call meta s (get call.tool_name c.tools)

-- `run_tool(call, _allow_fallback=False)`
unfoldable pub run_fallback : Context → ToolCall → State → Exit × State
unfolding run_with run_found conclude policy tried continue checked_attempts gate rail metered
    attempts settle
run_fallback c call s = run_with none c call false s

-- `run_tool(call, meta=meta)`
unfoldable pub run_tool : Context → ToolCall → Bool → State → Exit × State
unfolding run_with run_found conclude policy tried continue checked_attempts gate rail metered
    attempts settle
run_tool c call meta s = run_with (some (run_fallback c)) c call meta s
