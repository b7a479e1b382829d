-- ===== src/Kernel/Context.antt =====
-- What a call of the kernel reads and changes. The context variables, the configuration and the world
-- outside (the kill-switch file, the stored grants, the adapters) are fields of `Context`; the step
-- list of the running skill, the audit log and the calls that reached an adapter are `State`.
use kyraan.Base.{ℕ, String, Bool, Option, List, ◌∷◌}
use kyraan.Registry.{Permission, ToolSpec}

-- a JSON value, as far as `_validate_args` tells values apart
pub data Value : Type 0 where
  text : String → Value
  numeral : ℕ → Value
  truth : Bool → Value
  null : Value
  structure : String → Value

abbrev pub Args : Type 0
Args = List (String × Value)

pub record ToolCall : Type 0 where
  pub tool_name : String
  pub args : Args
  pub confirmed : Bool

pub record SkillCall : Type 0 where
  pub skill_name : String
  pub args : Args
  pub confirmed : Bool

-- what one attempt at an adapter ends in
pub data Answer : Type 0 where
  result : Value → Answer
  timed_out transient_error tool_error : Answer
  other_exception : String → Answer

-- the messages of ToolFailed
pub data Failure : Type 0 where
  out_of_scope is_off looped step_limit bad_args outcome_unknown exhausted : String → Failure

-- how a call ends: a result, or one of the exceptions
pub data Exit : Type 0 where
  returned : Value → Exit
  kill_switch_engaged : Exit
  confirmation_required : String → Args → Exit
  tool_failed : Failure → Exit
  unknown_tool : String → Exit
  raised : String → Exit

-- `log_event`, without the fields that only inform
pub data Event : Type 0 where
  blocked_kill_switch blocked_stage_scope confirmation_asked tool_loop_detected tool_step_limit
        tool_call tool_fallback skill_call :
      String → Event
  tool_result skill_result : String → Bool → Event
  tool_retry : String → ℕ → Event
  blocked_dnd : Event

pub record Context : Type 0 where
  pub engaged : Bool
  pub person : String
  pub stage : String
  pub toolsets : List (String × List String)
  pub grants : String → Option (List String)
  pub skills : List (String × Permission)
  pub default_permission : Permission
  pub tools : List ToolSpec
  pub skill_confirmed : Bool
  pub parses_as_datetime : String → Bool
  pub dumps : Args → String
  pub dispatch : ToolSpec → Args → ℕ → Answer

-- a tool's name and its arguments as sorted JSON
abbrev pub Signature : Type 0
Signature = String × String

-- `sent` holds the calls that reached an adapter, `log` the events, both newest first.
pub record State : Type 0 where
  pub steps : Option (List Signature)
  pub sent : List (String × Args)
  pub log : List Event

abbrev pub logged : Event → State → State
logged e s = record s { log = e ∷ s.log }
