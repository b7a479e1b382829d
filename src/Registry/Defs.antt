-- ===== src/Registry/Defs.antt =====
-- `ToolSpec` and the words that its fields hold.
use kyraan.Base.{ℕ, String, Bool, true, false, Option, List}

-- `permission`
pub data Permission : Type 0 where
  auto confirm disabled : Permission
  other_permission : String → Permission

-- `side_effects`
pub data Effect : Type 0 where
  read write notify : Effect
  other_effect : String → Effect

-- the `type` of a parameter
pub data ParamType : Type 0 where
  string datetime number boolean : ParamType
  other_type : String → ParamType

-- `on_failure`: `fallback t` is the text "fallback:" followed by `t`
pub data OnFailure : Type 0 where
  surface silent : OnFailure
  fallback : String → OnFailure
  other_policy : String → OnFailure

-- {type, required}; a parameter that is no dict, or has no type, is `none`
pub record Param : Type 0 where
  pub type : Option ParamType
  pub required : Bool

pub record ToolSpec : Type 0 where
  pub name : String
  pub description : String
  pub server : String
  pub permission : Permission
  pub side_effects : Effect
  pub params : List (String × Param)
  pub returns : String
  pub retries : ℕ
  pub timeout_s : ℕ
  pub on_failure : OnFailure
  pub mcp_name : String

abbrev pub is_confirm : Permission → Bool
is_confirm confirm = true
is_confirm _ = false

abbrev pub is_auto : Permission → Bool
is_auto auto = true
is_auto _ = false

abbrev pub is_disabled : Permission → Bool
is_disabled disabled = true
is_disabled _ = false

abbrev pub is_read : Effect → Bool
is_read read = true
is_read _ = false

abbrev pub is_write : Effect → Bool
is_write write = true
is_write _ = false

abbrev pub is_notify : Effect → Bool
is_notify notify = true
is_notify _ = false
