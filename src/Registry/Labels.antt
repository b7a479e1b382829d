-- ===== src/Registry/Labels.antt =====
-- What registry.py derives from a tool for its audits: `contracts` and `error_name`.
use kyraan.Base.{String, Bool, ◌||◌, Option, none, List, [], ◌∷◌, any, if◌then◌else◌}
use kyraan.Registry.Defs.{Effect, ToolSpec, is_confirm, is_notify, is_read, is_write}

-- The exception's text in lower case, as the texts that it contains; whether it is a TimeoutError, and
-- whether it is transient.
pub record Raised : Type 0 where
  pub has : String → Bool
  pub is_timeout : Bool
  pub is_transient : Bool

auth_words : List String
auth_words =
    "401" ∷ "403" ∷ "unauthorized" ∷ "forbidden" ∷ "credential" ∷ "auth" ∷ "api key"
    ∷ "token expired" ∷ []

unfoldable pub error_name : Raised → String
unfolding auth_words
error_name e =
    if e.is_timeout || e.has "timed out" || e.has "timeout"
    then "TIMEOUT"
    else if any e.has auth_words
    then "AUTH_REQUIRED"
    else if e.has "429" || e.has "rate limit" || e.has "too many requests"
    then "RATE_LIMITED"
    else if e.has "404" || e.has "not found"
    then "NOT_FOUND"
    else if e.is_transient
    then "NETWORK"
    else "TOOL_FAILED"

pub record Contract : Type 0 where
  pub effect : Effect
  pub risk : String
  pub requires_confirmation : Bool
  pub taint : String
  pub verification : Option String

risk_of : Effect → String
risk_of effect =
    if is_write effect then "external_write" else if is_notify effect then "notify" else "read_only"

-- `_verification_class`, with the executors' map
verification_class : (String → Option String) → ToolSpec → Option String
verification_class classes spec = if is_read spec.side_effects then none else classes spec.name

-- `contracts`, with `taint.source_class`
unfoldable pub contracts :
    (String → String) → (String → Option String) → List ToolSpec → List (String × Contract)
unfolding risk_of verification_class
contracts source_class classes [] = []
contracts source_class classes (spec ∷ specs) =
    (
      spec.name,
      record {
        effect = spec.side_effects;
        risk = risk_of spec.side_effects;
        requires_confirmation = is_confirm spec.permission;
        taint = source_class spec.name;
        verification = verification_class classes spec;
      },
    )
    ∷ contracts source_class classes specs
