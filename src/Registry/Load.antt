-- ===== src/Registry/Load.antt =====
-- `_validate` and `load`: a configuration becomes a registry, or the first fault that is found.
pub mod Safety
use kyraan.Base.{
  ℕ, String, ◌≡◌, Bool, true, false, not, ◌&&◌, ◌||◌, Option, none, some, List, [], ◌∷◌, map,
  str_eq, str_in, if◌then◌else◌,
}
use kyraan.Base.Table.{find, id-find}
use kyraan.Registry.Defs.{
  Permission, auto, confirm, disabled, other_permission, Effect, read, write, notify, other_effect,
  ParamType, other_type, OnFailure, surface, silent, fallback, other_policy, Param, ToolSpec,
  is_auto, is_confirm, is_notify, is_write,
}

-- the ValueErrors, each with the tool or server that it names
pub data ConfigError : Type 0 where
  unknown_permission unknown_side_effects auto_write unknown_server bad_param bad_fallback
        silent_not_notify unknown_on_failure no_module no_command unknown_transport
        confirm_fallback :
      String → ConfigError

-- the outcome of a check: a value, or the first fault
pub data Checked (V : Type 0) : Type 0 where
  ok : V → Checked V
  err : ConfigError → Checked V

infixl 5 ◌>>=◌ ◌>>◌
abbrev pub ◌>>=◌ : {V W : Type 0} → Checked V → (V → Checked W) → Checked W
ok v >>= rest = rest v
err fault >>= rest = err fault

abbrev pub ◌>>◌ : {W : Type 0} → Checked Unit → Checked W → Checked W
check >> rest = check >>= λ _. rest

-- `if c: raise e`
abbrev pub raise_if : Bool → ConfigError → Checked Unit
raise_if true e = err e
raise_if false e = ok tt

abbrev pub media_auto_exempt : List String
media_auto_exempt =
    "music.play" ∷ "music.pause" ∷ "music.skip" ∷ "music.volume" ∷ "home.announce"
    ∷ "home.speaker_volume" ∷ "home.media" ∷ "home.tv_play" ∷ []

-- `permission not in _PERMISSIONS`, and the like
abbrev foreign_permission : Permission → Bool
foreign_permission (other_permission _) = true
foreign_permission _ = false

abbrev foreign_effect : Effect → Bool
foreign_effect (other_effect _) = true
foreign_effect _ = false

abbrev pub foreign_type : Option ParamType → Bool
foreign_type none = true
foreign_type (some (other_type _)) = true
foreign_type (some _) = false

check_params : String → List (String × Param) → Checked Unit
check_params name [] = ok tt
check_params name ((_, p) ∷ ps) =
    let rest = check_params name ps in if foreign_type p.type then err (bad_param name) else rest

check_failure : ToolSpec → List String → OnFailure → Checked Unit
check_failure spec all_names (fallback target) =
    raise_if (not (str_in target all_names) || str_eq target spec.name) (bad_fallback spec.name)
check_failure spec all_names silent =
    raise_if (not (is_notify spec.side_effects)) (silent_not_notify spec.name)
check_failure spec all_names surface = ok tt
check_failure spec all_names (other_policy _) = err (unknown_on_failure spec.name)

-- `_validate(name, spec, all_names, servers)`
unfoldable pub validate : ToolSpec → List String → List String → Checked Unit
unfolding check_params check_failure
validate spec all_names servers = do
  raise_if (foreign_permission spec.permission) (unknown_permission spec.name)
  raise_if (foreign_effect spec.side_effects) (unknown_side_effects spec.name)
  raise_if
      ((is_write spec.side_effects || is_notify spec.side_effects)
        && is_auto spec.permission
        && not (str_in spec.name media_auto_exempt))
      (auto_write spec.name)
  raise_if (not (str_in spec.server servers)) (unknown_server spec.name)
  check_params spec.name spec.params
  check_failure spec all_names spec.on_failure

-- A `tools:` entry before the defaults are filled in. Only what `load` reads of it.
pub record Entry : Type 0 where
  pub description : Option String
  pub server : Option String
  pub permission : Option Permission
  pub side_effects : Option Effect
  pub params : Option (List (String × Param))
  pub returns : Option String
  pub retries : Option ℕ
  pub timeout_s : Option ℕ
  pub on_failure : Option OnFailure
  pub mcp_name : Option String

-- `entry.get(key, default)`
abbrev get_or {ℓ} : {A : Type ℓ} → Option A → A → A
get_or none d = d
get_or (some a) d = a

unfoldable pub spec_of : String → Entry → ToolSpec
spec_of name e = record {
  name = name;
  description = get_or e.description "";
  server = get_or e.server "";
  permission = get_or e.permission confirm;
  side_effects = get_or e.side_effects write;
  params = get_or e.params [];
  returns = get_or e.returns "";
  retries = get_or e.retries 0;
  timeout_s = get_or e.timeout_s 10;
  on_failure = get_or e.on_failure surface;
  mcp_name = get_or e.mcp_name "";
}

-- `transport`; an absent one is builtin
pub data Transport : Type 0 where
  builtin mcp_stdio : Transport
  other_transport : String → Transport

-- whether the entry has a `module`, and whether it has a `command`
pub record Server : Type 0 where
  pub name : String
  pub transport : Transport
  pub has_module : Bool
  pub has_command : Bool

check_server : Server → Checked Unit
check_server s = elim s.transport [
  | builtin ↦ raise_if (not s.has_module) (no_module s.name)
  | mcp_stdio ↦ raise_if (not s.has_command) (no_command s.name)
  | other_transport _ ↦ err (unknown_transport s.name)
]

check_servers : List Server → Checked Unit
check_servers [] = ok tt
check_servers (s ∷ ss) = check_server s >> check_servers ss

server_names : List Server → List String
server_names [] = []
server_names (s ∷ ss) = s.name ∷ server_names ss

entry_names : List (String × Entry) → List String
entry_names [] = []
entry_names ((name, _) ∷ es) = name ∷ entry_names es

-- the loop that builds and validates `specs`
build : List String → List String → List (String × Entry) → Checked (List ToolSpec)
build all_names servers [] = ok []
build all_names servers ((name, e) ∷ es) = do
  validate (spec_of name e) all_names servers
  specs ← build all_names servers es
  ok (spec_of name e ∷ specs)

-- `specs[target].permission == "confirm"`, with the target that `_validate` found
abbrev springs_confirmation : List ToolSpec → OnFailure → Bool
springs_confirmation specs (fallback target) = elim (find (λ (s : ToolSpec). s.name) target specs) [
  | some t ↦ is_confirm t.permission
  | none ↦ false
]
springs_confirmation specs _ = false

-- the last loop of `load`
check_fallbacks : List ToolSpec → List ToolSpec → Checked Unit
check_fallbacks specs [] = ok tt
check_fallbacks specs (s ∷ ss) =
    let rest = check_fallbacks specs ss in
    if springs_confirmation specs s.on_failure then err (confirm_fallback s.name) else rest

unfoldable pub load : List (String × Entry) → List Server → Checked (List ToolSpec)
unfolding check_server check_servers server_names entry_names build check_fallbacks
load tools servers = do
  check_servers servers
  specs ← build (entry_names tools) (server_names servers) tools
  check_fallbacks specs specs
  ok specs

-- `get`: `specs[tool_name]`, or a ToolError
unfoldable pub get : String → List ToolSpec → Option ToolSpec
get = find (λ (s : ToolSpec). s.name)

pub get-name :
    (k : String) (s : ToolSpec) (specs : List ToolSpec) → get k specs ≡ some s → s.name ≡ k
unfolding get
get-name k s specs h = id-find _ k specs s h
