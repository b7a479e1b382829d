-- ===== src/Tests/House.antt =====
-- A small configuration: a lamp that is switched after a yes, with the state of the plug as fallback.
use kyraan.Base.{ℕ, zero, suc, String, true, false, none, some, List, [], ◌∷◌}
use kyraan.Registry.{ToolSpec, auto, confirm, read, write, string, surface, fallback}
use kyraan.Registry.Load.{Entry, Server, builtin}
use kyraan.Kernel.Context.{
  text, Args, ToolCall, Answer, result, transient_error, SkillCall, Context, State,
}

abbrev pub lamp_entry : Entry
lamp_entry = record {
  description = none;
  server = some "home_assistant";
  permission = none;
  side_effects = none;
  params = some (("entity", record { type = some string; required = true }) ∷ []);
  returns = none;
  retries = some 1;
  timeout_s = none;
  on_failure = some (fallback "home.get_state");
  mcp_name = none;
}

abbrev pub state_entry : Entry
state_entry = record {
  description = none;
  server = some "home_assistant";
  permission = some auto;
  side_effects = some read;
  params = some (("entity", record { type = some string; required = true }) ∷ []);
  returns = none;
  retries = some 1;
  timeout_s = none;
  on_failure = some surface;
  mcp_name = none;
}

abbrev pub entries : List (String × Entry)
entries = ("home.turn_on", lamp_entry) ∷ ("home.get_state", state_entry) ∷ []

abbrev pub servers : List Server
servers =
    record { name = "home_assistant"; transport = builtin; has_module = true; has_command = false }
    ∷ []

abbrev pub lamp : ToolSpec
lamp = record {
  name = "home.turn_on";
  description = "";
  server = "home_assistant";
  permission = confirm;
  side_effects = write;
  params = ("entity", record { type = some string; required = true }) ∷ [];
  returns = "";
  retries = 1;
  timeout_s = 10;
  on_failure = fallback "home.get_state";
  mcp_name = "";
}

abbrev pub lamp_state : ToolSpec
lamp_state = record {
  name = "home.get_state";
  description = "";
  server = "home_assistant";
  permission = auto;
  side_effects = read;
  params = ("entity", record { type = some string; required = true }) ∷ [];
  returns = "";
  retries = 1;
  timeout_s = 10;
  on_failure = surface;
  mcp_name = "";
}

abbrev pub specs : List ToolSpec
specs = lamp ∷ lamp_state ∷ []

-- the first attempt fails in transit, the second is answered
abbrev pub flaky : ℕ → Answer
flaky zero = transient_error
flaky (suc n) = result (text "on")

abbrev pub house : Context
house = record {
  engaged = false;
  person = "owner";
  stage = "owner";
  toolsets = [];
  grants = λ _. none;
  skills = [];
  default_permission = confirm;
  tools = specs;
  skill_confirmed = false;
  parses_as_datetime = λ _. false;
  dumps = λ _. "{}";
  dispatch = λ _ _ n. flaky n;
}

abbrev pub lamp_args : Args
lamp_args = ("entity", text "switch.lamp") ∷ []

abbrev pub switch_on : ToolCall
switch_on = record { tool_name = "home.turn_on"; args = lamp_args; confirmed = true }

abbrev pub unconfirmed : ToolCall
unconfirmed = record { tool_name = "home.turn_on"; args = lamp_args; confirmed = false }

abbrev pub lights_skill : SkillCall
lights_skill = record { skill_name = "lights"; args = []; confirmed = false }

abbrev pub idle : State
idle = record { steps = some []; sent = []; log = [] }
