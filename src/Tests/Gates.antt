-- ===== src/Tests/Gates.antt =====
-- Runs of the kernel of kernel.py, of registry.py's `load` and of the proactive gate, on one house.
use kyraan.Base.{
  ◌+◌, ◌*◌, ◌≤◌, ◌<◌, ◌%◌, ◌-◌, ◌↔◌, String, ◌≡◌, refl, true, false, none, [], arith, length, All,
  str_in,
}
use kyraan.Base.Table.{find}
use kyraan.Registry.Load.{ok, load, get, validate, spec_of}
use kyraan.Registry.Load.Safety.{IsGuarded, FallbackIsSafe, load-IsSafe}
use kyraan.Kernel.Context.{returned, text}
use kyraan.Kernel.Viewer.{stage_allows}
use kyraan.Kernel.Tool.{run_tool, attempts, validate_args, sig_in}
use kyraan.Kernel.Tool.Audit.{IsAuthorizedCall, run_tool-authorized, run_tool_calls-le}
use kyraan.Kernel.Tool.Rails.{IsMetered, run_tool-IsMetered}
use kyraan.Kernel.Tool.Retries.{Resends, attempts-Resends}
use kyraan.Kernel.Tool.Fallback.{run_tool_asks_for_itself}
use kyraan.Kernel.Proactive.{Gate, day_s, in_quiet_hours, quiet_hours_arc}
use kyraan.Tests.House.{
  entries, servers, specs, lamp, house, switch_on, unconfirmed, lamp_args, idle,
}

-- a confirmed switch goes through at the second attempt
switch_run : (run_tool house switch_on false idle).0 ≡ returned (text "on")
unfolding run_tool get find stage_allows validate_args sig_in
switch_run = refl

load-entries : load entries servers ≡ ok specs
unfolding load validate str_in find spec_of
load-entries = refl

load-IsSafe_example : All (λ s. IsGuarded s × FallbackIsSafe specs s) specs
load-IsSafe_example = load-IsSafe entries servers specs load-entries

run_tool-authorized_example :
    All (IsAuthorizedCall house true) (run_tool house switch_on false idle).1.sent
run_tool-authorized_example = run_tool-authorized house switch_on false idle tt

run_tool_calls-le_example : length (run_tool house switch_on false idle).1.sent ≤ 0 + 2 * (1 + 1)
run_tool_calls-le_example = run_tool_calls-le house 1 (omega arith) switch_on false idle

run_tool-IsMetered_example : IsMetered (run_tool house switch_on false idle).1.steps
run_tool-IsMetered_example = run_tool-IsMetered house switch_on false idle (omega arith)

attempts-Resends_example :
    Resends house lamp lamp_args 0 2 [] (attempts house lamp lamp_args 2 0 idle).1.sent
attempts-Resends_example = attempts-Resends house lamp lamp_args 2 0 idle

house_is_safe : All (FallbackIsSafe specs) specs
house_is_safe = let h = load-IsSafe entries servers specs load-entries in (h.0.1, (h.1.0.1, tt))

run_tool_asks_for_itself_example : ◌≡◌ {A = String} "home.turn_on" "home.turn_on"
unfolding run_tool get find stage_allows
run_tool_asks_for_itself_example =
    run_tool_asks_for_itself house house_is_safe "home.turn_on" lamp_args unconfirmed false idle
      refl

-- 22:00 to 07:00, at 23:00
quiet_hours_arc_example :
    (in_quiet_hours 79200 25200 82800 ≡ true)
    ↔ ((82800 + day_s - 79200) % day_s < (25200 + day_s - 79200) % day_s)
quiet_hours_arc_example =
    quiet_hours_arc 79200 25200 82800 (omega arith) (omega arith) (omega arith)

abbrev night : Gate
night = record {
  engaged = false;
  quiet_start = 79200;
  quiet_end = 25200;
  now = 82800;
  clock = "23:00";
  window = λ _. none;
}
