-- ===== src/Tests/Rules.antt =====
-- Runs of event_rules.py on a rule that watches the temperature of a bedroom.
use kyraan.Base.{String, Option, ◌≡◌, refl, true, false, none, some, [], ◌∷◌, str_eq}
use kyraan.Base.Table.{find, update}
use kyraan.Kernel.Context.{text, Value}
use kyraan.Reminders.{blank}
use kyraan.EventRules.{
  above, Rule, House, Visit, observed, delivered, check, tick, condition_met, in_cooldown,
  list_active, mark_fired, mark_met,
}
use kyraan.EventRules.Create.{Texts, Wish}
use kyraan.EventRules.Edges.{Outcome, check_fires_at_edges}

abbrev bedroom : Rule
bedroom = record {
  id = "bed";
  chat_id = 7;
  description = "bedroom is warm";
  entity = "sensor.bedroom";
  op = above 27;
  for_minutes = 0;
  cooldown_minutes = 120;
  last_fired = blank;
  active = true;
  last_met = false;
  action = none;
}

abbrev house : House
house = record { rules = bedroom ∷ []; alerts = []; actions = [] }

abbrev warm : Rule → Visit
warm _ = record {
  state = observed (record { state = "28"; number = some 28; last_changed = blank });
  acts = true;
  allowed = true;
  sent = delivered;
}

-- it tells once, and not again while it stays warm
second_tick_is_quiet : (tick str_eq warm 9000 false (tick str_eq warm 1000 false house).0).1 ≡ 0
unfolding tick check condition_met in_cooldown list_active mark_fired mark_met update
second_tick_is_quiet = refl

check_fires_at_edges_example :
    Outcome str_eq (warm bedroom) 1000 bedroom house (check str_eq warm 1000 bedroom house)
unfolding find
check_fires_at_edges_example = check_fires_at_edges str_eq warm 1000 bedroom house refl

abbrev shown_text : Value → Option String
shown_text (text s) = some s
shown_text _ = none

abbrev py : Texts
py = record { shown = shown_text; chars = λ _. 11; strip = λ s. s }

-- the fan is switched on while the bedroom is warm
abbrev fan_wish : Wish
fan_wish = record {
  chat_id = 7;
  description = "fan on warm";
  entity = "sensor.bedroom";
  op = above 27;
  for_minutes = 0;
  cooldown_minutes = 0;
  action = some ("home.turn_on", ("entity", text "switch.fan") ∷ []);
}

abbrev fan : Rule
fan = record {
  id = "fan";
  chat_id = 7;
  description = "fan on warm";
  entity = "sensor.bedroom";
  op = above 27;
  for_minutes = 0;
  cooldown_minutes = 15;
  last_fired = blank;
  active = true;
  last_met = false;
  action = some ("home.turn_on", ("entity", text "switch.fan") ∷ []);
}
