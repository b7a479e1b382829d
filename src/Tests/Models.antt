-- ===== src/Tests/Models.antt =====
-- Runs of the model router.
use kyraan.Base.{
  ℕ, refl, true, false, none, some, List, [], ◌∷◌, ◌≤◌, arith, ◌+◌, ◌*◌, zero, suc, str_in,
}
use kyraan.Models.{
  Ledger, Setting, spent, amount, today_cost_usd, cost_usd, record_cost, token_guard,
}
use kyraan.Models.Call.{
  Fault, Write, written, tokens_raise, Reply, answered, raised, Request, Router, admit, land,
  CallEvent, starts, ends, take_off, acall, over_budget, over_cap, is_cooling, cooldown_of,
}
use kyraan.Models.Bills.{spent_on, CostsAtMost}
use kyraan.Models.Limits.{run_events, spend_capped}
use kyraan.Models.Dispatches.{Dispatches}
use kyraan.Models.Alerts.{Op, cost, budget_alert, warnings, warnings_once}

abbrev at : Setting
at = record { today = "2026-09-05"; bucket = ""; person = "owner" }

abbrev ledger : Ledger
ledger = record { amounts = (spent "2026-09-05", 90) ∷ []; alerted_dates = [] }

abbrev router : Router
router = record { file = ledger; cooldown_until = []; session_cost = 0; dispatched = 0 }

abbrev fault : Fault
fault = record {
  has = λ _. false;
  has_lower = λ _. false;
  is_key_error = false;
  named_ratelimit = true;
}

abbrev replies : ℕ → Reply
replies zero = raised fault
replies (suc n) =
    answered "hello" (record { input_tokens = some 10; output_tokens = none; cached_tokens = none })

-- the first record of tokens fails
abbrev writes : ℕ → Write
writes (suc zero) = tokens_raise fault
writes _ = written

-- the first attempt fails, the second is answered for 30, but not recorded, and so is the third
abbrev request : Request
request = record {
  at = at;
  prompt = 4000;
  system = 400;
  tier = "frontier";
  provider = "groq";
  pricing = some (record { input_price = 3; cached_input_price = none; output_price = 0 });
  budget = 100;
  person_cap = 0;
  now = 1000;
  later = 1010;
  replies = replies;
  writes = writes;
}

request-CostsAtMost : CostsAtMost 30 request
unfolding cost_usd
request-CostsAtMost zero = tt
request-CostsAtMost (suc n) = omega arith

-- two calls overlap: both pass the gates before either is billed
abbrev overlapping : List CallEvent
overlapping = starts request ∷ starts request ∷ ends 1 ∷ ends 0 ∷ []

spend_capped_example :
    spent_on "2026-09-05" (run_events overlapping (record { router = router; flying = [] })).router
    ≤ 100 + 2 * (3 * 30)
unfolding amount acall admit take_off land over_budget over_cap is_cooling today_cost_usd str_in
    cooldown_of cost_usd record_cost token_guard
spend_capped_example =
    spend_capped "2026-09-05" 100 30 2 overlapping router (omega arith)
      ((refl, request-CostsAtMost), ((refl, request-CostsAtMost), (tt, (tt, tt))))
      (omega arith, (omega arith, (omega arith, (omega arith, tt)))) (omega arith)

abbrev alerts : List Op
alerts =
    budget_alert "2026-09-05" 100 80 ledger
    ∷ cost at 5
    ∷ budget_alert "2026-09-05" 100 80 ledger
    ∷ []

warnings_once_example : warnings "2026-09-05" alerts ledger ≤ 1
unfolding str_in
warnings_once_example = warnings_once "2026-09-05" alerts ledger
