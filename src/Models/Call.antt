-- ===== src/Models/Call.antt =====
-- `call` of model_router/router.py: the gates, the attempts and what they leave in the ledger and the
-- cooldowns. The calls of
-- `acall` overlap: a call is there two steps, its gates and its attempts.
use kyraan.Base.{
  ℕ, suc, zero, ◌+◌, String, Bool, not, ◌&&◌, ◌||◌, Option, none, some, List, [], ◌∷◌, ltb, leb,
  ◌==◌, str_eq, if◌then◌else◌,
}
use kyraan.Models.{
  Ledger, Setting, Pricing, Usage, person_spent, amount, is_guest, today_cost_usd, record_cost,
  record_tokens, cost_usd, token_guard,
}

-- What a dispatch raised: whether its text, or its text in lower case, contains a word, whether it is a
-- KeyError, and whether its type's name contains "ratelimit".
pub record Fault : Type 0 where
  pub has : String → Bool
  pub has_lower : String → Bool
  pub is_key_error : Bool
  pub named_ratelimit : Bool

pub data Reply : Type 0 where
  answered : String → Usage → Reply
  raised : Fault → Reply

-- What the two writes to the ledger after an answer come to: both succeed, that of the cost raises, or
-- that of the tokens does, with the cost on record.
pub data Write : Type 0 where
  written : Write
  cost_raises : Fault → Write
  tokens_raise : Fault → Write

-- `RoutedResponse`, by its text and cost, and the reasons of a ModelProviderError
pub data Outcome : Type 0 where
  response : String → ℕ → Outcome
  budget_exhausted : Outcome
  person_exhausted : Outcome
  too_long : Outcome
  cooling_down : Outcome
  failed : Fault → Outcome

-- A call: its texts' lengths, the tier's settings, the budgets (zero for none), the clock at the start
-- and at the failure, and what its dispatches would come to, and the writes after each.
pub record Request : Type 0 where
  pub at : Setting
  pub prompt : ℕ
  pub system : ℕ
  pub tier : String
  pub provider : String
  pub pricing : Option Pricing
  pub budget : ℕ
  pub person_cap : ℕ
  pub now : ℕ
  pub later : ℕ
  pub replies : ℕ → Reply
  pub writes : ℕ → Write

pub record Router : Type 0 where
  pub file : Ledger
  pub cooldown_until : List (String × ℕ)
  pub session_cost : ℕ
  pub dispatched : ℕ

-- `_COOLDOWN_S` and `len(_RETRY_BACKOFF_SECONDS)`
abbrev cooldown_seconds : ℕ
cooldown_seconds = 120

abbrev pub retries : ℕ
retries = 2

-- `_cooldown_until.get(provider, 0.0)`; the newest entry counts
unfoldable pub cooldown_of : String → List (String × ℕ) → ℕ
cooldown_of provider [] = 0
cooldown_of provider ((p, until) ∷ rest) =
    if str_eq p provider then until else cooldown_of provider rest

unfoldable pub cool : Request → Router → Router
cool q s = record s { cooldown_until = (q.provider, q.later + cooldown_seconds) ∷ s.cooldown_until }

unfoldable pub is_out_of_credits : Fault → Bool
is_out_of_credits f = f.has "insufficient_quota" || f.has "credit_balance_exhausted"

unfoldable pub is_permanent : Fault → Bool
is_permanent f =
    f.has "cannot process images"
    || f.has "Unknown provider kind"
    || f.has "is not set in this process"
    || f.has "401"
    || f.has_lower "invalid_api_key"
    || f.is_key_error

unfoldable pub is_rate_limit : Fault → Bool
is_rate_limit f =
    f.has_lower "429" || f.has_lower "rate limit" || f.has_lower "rate_limit" || f.named_ratelimit

-- after the loop
unfoldable pub give_up : Request → Fault → Router → Outcome × Router
unfolding cool
give_up q f s = (failed f, if is_rate_limit f then cool q s else s)

-- The bill of an answer, and the exception of a write that raised.
unfoldable pub charge : Request → Usage → Write → Router → Option Fault × Router
charge q usage written s = (
  none,
  record s {
    session_cost = s.session_cost + cost_usd q.pricing usage;
    file = record_tokens q.at q.provider usage (record_cost q.at (cost_usd q.pricing usage) s.file);
  },
)
charge q usage (cost_raises f) s =
    (some f, record s { session_cost = s.session_cost + cost_usd q.pricing usage })
charge q usage (tokens_raise f) s = (
  some f,
  record s {
    session_cost = s.session_cost + cost_usd q.pricing usage;
    file = record_cost q.at (cost_usd q.pricing usage) s.file;
  },
)

-- One attempt's end; `next` is what further attempts do, where there are any.
unfoldable pub or_give_up :
    Request → Fault → Router → Option (Router → Outcome × Router) → Outcome × Router
or_give_up q f s none = give_up q f s
or_give_up q f s (some next) = next s

-- the `except` of one attempt
unfoldable pub except :
    Request → Fault → Option (Router → Outcome × Router) → Router → Outcome × Router
unfolding cool or_give_up
except q f next s =
    if is_out_of_credits f
    then give_up q f (cool q s)
    else if is_permanent f
    then give_up q f s
    else or_give_up q f s next

-- after the bill: the response, or the exception of a write, as any other of the attempt
unfoldable pub billed :
    Request
    → String
    → Usage
    → Option (Router → Outcome × Router)
    → Option Fault × Router
    → Outcome × Router
billed q text usage next (none, s) = (response text (cost_usd q.pricing usage), s)
billed q text usage next (some f, s) = except q f next s

unfoldable pub settle :
    Request → Write → Reply → Option (Router → Outcome × Router) → Router → Outcome × Router
settle q w (answered text usage) next s = billed q text usage next (charge q usage w s)
settle q w (raised f) next s = except q f next s

abbrev sent : Router → Router
sent s = record s { dispatched = suc s.dispatched }

-- The attempts from the k-th on, with `n` more after it.
unfoldable pub attempts : Request → ℕ → ℕ → Router → Outcome × Router
attempts q zero k s = settle q (q.writes k) (q.replies k) none (sent s)
attempts q (suc n) k s = settle q (q.writes k) (q.replies k) (some (attempts q n (suc k))) (sent s)

unfoldable pub over_budget : Request → Ledger → Bool
over_budget q read = not (q.budget == 0) && leb q.budget (today_cost_usd q.at.today read)

unfoldable pub over_cap : Request → Ledger → Bool
over_cap q read =
    is_guest q.at.person
    && not (q.person_cap == 0)
    && leb q.person_cap (amount (person_spent q.at.person q.at.today) read.amounts)

unfoldable pub is_cooling : Request → Router → Bool
is_cooling q s = ltb q.now (cooldown_of q.provider s.cooldown_until)

-- The gates: the refusal, or `none` for a call that goes on to its attempts. `read` is the ledger that
-- the pure reads see.
unfoldable pub admit : Request → Ledger → Router → Option Outcome × Router
admit q read s =
    if over_budget q read
    then (some budget_exhausted, s)
    else if over_cap q read
    then (some person_exhausted, s)
    else (let (fits, file) : Bool × Ledger =
          token_guard q.at.today q.tier q.prompt q.system s.file in
        let warned : Router = record s { file = file } in
        if not fits
        then (some too_long, warned)
        else if is_cooling q warned
        then (some cooling_down, warned)
        else (none, warned))

unfoldable pub carry_on : Request → Option Outcome × Router → Outcome × Router
carry_on q (some refusal, s) = (refusal, s)
carry_on q (none, s) = attempts q retries 0 s

-- `call`, without others in between
unfoldable pub call : Request → Ledger → Router → Outcome × Router
unfolding admit carry_on
call q read s = carry_on q (admit q read s)

-- one of the calls that are past their gates ends its attempts
unfoldable pub land : ℕ → List Request → Router → List Request × Router
land i [] s = ([], s)
land zero (q ∷ qs) s = (qs, (attempts q retries 0 s).1)
land (suc i) (q ∷ qs) s = let (rest, s') = land i qs s in (q ∷ rest, s')

-- The calls of `acall`, which overlap in worker threads: a call starts, with its gates, or a call that
-- is past its gates ends, with its attempts; and the calls that are past their gates.
pub data CallEvent : Type 0 where
  starts : Request → CallEvent
  ends : ℕ → CallEvent

pub record Calls : Type 0 where
  pub router : Router
  pub flying : List Request

unfoldable pub take_off : Request → List Request → Option Outcome × Router → Calls
take_off q flying (some refusal, s) = record { router = s; flying = flying }
take_off q flying (none, s) = record { router = s; flying = q ∷ flying }

unfoldable pub acall : CallEvent → Calls → Calls
unfolding take_off
acall (starts q) t = take_off q t.flying (admit q t.router.file t.router)
acall (ends i) t =
    let (flying, router) = land i t.flying t.router in record { router = router; flying = flying }
