-- ===== src/Models.antt =====
-- The model router's ledger, model_router/router.py: what was spent and which warnings were given, by
-- local date. An operation that writes reads the file under its lock; a pure read may come from the
-- database, so it is the argument `read`. Amounts are whole numbers of the unit that the source's
-- rounding keeps.
pub mod Call
pub mod Spend
pub mod Alerts
pub mod Bills
pub mod Limits
pub mod Dispatches
use kyraan.Base.{
  ℕ, suc, ◌+◌, ◌-◌, ◌*◌, ◌/◌, String, Bool, true, false, not, ◌&&◌, ◌||◌, Option, none, some, List,
  [], ◌∷◌, ◌++◌, ltb, leb, ◌==◌, str_eq, str_in, if◌then◌else◌,
}

-- The ledger's keys: a date, and the f-strings with a prefix.
pub data Key : Type 0 where
  spent : String → Key
  bucket_spent : String → String → Key
  person_spent : String → String → Key
  tokens : String → String → Key
  bucket_tokens : String → String → String → Key
  quota_alerted : String → String → Key
  token_warned : String → String → Key

-- a key's text, split at the colons that the f-string writes
abbrev pub parts : Key → List String
parts (spent d) = d ∷ []
parts (bucket_spent b d) = b ∷ d ∷ []
parts (person_spent p d) = "person" ∷ p ∷ d ∷ []
parts (tokens p d) = "tokens" ∷ p ∷ d ∷ []
parts (bucket_tokens b p d) = b ∷ "tokens" ∷ p ∷ d ∷ []
parts (quota_alerted p d) = "quota_alerted" ∷ p ∷ d ∷ []
parts (token_warned t d) = "token_warned" ∷ t ∷ d ∷ []

abbrev pub parts_eq : List String → List String → Bool
parts_eq [] [] = true
parts_eq (x ∷ xs) (y ∷ ys) = str_eq x y && parts_eq xs ys
parts_eq _ _ = false

abbrev pub key_eq : Key → Key → Bool
key_eq k j = parts_eq (parts k) (parts j)

abbrev pub Amounts : Type 0
Amounts = List (Key × ℕ)

-- A marker that is set has the amount one.
pub record Ledger : Type 0 where
  pub amounts : Amounts
  pub alerted_dates : List String

-- `ledger.get(key, 0)`
unfoldable pub amount : Key → Amounts → ℕ
amount k [] = 0
amount k ((j, n) ∷ rest) = if key_eq j k then n else amount k rest

-- `ledger[key] = n`
unfoldable pub assign : Key → ℕ → Amounts → Amounts
assign k n [] = (k, n) ∷ []
assign k n ((j, m) ∷ rest) = if key_eq j k then (j, n) ∷ rest else (j, m) ∷ assign k n rest

abbrev pub add_to : Key → ℕ → Ledger → Ledger
add_to k n l = record l { amounts = assign k (amount k l.amounts + n) l.amounts }

abbrev pub mark : Key → Ledger → Ledger
mark k l = record l { amounts = assign k 1 l.amounts }

-- The local date, the stripped KYRAAN_SPEND_BUCKET, and the viewer.
pub record Setting : Type 0 where
  pub today : String
  pub bucket : String
  pub person : String

unfoldable pub today_cost_usd : String → Ledger → ℕ
today_cost_usd today read = amount (spent today) read.amounts

-- Of a bucket named without a colon, and neither "tokens" nor "person": its key alone passes the
-- source's test.
dev_cost_of : String → Key → ℕ → ℕ
dev_cost_of today (bucket_spent b d) n = if str_eq d today then n else 0
dev_cost_of today _ n = 0

unfoldable pub dev_cost_today : String → Amounts → ℕ
unfolding dev_cost_of
dev_cost_today today [] = 0
dev_cost_today today ((k, n) ∷ rest) = dev_cost_of today k n + dev_cost_today today rest

-- `person not in ("owner", "", "none")`
abbrev pub is_guest : String → Bool
is_guest person = not (str_in person ("owner" ∷ "" ∷ "none" ∷ []))

unfoldable pub record_cost : Setting → ℕ → Ledger → Ledger
record_cost at cost ledger =
    if cost == 0
    then ledger
    else if not (str_eq at.bucket "")
    then add_to (bucket_spent at.bucket at.today) cost ledger
    else (let charged : Ledger = add_to (spent at.today) cost ledger in
        if is_guest at.person
        then add_to (person_spent at.person at.today) cost charged
        else charged)

pub record Usage : Type 0 where
  pub input_tokens : Option ℕ
  pub output_tokens : Option ℕ
  pub cached_tokens : Option ℕ

-- `n or 0`
abbrev pub or_zero : Option ℕ → ℕ
or_zero none = 0
or_zero (some n) = n

-- A tier's `pricing`; a missing price is zero, but that of cached input.
pub record Pricing : Type 0 where
  pub input_price : ℕ
  pub cached_input_price : Option ℕ
  pub output_price : ℕ

cached_price_of : Pricing → ℕ
cached_price_of p = elim p.cached_input_price [ none ↦ p.input_price | some n ↦ n ]

unfoldable pub cost_usd : Option Pricing → Usage → ℕ
unfolding cached_price_of
cost_usd none usage = 0
cost_usd (some p) usage =
    let cached : ℕ = or_zero usage.cached_tokens in
    let fresh : ℕ = or_zero usage.input_tokens - cached in
    fresh * p.input_price
    + cached * cached_price_of p
    + or_zero usage.output_tokens * p.output_price

unfoldable pub record_tokens : Setting → String → Usage → Ledger → Ledger
record_tokens at provider usage ledger =
    let total : ℕ = or_zero usage.input_tokens + or_zero usage.output_tokens in
    if total == 0
    then ledger
    else add_to
        (if not (str_eq at.bucket "")
          then bucket_tokens at.bucket provider at.today
          else tokens provider at.today)
        total ledger

unfoldable pub provider_tokens_today : String → String → Ledger → ℕ
provider_tokens_today today provider read = amount (tokens provider today) read.amounts

-- `quota_alert_due` over the providers with their daily limits: the provider and its percentage
abbrev pub below_quota : String → String → ℕ → Ledger → Bool
below_quota today provider limit read =
    limit == 0 || ltb (10 * provider_tokens_today today provider read) (8 * limit)

abbrev pub is_marked : Key → Ledger → Bool
is_marked k l = not (amount k l.amounts == 0)

unfoldable pub quota_alert_due :
    String → List (String × ℕ) → Ledger → Ledger → Option (String × ℕ) × Ledger
quota_alert_due today [] read file = (none, file)
quota_alert_due today ((provider, limit) ∷ providers) read file =
    let marker : Key = quota_alerted provider today in
    let passed_over : Bool = below_quota today provider limit read || is_marked marker read in
    let later : Option (String × ℕ) × Ledger =
      quota_alert_due today providers (if passed_over then read else file) file in
    if passed_over || is_marked marker file then later else (
      some (provider, provider_tokens_today today provider read * 100 / limit),
      mark marker file,
    )

-- `(spent / budget) * 100 < threshold`, of a budget that is not zero
unfoldable pub budget_alert_due : String → ℕ → ℕ → Ledger → Ledger → Bool × Ledger
budget_alert_due today budget threshold read file =
    if budget == 0 || ltb (100 * today_cost_usd today read) (threshold * budget)
    then (false, file)
    else if str_in today file.alerted_dates
    then (false, file)
    else (true, record file { alerted_dates = file.alerted_dates ++ today ∷ [] })

-- `_TOKEN_GUARD_WARN` and `_TOKEN_GUARD_HARD`
abbrev pub token_guard_warn : ℕ
token_guard_warn = 8000

abbrev pub token_guard_hard : ℕ
token_guard_hard = 24000

-- `_token_guard` of the texts' lengths; false where it raises
unfoldable pub token_guard : String → String → ℕ → ℕ → Ledger → Bool × Ledger
token_guard today tier prompt system file =
    let estimated : ℕ = (prompt + system) / 4 in
    if ltb token_guard_hard estimated
    then (false, file)
    else if ltb token_guard_warn estimated && not (is_marked (token_warned tier today) file)
    then (true, mark (token_warned tier today) file)
    else (true, file)
