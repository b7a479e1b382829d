-- ===== src/Models/Alerts.antt =====
-- The warnings of the ledger, by day.
use kyraan.Base.{
  ℕ, ◌+◌, ◌≤◌, String, ◌&&◌, ◌||◌, List, [], ◌∷◌, ◌++◌, ◌≡◌, refl, ap, str_eq, str_in, eq_iff,
  arith, if◌then◌else◌,
}
use kyraan.Models.{
  Ledger, Setting, Usage, record_cost, record_tokens, quota_alert_due, budget_alert_due,
  token_guard,
}

-- What changes the ledger: a cost, tokens, the two alerts with what their reads see, a guarded call.
pub data Op : Type 0 where
  cost : Setting → ℕ → Op
  usage : Setting → String → Usage → Op
  quota_alert : String → List (String × ℕ) → Ledger → Op
  budget_alert : String → ℕ → ℕ → Ledger → Op
  guard : String → String → ℕ → ℕ → Op

unfoldable pub apply : Op → Ledger → Ledger
apply (cost at n) l = record_cost at n l
apply (usage at provider u) l = record_tokens at provider u l
apply (quota_alert today providers read) l = (quota_alert_due today providers read l).1
apply (budget_alert today budget threshold read) l =
    (budget_alert_due today budget threshold read l).1
apply (guard today tier prompt system) l = (token_guard today tier prompt system l).1

-- whether the operation gives the budget warning of a date
unfoldable pub warns : String → Op → Ledger → ℕ
warns d (budget_alert today budget threshold read) l =
    if str_eq today d && (budget_alert_due today budget threshold read l).0 then 1 else 0
warns d _ l = 0

abbrev pub warnings : String → List Op → Ledger → ℕ
warnings d [] l = 0
warnings d (x ∷ xs) l = warns d x l + warnings d xs (apply x l)

str_in-append :
    (d x : String) (xs : List String) → str_in d (xs ++ x ∷ []) ≡ (str_in d xs || str_eq x d)
unfolding str_in
str_in-append d x [] = ground arith
str_in-append d x (y ∷ ys) = ground (arith, str_in-append d x ys)

dates-record_cost :
    (at : Setting) (n : ℕ) (l : Ledger) → (record_cost at n l).alerted_dates ≡ l.alerted_dates
unfolding record_cost
dates-record_cost at n l = ground arith

dates-record_tokens :
    (at : Setting) (provider : String) (u : Usage) (l : Ledger)
    → (record_tokens at provider u l).alerted_dates ≡ l.alerted_dates
unfolding record_tokens
dates-record_tokens at provider u l = ground arith

dates-token_guard :
    (today tier : String) (prompt system : ℕ) (l : Ledger)
    → (token_guard today tier prompt system l).1.alerted_dates ≡ l.alerted_dates
unfolding token_guard
dates-token_guard today tier prompt system l = ground arith

dates-quota :
    (today : String) (providers : List (String × ℕ)) (read l : Ledger)
    → (quota_alert_due today providers read l).1.alerted_dates ≡ l.alerted_dates
unfolding quota_alert_due
dates-quota today [] read l = refl
dates-quota today ((p, limit) ∷ ps) read l =
    ground (arith, dates-quota today ps read l, dates-quota today ps l l)

abbrev pub warned : String → Ledger → ℕ
warned d l = if str_in d l.alerted_dates then 1 else 0

warned-same :
    (d : String) (l l' : Ledger) → l'.alerted_dates ≡ l.alerted_dates → warned d l + 0 ≤ warned d l'
warned-same d l l' e = omega (arith, ap {B = ℕ} (λ dates. if str_in d dates then 1 else 0) e)

-- a warning is given only of a new date, which then counts as warned of
apply-warns : (d : String) (x : Op) (l : Ledger) → warned d l + warns d x l ≤ warned d (apply x l)
unfolding apply warns budget_alert_due
apply-warns d (cost at n) l = warned-same d l (record_cost at n l) (dates-record_cost at n l)
apply-warns d (usage at provider u) l =
    warned-same d l (record_tokens at provider u l) (dates-record_tokens at provider u l)
apply-warns d (quota_alert today providers read) l =
    warned-same d l (quota_alert_due today providers read l).1 (dates-quota today providers read l)
apply-warns d (budget_alert today budget threshold read) l =
    ground (arith, eq_iff today d, str_in-append d today l.alerted_dates)
apply-warns d (guard today tier prompt system) l =
    warned-same d l (token_guard today tier prompt system l).1
      (dates-token_guard today tier prompt system l)

warnings-warned : (d : String) (xs : List Op) (l : Ledger) → warned d l + warnings d xs l ≤ 1
warnings-warned d [] l = ground arith
warnings-warned d (x ∷ xs) l = omega (arith, apply-warns d x l, warnings-warned d xs (apply x l))

-- Whatever costs, tokens, quota alerts and calls come between, and whatever the reads behind the alerts
-- see, the budget warning of a date is given at most once, and not at all when the ledger already
-- lists the date.
pub warnings_once :
    (d : String) (xs : List Op) (l : Ledger)
    → warnings d xs l ≤ (if str_in d l.alerted_dates then 0 else 1)
warnings_once d xs l = ground (arith, warnings-warned d xs l)
