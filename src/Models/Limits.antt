-- ===== src/Models/Limits.antt =====
-- What calls of router.py that overlap can do to the ledger.
use kyraan.Base.{
  ℕ, suc, zero, length, ◌+◌, ◌*◌, ◌≤◌, ◌<◌, String, true, false, Option, none, some, List, [], ◌∷◌,
  ◌≡◌, refl, str_eq, arith, Bool-cases, inl, inr, All, eq_iff,
}
use kyraan.Models.{Ledger, spent, amount, today_cost_usd}
use kyraan.Models.Spend.{spent-token_guard}
use kyraan.Models.Call.{
  Outcome, Request, Router, over_budget, retries, admit, land, CallEvent, starts, ends, Calls,
  take_off, acall,
}
use kyraan.Models.Bills.{spent_on, CostsAtMost, each, share, spent-attempts}

-- below the budget on the request's own day
in_budget :
    (d : String) (q : Request) (file : Ledger)
    → 0 < q.budget
    → over_budget q file ≡ false
    → str_eq q.at.today d ≡ true
    → amount (spent d) file.amounts < q.budget
unfolding over_budget today_cost_usd
in_budget d q file b h e = ground (arith, h, eq_iff q.at.today d)

spent-admit :
    (d : String) (q : Request) (read : Ledger) (s : Router)
    → spent_on d (admit q read s).1 ≡ spent_on d s
unfolding admit
spent-admit d q read s =
    ground (arith, spent-token_guard d q.at.today q.tier q.prompt q.system s.file)

under-admit :
    (q : Request) (read : Ledger) (s : Router)
    → (admit q read s).0 ≡ none
    → over_budget q read ≡ false
unfolding admit
under-admit q read s h = ground (arith, h)

abbrev pub run_events : List CallEvent → Calls → Calls
run_events [] t = t
run_events (e ∷ es) t = run_events es (acall e t)

-- The call has the budget `b`, and no answer to it costs more than `c`.
abbrev pub IsPriced : ℕ → ℕ → CallEvent → Type 0
IsPriced b c (starts q) = (q.budget ≡ b) × CostsAtMost c q
IsPriced b c (ends i) = Unit

-- After each step at most `n` calls are past their gates.
abbrev pub IsNarrow : ℕ → List CallEvent → Calls → Type 0
IsNarrow n [] t = Unit
IsNarrow n (e ∷ es) t = (length (acall e t).flying ≤ n) × IsNarrow n es (acall e t)

mul-le : (m n k : ℕ) → m ≤ n → m * k ≤ n * k
mul-le m n k h = grind arith

module _ (d : String) (b c n : ℕ) (pos : 0 < b) where
  -- what the calls that are past their gates can still add to the day
  abbrev still_due : List Request → ℕ
  still_due [] = 0
  still_due (q ∷ qs) = each (share d c q) 2 + still_due qs

  still_due-le : (qs : List Request) → still_due qs ≤ length qs * (3 * c)
  still_due-le [] = omega arith
  still_due-le (q ∷ qs) = ground (arith, still_due-le qs)

  -- All that may still be billed fits below the bound.
  abbrev Fits : Calls → Type 0
  Fits t =
      All (CostsAtMost c) t.flying × (spent_on d t.router + still_due t.flying ≤ b + n * (3 * c))

  land-Fits :
      (i : ℕ) (qs : List Request) (s : Router)
      → All (CostsAtMost c) qs
      → All (CostsAtMost c) (land i qs s).0
        × (spent_on d (land i qs s).1 + still_due (land i qs s).0 ≤ spent_on d s + still_due qs)
  unfolding land
  land-Fits i [] s h = (tt, omega arith)
  land-Fits zero (q ∷ qs) s (cost, rest) =
      (rest, omega (arith, spent-attempts d c q retries 0 s cost))
  land-Fits (suc i) (q ∷ qs) s (cost, rest) =
      let h = land-Fits i qs s rest in ((cost, h.0), omega (arith, h.1))

  -- a call that is let in was below the budget, or is of another day
  still_due-start :
      (q : Request) (qs : List Request) (s : Router)
      → q.budget ≡ b
      → over_budget q s.file ≡ false
      → length (q ∷ qs) ≤ n
      → spent_on d s + still_due qs ≤ b + n * (3 * c)
      → spent_on d s + still_due (q ∷ qs) ≤ b + n * (3 * c)
  still_due-start q qs s same under few low = elim (Bool-cases (str_eq q.at.today d)) [
    | inr other ↦ ground (arith, other, low)
    | inl today ↦
        let below : spent_on d s < q.budget = in_budget d q s.file (rw same pos) under today in
        omega (arith, below, same, still_due-le (q ∷ qs), mul-le (length (q ∷ qs)) n (3 * c) few)
  ]

  take_off-Fits :
      (q : Request) (qs : List Request) (s : Router) (admitted : Option Outcome × Router)
      → spent_on d admitted.1 ≡ spent_on d s
      → (admitted.0 ≡ none → over_budget q s.file ≡ false)
      → q.budget ≡ b
      → CostsAtMost c q
      → length (take_off q qs admitted).flying ≤ n
      → All (CostsAtMost c) qs
      → spent_on d s + still_due qs ≤ b + n * (3 * c)
      → Fits (take_off q qs admitted)
  unfolding take_off
  take_off-Fits q qs s (some refusal, s') e under same cost few costs low =
      (costs, omega (arith, e, low))
  take_off-Fits q qs s (none, s') e under same cost few costs low =
      ((cost, costs), omega (arith, e, still_due-start q qs s same (under refl) few low))

  acall-Fits :
      (e : CallEvent) (t : Calls)
      → IsPriced b c e
      → length (acall e t).flying ≤ n
      → Fits t
      → Fits (acall e t)
  unfolding acall
  acall-Fits (starts q) t (same, cost) few (costs, low) =
      take_off-Fits q t.flying t.router (admit q t.router.file t.router)
        (spent-admit d q t.router.file t.router) (under-admit q t.router.file t.router) same cost
        few costs low
  acall-Fits (ends i) t priced few (costs, low) =
      let h = land-Fits i t.flying t.router costs in (h.0, omega (arith, h.1, low))

  run-Fits :
      (es : List CallEvent) (t : Calls)
      → All (IsPriced b c) es
      → IsNarrow n es t
      → Fits t
      → Fits (run_events es t)
  run-Fits [] t priced narrow h = h
  run-Fits (e ∷ es) t (p, priced) (few, narrow) h =
      run-Fits es (acall e t) priced narrow (acall-Fits e t p few h)

-- However many calls are made, by whomever and in whatever bucket, and however they overlap, the spending
-- that the ledger has for a day never exceeds the budget by more than three times the cost of one answer
-- for each of the calls that may be past their gates at the same time, also when writes to the ledger
-- raise. The conditions: every call has the budget `b`, which is not zero; no answer costs more than `c`;
-- reads see the file; at most `n` calls are past their gates after each step, and none is at the start,
-- when the spending is within the bound. The gates of a call are one step, and so are its attempts.
pub spend_capped :
    (d : String) (b c n : ℕ) (es : List CallEvent) (s : Router)
    → 0 < b
    → All (IsPriced b c) es
    → IsNarrow n es (record { router = s; flying = [] })
    → spent_on d s ≤ b + n * (3 * c)
    → spent_on d (run_events es (record { router = s; flying = [] })).router ≤ b + n * (3 * c)
spend_capped d b c n es s pos priced narrow low =
    let h =
      run-Fits d b c n pos es (record { router = s; flying = [] }) priced narrow
        (tt, omega (arith, low)) in
    omega (arith, h.1)
