-- ===== src/Models/Dispatches.antt =====
-- How often a call of router.py reaches its provider.
use kyraan.Base.{ℕ, suc, ◌+◌, ◌/◌, ◌≤◌, Bool, true, false, ◌||◌, Option, none, some, ◌≡◌, ltb}
use kyraan.Models.{Ledger}
use kyraan.Models.Call.{Outcome, Request, Router, over_budget, over_cap, is_cooling}

-- between one dispatch and `n` more than one
abbrev Sends : ℕ → Router → Router → Type 0
Sends n s s' = (suc s.dispatched ≤ s'.dispatched) × (s'.dispatched ≤ s.dispatched + suc n)

-- further attempts dispatch at most `n` times
abbrev SendsNext : ℕ → Option (Router → Outcome × Router) → Type 0
SendsNext n none = Unit
SendsNext n (some next) =
    (s : Router)
    → (s.dispatched ≤ (next s).1.dispatched) × ((next s).1.dispatched ≤ s.dispatched + n)

-- the four gates, of a call whose reads see `read`
abbrev pub is_refused : Request → Ledger → Router → Bool
is_refused q read s =
    over_budget q read || over_cap q read || ltb 24000 ((q.prompt + q.system) / 4) || is_cooling q s

-- one to three dispatches more, or none
abbrev pub Dispatches : Bool → Router → Router → Type 0
Dispatches true s s' = s'.dispatched ≡ s.dispatched
Dispatches false s s' = (suc s.dispatched ≤ s'.dispatched) × (s'.dispatched ≤ s.dispatched + 3)
