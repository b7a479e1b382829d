-- ===== src/Models/Bills.antt =====
-- What the attempts of a call of router.py bill to a day.
use kyraan.Base.{
  ℕ, suc, zero, ◌+◌, ap, ◌≤◌, String, Option, none, some, ◌≡◌, refl, ◌∙◌, str_eq, arith,
  if◌then◌else◌,
}
use kyraan.Models.{Ledger, Usage, Pricing, spent, amount, record_cost, cost_usd}
use kyraan.Models.Spend.{spent-record_cost, spent-record_tokens}
use kyraan.Models.Call.{
  Fault, Reply, answered, raised, Write, written, cost_raises, tokens_raise, Outcome, Request,
  Router, give_up, charge, except, billed, settle, attempts, cool,
}

-- what the day has cost
abbrev pub spent_on : String → Router → ℕ
spent_on d s = amount (spent d) s.file.amounts

-- No answer of the request costs more than `c`.
abbrev pub CostAtMost : ℕ → Option Pricing → Reply → Type 0
CostAtMost c pricing (answered text usage) = cost_usd pricing usage ≤ c
CostAtMost c pricing (raised f) = Unit

abbrev pub CostsAtMost : ℕ → Request → Type 0
CostsAtMost c q = (i : ℕ) → CostAtMost c q.pricing (q.replies i)

file-give_up : (q : Request) (f : Fault) (s : Router) → (give_up q f s).1.file ≡ s.file
unfolding give_up cool
file-give_up q f s = ground arith

file-cool : (q : Request) (s : Router) → (cool q s).file ≡ s.file
unfolding cool
file-cool q s = refl

-- `c` for each of `n` attempts more than one
abbrev pub each : ℕ → ℕ → ℕ
each c zero = c
each c (suc n) = c + each c n

module _ (d : String) (c : ℕ) (q : Request) where
  -- what one bill can add to the day
  abbrev pub share : ℕ
  share = if str_eq q.at.today d then c else 0

  -- further attempts add at most `m`
  abbrev AddsNext : ℕ → Option (Router → Outcome × Router) → Type 0
  AddsNext m none = Unit
  AddsNext m (some next) = (s : Router) → spent_on d (next s).1 ≤ spent_on d s + m

  spent-give_up : (f : Fault) (s : Router) → spent_on d (give_up q f s).1 ≡ spent_on d s
  spent-give_up f s = ap (λ (l : Ledger). amount (spent d) l.amounts) (file-give_up q f s)

  spent-give_up-cool :
      (f : Fault) (s : Router) → spent_on d (give_up q f (cool q s)).1 ≡ spent_on d s
  spent-give_up-cool f s =
      ap (λ (l : Ledger). amount (spent d) l.amounts) (file-give_up q f (cool q s) ∙ file-cool q s)

  spent-except :
      (m : ℕ) (f : Fault) (next : Option (Router → Outcome × Router)) (s : Router)
      → AddsNext m next
      → spent_on d (except q f next s).1 ≤ spent_on d s + m
  unfolding except
  spent-except m f none s h = ground (arith, spent-give_up f s, spent-give_up-cool f s)
  spent-except m f (some next) s h = ground (arith, h s, spent-give_up f s, spent-give_up-cool f s)

  spent-charge :
      (usage : Usage) (w : Write) (s : Router)
      → cost_usd q.pricing usage ≤ c
      → spent_on d (charge q usage w s).1 ≤ spent_on d s + share
  unfolding charge
  spent-charge usage written s le = ground (
    arith,
    spent-record_tokens d q.at q.provider usage
        (record_cost q.at (cost_usd q.pricing usage) s.file),
    spent-record_cost d q.at (cost_usd q.pricing usage) s.file,
  )
  spent-charge usage (cost_raises f) s le = ground arith
  spent-charge usage (tokens_raise f) s le =
      ground (arith, spent-record_cost d q.at (cost_usd q.pricing usage) s.file)

  spent-billed :
      (m : ℕ) (text : String) (usage : Usage) (next : Option (Router → Outcome × Router))
      (bill : Option Fault × Router)
      → AddsNext m next
      → spent_on d (billed q text usage next bill).1 ≤ spent_on d bill.1 + m
  unfolding billed
  spent-billed m text usage next (none, s) h = omega arith
  spent-billed m text usage next (some f, s) h = spent-except m f next s h

  spent-settle :
      (m : ℕ) (w : Write) (reply : Reply) (next : Option (Router → Outcome × Router)) (s : Router)
      → CostAtMost c q.pricing reply
      → AddsNext m next
      → spent_on d (settle q w reply next s).1 ≤ spent_on d s + (share + m)
  unfolding settle
  spent-settle m w (answered text usage) next s cost h =
      omega
        (arith, spent-charge usage w s cost, spent-billed m text usage next (charge q usage w s) h)
  spent-settle m w (raised f) next s cost h = omega (arith, spent-except m f next s h)

  pub spent-attempts :
      (n k : ℕ) (s : Router)
      → CostsAtMost c q
      → spent_on d (attempts q n k s).1 ≤ spent_on d s + each share n
  unfolding attempts
  spent-attempts zero k s costs =
      let s' : Router = record s { dispatched = suc s.dispatched } in
      omega (arith, spent-settle 0 (q.writes k) (q.replies k) none s' (costs k) tt)
  spent-attempts (suc n) k s costs =
      let s' : Router = record s { dispatched = suc s.dispatched } in
      spent-settle (each share n) (q.writes k) (q.replies k) (some (attempts q n (suc k))) s'
        (costs k) (λ t. spent-attempts n (suc k) t costs)
