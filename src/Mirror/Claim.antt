-- ===== src/Mirror/Claim.antt =====
-- The claim in SQL against the claim of the file store.
use kyraan.Base.{
  ℕ, ◌+◌, String, Bool, false, List, [], ◌∷◌, ◌≡◌, ◌≢◌, refl, All, arith, eq_iff, none, not, ap,
  ◌||◌,
}
use kyraan.Base.Table.{find, IsUnique}
use kyraan.Reminders.{Stamp, blank, moment, malformed, Reminder}
use kyraan.Reminders.Store.{claim_for_send, lease_live, lease_stale, id_of, claim_record}
use kyraan.Mirror.{pg_claim_for_send, pg_claim, claimable, is_claimed}

-- A claim stamp that reads as a time and is not exactly one lease old.
abbrev pub Readable : ℕ → ℕ → Stamp ℕ → Type 0
Readable lease now blank = Unit
Readable lease now (moment claimed) = claimed + lease ≢ now
Readable lease now (malformed text) = ⊥

claimable_lem :
    (before : String → ℕ → Bool) (lease now : ℕ) (stamp : Stamp ℕ)
    → Readable lease now stamp
    → claimable before lease now stamp ≡ not (lease_live lease now stamp)
unfolding claimable lease_live
claimable_lem before lease now blank h = refl
claimable_lem before lease now (moment claimed) h = ground (arith, h)
claimable_lem before lease now (malformed text) h = absurd h

-- a claim that may be taken over is a crashed sender's
takeover_lem :
    (lease now : ℕ) (stamp : Stamp ℕ)
    → Readable lease now stamp
    → lease_live lease now stamp ≡ false
    → is_claimed stamp ≡ lease_stale lease now stamp
unfolding lease_live lease_stale
takeover_lem lease now blank h l = refl
takeover_lem lease now (moment claimed) h l = ground (arith, l)
takeover_lem lease now (malformed text) h l = absurd h

pg_claim_for_send-absent :
    (before : String → ℕ → Bool) (id : String) (lease now : ℕ) (rs : List Reminder)
    → find id_of id rs ≡ none
    → pg_claim_for_send before id lease now rs ≡ (false, rs)
unfolding pg_claim_for_send find
pg_claim_for_send-absent before id lease now [] h = refl
pg_claim_for_send-absent before id lease now (r ∷ rs) h =
    ground (arith, h, pg_claim_for_send-absent before id lease now rs)

pg_claim_lem :
    (lease now : ℕ) (r : Reminder)
    → Readable lease now r.claimed_at
    → lease_live lease now r.claimed_at ≡ false
    → pg_claim now r ≡ claim_record lease now r
pg_claim_lem lease now r h l =
    ap (λ stale. record r { takeover = stale || r.takeover; claimed_at = moment now })
      (takeover_lem lease now r.claimed_at h l)

-- The UPDATE of the table grants a claim exactly when the file store's loop does, and leaves the same
-- rows: the same claim time, and the same takeover mark that stays once it is set. The conditions: the
-- ids are unique, and every claim stamp is empty or a time that is not exactly one lease old.
pub claims_agree :
    (before : String → ℕ → Bool) (id : String) (lease now : ℕ) (rs : List Reminder)
    → IsUnique id_of rs
    → All (λ r. Readable lease now r.claimed_at) rs
    → pg_claim_for_send before id lease now rs ≡ claim_for_send id lease now rs
unfolding pg_claim_for_send claim_for_send
claims_agree before id lease now [] u h = refl
claims_agree before id lease now (r ∷ rs) u h = ground (
  arith,
  eq_iff r.id id,
  claimable_lem before lease now r.claimed_at h.0,
  pg_claim_lem lease now r h.0,
  pg_claim_for_send-absent before id lease now rs,
  u.0,
  claims_agree before id lease now rs u.1 h.1,
)
