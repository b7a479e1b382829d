-- ===== src/Tests/Queue.antt =====
-- Runs of the review queue and of the nightly scans.
use kyraan.Base.{
  Bool, ◌&&◌, ◌+◌, str_eq, String, ◌≡◌, ◌≢◌, refl, true, false, none, some, List, [], ◌∷◌, All,
  arith, Option, eq_iff,
}
use kyraan.Base.Table.{find}
use kyraan.Reviews.{no_stats}
use kyraan.Tests.House.{house}
use kyraan.Tests.Facts.{whole, reaching, cut_off, nothing_known, peanuts, ruma}
use kyraan.Memory.{Entry, entry_id}
use kyraan.Memory.Facts.{Sync, Memory}
use kyraan.Memory.Queue.{Item, Review, dispute, pending_facts}
use kyraan.Memory.Queue.Decide.{resolve_dispute}
use kyraan.Memory.Queue.Resolve.{InDispute, IsResolved, resolve_dispute-IsResolved}
use kyraan.Memory.Queue.Owners.{Proposing, propose_all, stated_by, count, pending_facts_own}
use kyraan.Memory.Scan.{Conflict, RawPair, scan_conflicts, apply_conflicts}
use kyraan.Memory.Scan.Pairs.{IsGenuine, AllDiffer, scan_conflicts-IsGenuine}
use kyraan.Memory.Scan.Flags.{IsFlagged, is_named, apply_conflicts_flags}

abbrev denied : Entry
denied = record peanuts { id = "b1"; content = "no allergy"; author = "ruma"; created = "t2" }

abbrev contradictory : Memory
contradictory = record nothing_known { entries = peanuts ∷ denied ∷ [] }

abbrev notice : Item
notice = record {
  path = "n1";
  target = record { category = "people"; name = "owner" };
  reviewer = "owner";
  matter = dispute "a1" "b1";
}

abbrev contested : Review
contested = record { memory = contradictory; pending = notice ∷ []; stats = no_stats }

ids_differ : ◌≢◌ {A = String} "a1" "b1"
ids_differ = ground (arith, eq_iff "a1" "b1")

contested-InDispute : InDispute peanuts denied notice contested
unfolding find
contested-InDispute = record {
  notice = refl;
  found_old = refl;
  found_new = refl;
  live_old = refl;
  live_new = refl;
  distinct = ids_differ;
}

resolve_dispute-IsResolved_example :
    (r' : Review) × (resolve_dispute whole (λ t. t) reaching cut_off true notice contested
      ≡ some r')
    × IsResolved peanuts denied notice true r'
resolve_dispute-IsResolved_example =
    resolve_dispute-IsResolved peanuts denied notice contested contested-InDispute reaching cut_off
      whole (λ t. t) true

abbrev stated : Proposing
stated = record {
  current = record { tiers = "groq:llama"; prompt = "5ba9" };
  context = ruma;
  path = "p1";
  target = some (record { category = "people"; name = "ruma" });
  content = "- likes tea";
  meta = none;
  deadline = 900;
}

-- the same words, from nobody who is identified
abbrev overheard : Proposing
overheard = record stated { context = record house { person = ""; stage = "none" } }

-- the names of this queue in their order, and contents of one line with a dash
abbrev by_name : String → String → Bool
by_name p q = str_eq p "n1" && str_eq q "p1"

abbrev whole_line : String → List String
whole_line content = content ∷ []

pending_facts_own_example :
    count "- likes tea" (
      pending_facts by_name whole_line "ruma"
        (propose_all (stated ∷ overheard ∷ []) contested).pending)
    ≡ count "- likes tea" (pending_facts by_name whole_line "ruma" contested.pending)
      + count "- likes tea" (stated_by whole_line "ruma" (stated ∷ overheard ∷ []))
pending_facts_own_example =
    pending_facts_own by_name whole_line "ruma" "- likes tea" (stated ∷ overheard ∷ []) contested

abbrev answer : List RawPair
answer =
    record { a = "b1"; b = "a1"; reason = "both" }
    ∷ record { a = "a1"; b = "b1"; reason = "again" }
    ∷ record { a = "a1"; b = "zz"; reason = "made up" }
    ∷ []

scan_conflicts-IsGenuine_example :
    All
      (IsGenuine (λ _ _. false) (peanuts ∷ denied ∷ []))
      (scan_conflicts (λ _ _. false) (peanuts ∷ denied ∷ []) answer)
    × AllDiffer (scan_conflicts (λ _ _. false) (peanuts ∷ denied ∷ []) answer)
scan_conflicts-IsGenuine_example =
    scan_conflicts-IsGenuine (λ _ _. false) (λ s t h. absurd (cc h)) (peanuts ∷ denied ∷ []) answer

abbrev conflict : Conflict
conflict = record { earlier = peanuts; later = denied; reason = "both" }

abbrev found_conflicts : List (Conflict × Sync × Option String)
found_conflicts = (conflict, reaching, some "n2") ∷ (conflict, cut_off, none) ∷ []

apply_conflicts_flags_example :
    (e' : Entry) × (find entry_id "a1"
        (apply_conflicts (λ _. none) found_conflicts contested).1.memory.entries
      ≡ some e')
    × IsFlagged (is_named found_conflicts peanuts) peanuts e'
unfolding find
apply_conflicts_flags_example =
    apply_conflicts_flags (λ _. none) found_conflicts contested "a1" peanuts refl
