-- ===== src/Memory/Scan.antt =====
-- The nightly scans of the index: memory/conflicts.py for contradictions between people, and
-- memory/consolidate.py for duplicates. The model's answer is the argument `raw`; `entries` are the
-- active ones.
pub mod Pairs
pub mod Groups
pub mod Flags
use kyraan.Base.{
  ℕ, suc, String, Bool, true, false, not, ◌&&◌, ◌||◌, Option, none, some, List, [], ◌∷◌, ◌++◌, map,
  any, all, length, ltb, str_eq, str_in, if◌then◌else◌,
}
use kyraan.Base.Table.{find, is_absent}
use kyraan.Memory.{Target, Entry, entry_id, is_empty}
use kyraan.Memory.Facts.{Sync}
use kyraan.Memory.Index.{flag_disputed}
use kyraan.Memory.Queue.{Item, Review, dispute, subject_owner_for}

-- A pair that the model proposes, and one that the validator lets through.
pub record RawPair : Type 0 where
  pub a : String
  pub b : String
  pub reason : String

pub record Conflict : Type 0 where
  pub earlier : Entry
  pub later : Entry
  pub reason : String

-- `(a, b) in claimed`
unfoldable pub is_claimed : String → String → List (String × String) → Bool
is_claimed a b [] = false
is_claimed a b ((x, y) ∷ rest) = str_eq x a && str_eq y b || is_claimed a b rest

both_disputed : Entry → Entry → Bool
both_disputed x y = str_in "disputed" x.flags && str_in "disputed" y.flags

-- `sorted((ea, eb), key=created)`; `before` compares the texts
unfoldable pub in_order : (String → String → Bool) → Entry → Entry → String → Conflict
in_order before x y reason =
    if before y.created x.created
    then record { earlier = y; later = x; reason = reason }
    else record { earlier = x; later = y; reason = reason }

unfoldable pub judge :
    (String → String → Bool)
    → List (String × String)
    → RawPair
    → Option Entry
    → Option Entry
    → Option Conflict
unfolding is_claimed both_disputed
judge before claimed p none y = none
judge before claimed p (some x) none = none
judge before claimed p (some x) (some y) =
    if str_eq p.a p.b
      || is_claimed p.a p.b claimed
      || is_claimed p.b p.a claimed
      || str_eq x.author y.author
      || both_disputed x y
    then none
    else some (in_order before x y p.reason)

unfoldable pub validated_pairs :
    (String → String → Bool) → List Entry → List (String × String) → List RawPair → List Conflict
validated_pairs before entries claimed [] = []
validated_pairs before entries claimed (p ∷ raw) =
    elim (judge before claimed p (find entry_id p.a entries) (find entry_id p.b entries)) [
      | none ↦ validated_pairs before entries claimed raw
      | some c ↦ c ∷ validated_pairs before entries ((p.a, p.b) ∷ claimed) raw
    ]

-- `conflicts.scan`
unfoldable pub scan_conflicts : (String → String → Bool) → List Entry → List RawPair → List Conflict
scan_conflicts before entries raw =
    if ltb (length entries) 2 then [] else validated_pairs before entries [] raw

-- the notice of one pair; a name that is none stands for a file that could not be written
unfoldable pub file_conflict :
    (String → Option String) → Option String → Conflict → List Item → List Item
file_conflict stage none c pending = pending
file_conflict stage (some path) c pending =
    pending
    ++ record {
      path = path;
      target = c.later.target;
      reviewer = subject_owner_for stage c.later.target;
      matter = dispute c.earlier.id c.later.id;
    }
      ∷ []

unfoldable pub apply_one :
    (String → Option String) → Sync → Option String → Conflict → Review → Review
unfolding file_conflict
apply_one stage sync name c r = record r {
  memory = (flag_disputed sync c.earlier.id c.later.id r.memory).1;
  pending = file_conflict stage name c r.pending;
}

-- `conflicts.apply`: each pair with its mirroring and its notice's name; the number of notices filed
unfoldable pub apply_conflicts :
    (String → Option String) → List (Conflict × Sync × Option String) → Review → ℕ × Review
unfolding apply_one
apply_conflicts stage [] r = (0, r)
apply_conflicts stage ((c, sync, name) ∷ rest) r =
    let (filed, r') : ℕ × Review = apply_conflicts stage rest (apply_one stage sync name c r) in
    ((if is_absent name then filed else suc filed), r')

-- A group that the model proposes, and that a human is asked about.
pub record Group : Type 0 where
  pub keeps : String
  pub duplicates : List String
  pub reason : String

unfoldable pub is_valid_group : List Entry → List String → Group → Bool
unfolding is_empty
is_valid_group entries claimed g =
    not (is_absent (find entry_id g.keeps entries))
    && not (is_empty g.duplicates)
    && all (λ d. not (is_absent (find entry_id d entries)) && not (str_eq d g.keeps)) g.duplicates
    && all (λ i. not (str_in i claimed)) (g.keeps ∷ g.duplicates)

unfoldable pub validated_groups : List Entry → List String → List Group → List Group
validated_groups entries claimed [] = []
validated_groups entries claimed (g ∷ raw) = elim (is_valid_group entries claimed g) [
  | true ↦ g ∷ validated_groups entries ((g.keeps ∷ g.duplicates) ++ claimed) raw
  | false ↦ validated_groups entries claimed raw
]

-- `consolidate.scan`
unfoldable pub scan_duplicates : List Entry → List Group → List Group
scan_duplicates entries raw = if ltb (length entries) 2 then [] else validated_groups entries [] raw
