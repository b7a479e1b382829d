-- ===== src/Memory/Queue.antt =====
-- The review queue: memory/store.py's proposals and dispute notices, from the statement to the index,
-- and what engine.py does to the queue when a fact is forgotten. The Markdown copy of a promoted fact
-- is not kept here. A file of the queue is an item; its name is drawn with a uuid.
pub mod Decide
pub mod Settled
pub mod Resolve
pub mod Owners
use kyraan.Base.{
  ℕ, ◌+◌, ◌-◌, ◌/◌, String, Bool, true, false, not, ◌&&◌, ◌||◌, Option, none, some, List, [], ◌∷◌,
  ◌++◌, map, keep, any, length, ltb, leb, str_eq, str_in, sort_by, if◌then◌else◌,
}
use kyraan.Base.Table.{find, remove}
use kyraan.Kernel.Context.{Context}
use kyraan.Kernel.Viewer.{effective_reviewer}
use kyraan.Reviews.{Fingerprints, Stats, record_decision, next_proposal_holds, on_forgotten}
use kyraan.Memory.{Target, Entry, entry_id, Lexicon, owner, is_empty, words, is_subset, shared, max}
use kyraan.Memory.Facts.{Memory, Sync}
use kyraan.Memory.Index.{NewFact, add_fact, forget, consolidate, clear_flag}

-- `meta`, the extraction's classification
pub record Meta : Type 0 where
  pub term : String
  pub importance : String
  pub flags : List String
  pub supersedes : Option String
  pub era : String
  pub sphere : String

-- What a file of the queue is about: a fact, its stripped body, with its objection window and its
-- classification where it has them, or two facts in dispute, the old one first.
pub data Matter : Type 0 where
  fact : String → Option ℕ → Option Meta → Matter
  dispute : String → String → Matter

-- A file without a `reviewer` line is the owner's.
pub record Item : Type 0 where
  pub path : String
  pub target : Target
  pub reviewer : String
  pub matter : Matter

abbrev pub path_of : Item → String
path_of i = i.path

-- The memory, its queue and the trust counters. The queue is a folder: `pending` has its files in no
-- particular order.
pub record Review : Type 0 where
  pub memory : Memory
  pub pending : List Item
  pub stats : Stats

-- a proposal of somebody else than the owner always holds; only the owner's counts towards the holds
unfoldable pub window : Fingerprints → ℕ → String → Stats → Option ℕ × Stats
window current deadline reviewer stats =
    if str_eq reviewer owner
    then (
      (if (next_proposal_holds current stats).0 then none else some deadline),
      (next_proposal_holds current stats).1,
    )
    else (none, stats)

-- the file that a proposal becomes; `none` is the ValueError of a path that the pattern refuses, or of a
-- viewer who is not identified
unfoldable pub propose_as :
    Fingerprints
    → String
    → Option Target
    → Option String
    → String
    → Option Meta
    → ℕ
    → Review
    → Option Review
unfolding window
propose_as current path none person content meta deadline r = none
propose_as current path (some target) none content meta deadline r = none
propose_as current path (some target) (some reviewer) content meta deadline r =
    let (until, stats) : Option ℕ × Stats = window current deadline reviewer r.stats in
    some (record r {
      pending =
          r.pending
          ++ record {
            path = path;
            target = target;
            reviewer = reviewer;
            matter = fact content until meta;
          }
            ∷ [];
      stats = stats;
    })

unfoldable pub propose_fact :
    Fingerprints
    → Context
    → String
    → Option Target
    → String
    → Option Meta
    → ℕ
    → Review
    → Option Review
unfolding propose_as
propose_fact current c path target = propose_as current path target (effective_reviewer c)

-- whose queue owns a dispute; `stage` is the person's row, none where there is none or the query raised
unfoldable pub subject_owner_for : (String → Option String) → Target → String
subject_owner_for stage t =
    if not (str_eq t.category "people") || str_eq t.name "" || str_eq t.name owner
    then owner
    else elim (stage t.name) [
      | none ↦ owner
      | some s ↦ if str_eq s "read_mostly" || str_eq s "full" then t.name else owner
    ]

-- a dispute notice for each old entry; `names` are the files' names, and a notice without one failed
unfoldable pub file_disputes :
    (String → Option String) → List String → String → Target → List Entry → List Item → List Item
unfolding subject_owner_for
file_disputes stage [] new_id target olds pending = pending
file_disputes stage (p ∷ names) new_id target [] pending = pending
file_disputes stage (p ∷ names) new_id target (old ∷ olds) pending =
    file_disputes stage names new_id target olds (
      pending
      ++ record {
        path = p;
        target = target;
        reviewer = subject_owner_for stage target;
        matter = dispute old.id new_id;
      }
        ∷ [])

kind_of : String → String
kind_of category =
    if str_eq category "people"
    then "relationship"
    else if str_eq category "routines"
    then "routine"
    else if str_eq category "work"
    then "work"
    else if str_eq category "preferences"
    then "preference"
    else "other"

-- a proposal without a classification is long-term and normal
meta_or_default : Option Meta → Meta
meta_or_default (some m) = m
meta_or_default none = record {
  term = "long";
  importance = "normal";
  flags = [];
  supersedes = none;
  era = "current";
  sphere = "personal";
}

unfoldable pub promoted_fact : Target → String → String → Option Meta → NewFact
unfolding kind_of meta_or_default
promoted_fact target content source meta =
    let m : Meta = meta_or_default meta in
    record {
      content = content;
      target = target;
      source = source;
      kind = kind_of target.category;
      term = m.term;
      importance = m.importance;
      flags = m.flags;
      supersedes = m.supersedes;
      era = m.era;
      sphere = m.sphere;
    }

-- What a promotion draws: the id, the time, the start of the file's text, the persons' stages and the
-- names of the notices.
pub record Draw : Type 0 where
  pub id : String
  pub created : String
  pub source : String
  pub stage : String → Option String
  pub names : List String

-- `promote`; `none` is the ValueError of a dispute notice
unfoldable pub promote_matter :
    Lexicon → Sync → Context → Draw → Bool → Item → Matter → Review → Option Review
unfolding promoted_fact file_disputes
promote_matter lex sync c d human i (dispute a b) r = none
promote_matter lex sync c d human i (fact content until meta) r =
    let (id, disputes, memory) : String × List Entry × Memory =
      add_fact lex sync c d.id d.created (promoted_fact i.target content d.source meta) r.memory in
    some (record {
      memory = memory;
      pending =
          remove path_of i.path (file_disputes d.stage d.names id i.target disputes r.pending);
      stats = if human then record_decision true r.stats else r.stats;
    })

unfoldable pub promote : Lexicon → Sync → Context → Draw → Bool → Item → Review → Option Review
unfolding promote_matter
promote lex sync c d human i r = promote_matter lex sync c d human i i.matter r

abbrev pub is_fact : Matter → Bool
is_fact (fact content until meta) = true
is_fact (dispute a b) = false

unfoldable pub reject : Item → Review → Review
reject i r = record r {
  pending = remove path_of i.path r.pending;
  stats = if is_fact i.matter then record_decision false r.stats else r.stats;
}

-- The lines of a body that start with a dash, which `dashed` finds; a notice has none.
abbrev pub facts_of : (String → List String) → Matter → List String
facts_of dashed (fact content until meta) = dashed content
facts_of dashed (dispute a b) = []

abbrev pub facts_in : (String → List String) → String → List Item → List String
facts_in dashed reviewer [] = []
facts_in dashed reviewer (i ∷ is) =
    (if str_eq i.reviewer reviewer then facts_of dashed i.matter else [])
    ++ facts_in dashed reviewer is

-- `load_pending_facts`, before the cut to `max_chars`: the lines for a viewer's prompt. The files come
-- sorted by name; `before` is the order of names.
unfoldable pub pending_facts :
    (String → String → Bool) → (String → List String) → String → List Item → List String
pending_facts before dashed reviewer is =
    facts_in dashed reviewer (sort_by (λ i j. before i.path j.path) is)
