-- ===== src/Memory/Facts.antt =====
-- The table of facts, store/facts.py: a copy of the index that `mirror_entries` keeps, with its
-- breaker and the mark of sync_state.py. A row's key is a hash of the entry's id, here the id itself.
pub mod Held
pub mod Rows
pub mod Tracks
mod Settle
pub mod Saves
use kyraan.Base.{
  ℕ, ◌+◌, String, Bool, true, false, not, ◌||◌, Option, none, some, List, [], ◌∷◌, ltb, str_eq,
  str_in, if◌then◌else◌,
}
use kyraan.Base.Table.{find, update, put, is_absent}
use kyraan.Mirror.{Marks, is_stale, mark_stale, clear_stale}
use kyraan.Memory.{Target, Entry, owner, is_empty}

-- A row of `fact`; its `owner` and `exposure` are constants and its source text is not read back.
pub record Fact : Type 0 where
  pub id : String
  pub subject : String
  pub subject_reviewed : Bool
  pub content : String
  pub kind : String
  pub flags : List String
  pub era : String
  pub sphere : String
  pub visibility : String
  pub active : Bool
  pub created : String
  pub importance : String
  pub term : String
  pub target : Target
  pub embedding : Option String
  pub superseded_by : Option String

abbrev pub fact_id : Fact → String
fact_id f = f.id

-- The index file, the table of facts, the ids of the table of persons, the marks and the breaker.
pub record Memory : Type 0 where
  pub entries : List Entry
  pub facts : List Fact
  pub persons : List String
  pub marks : Marks
  pub breaker_until : ℕ

-- How a connection ends: both transactions land, none does, or only the full resync does.
pub data Outcome : Type 0 where
  committed : Outcome
  failed : String → Outcome
  failed_after : String → Outcome

-- One mirroring: the switch, the monotonic clock at its start and at its failure, the connection,
-- the embedder's answers, and whether the disk takes the marks.
pub record Sync : Type 0 where
  pub enabled : Bool
  pub now : ℕ
  pub later : ℕ
  pub outcome : Outcome
  pub embed : String → Option String
  pub written : Bool

abbrev pub facts_store : String
facts_store = "facts"

-- `_BREAKER_S`
abbrev pub breaker_seconds : ℕ
breaker_seconds = 60

-- the subject of an entry, and whether it is settled
unfoldable pub subject_for : List String → Target → String × Bool
subject_for persons t =
    if str_eq t.category "people"
    then if str_eq t.name owner || str_in t.name persons
      then (if str_eq t.name owner then owner else t.name, true)
      else (owner, false)
    else (owner, true)

-- the row of an entry that the table does not have
unfoldable pub new_fact : List String → (String → Option String) → Entry → Fact
unfolding subject_for
new_fact persons embed e = record {
  id = e.id;
  subject = (subject_for persons e.target).0;
  subject_reviewed = (subject_for persons e.target).1;
  content = e.content;
  kind = e.kind;
  flags = e.flags;
  era = e.era;
  sphere = e.sphere;
  visibility = owner;
  active = e.active;
  created = e.created;
  importance = e.importance;
  term = e.term;
  target = e.target;
  embedding = embed e.content;
  superseded_by = none;
}

-- `COALESCE(new, old)`
unfoldable pub coalesce {ℓ} : {A : Type ℓ} → Option A → Option A → Option A
coalesce none old = old
coalesce (some x) old = some x

-- `ON CONFLICT (id) DO UPDATE`: `new` is the excluded row
unfoldable pub merge_fact : Fact → Fact → Fact
unfolding coalesce
merge_fact new old = record old {
  content = new.content;
  kind = new.kind;
  flags = new.flags;
  era = new.era;
  sphere = new.sphere;
  active = new.active;
  importance = new.importance;
  term = new.term;
  target = new.target;
  embedding = coalesce new.embedding old.embedding;
  subject = if old.subject_reviewed then old.subject else new.subject;
  subject_reviewed = old.subject_reviewed || new.subject_reviewed;
}

-- the row that an upsert leaves, given the row that stood there
unfoldable pub merged : Fact → Option Fact → Fact
unfolding merge_fact
merged new none = new
merged new (some old) = merge_fact new old

unfoldable pub upsert : List String → (String → Option String) → Entry → List Fact → List Fact
unfolding merged new_fact
upsert persons embed e facts =
    put fact_id (merged (new_fact persons embed e) (find fact_id e.id facts)) facts

unfoldable pub upsert_all :
    List String → (String → Option String) → List Entry → List Fact → List Fact
upsert_all persons embed [] facts = facts
upsert_all persons embed (e ∷ es) facts = upsert_all persons embed es (upsert persons embed e facts)

-- `(SELECT id FROM fact WHERE legacy_id = ...)`
unfoldable pub link_to : Option String → List Fact → Option String
link_to none facts = none
link_to (some k) facts = if is_absent (find fact_id k facts) then none else some k

unfoldable pub link_all : List Entry → List Fact → List Fact
unfolding link_to
link_all [] facts = facts
link_all (e ∷ es) facts =
    link_all es
      (update fact_id e.id (λ f. record f { superseded_by = link_to e.superseded_by facts }) facts)

-- The owner has a row before the persons are read.
unfoldable pub seed_owner : List String → List String
seed_owner persons = if str_in owner persons then persons else owner ∷ persons

unfoldable pub sync_entries : (String → Option String) → List Entry → Memory → Memory
unfolding upsert_all link_all seed_owner
sync_entries embed es s = record s {
  facts = link_all es (upsert_all (seed_owner s.persons) embed es s.facts);
  persons = seed_owner s.persons;
}

-- A stale store is synced in full and its mark cleared before the increment.
unfoldable pub resync : Sync → List Entry → Memory → Memory
resync sync all_entries s =
    if is_stale facts_store s.marks
    then record (sync_entries sync.embed all_entries s) {
      marks = clear_stale facts_store sync.written s.marks;
    }
    else s

unfoldable pub defer_sync : Sync → String → Memory → Memory
defer_sync sync reason s = record s {
  breaker_until = sync.later + breaker_seconds;
  marks = mark_stale facts_store reason sync.written s.marks;
}

-- the branches of the `try` of `mirror_entries`
unfoldable pub settle_sync : Outcome → Sync → List Entry → Memory → Bool × Memory
unfolding resync defer_sync
settle_sync committed sync changed s =
    (true, sync_entries sync.embed changed (resync sync s.entries s))
settle_sync (failed reason) sync changed s = (false, defer_sync sync reason s)
settle_sync (failed_after reason) sync changed s =
    (false, defer_sync sync reason (resync sync s.entries s))

-- Every caller hands the entries that it has just saved as `all_entries`.
unfoldable pub mirror_entries : Sync → List Entry → Memory → Bool × Memory
mirror_entries sync changed s =
    if not sync.enabled || is_empty changed
    then (false, s)
    else if ltb sync.now s.breaker_until
    then (false, record s { marks = mark_stale facts_store "breaker open" sync.written s.marks })
    else settle_sync sync.outcome sync changed s

-- `_save` and `_mirror`, in this order
unfoldable pub save_and_mirror : Sync → List Entry → List Entry → Memory → Memory
save_and_mirror sync entries changed s =
    (mirror_entries sync changed (record s { entries = entries })).1
