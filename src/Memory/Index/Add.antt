-- ===== src/Memory/Index/Add.antt =====
-- Adding a fact to the index, with supersession and disputes: `add_fact` of memory/engine.py.
use kyraan.Base.{
  String, Bool, true, false, not, ◌&&◌, ◌||◌, Option, none, some, List, [], ◌∷◌, ◌++◌, map, keep,
  any, length, leb, str_eq, str_in, if◌then◌else◌,
}
use kyraan.Kernel.Context.{Context}
use kyraan.Kernel.Viewer.{effective_reviewer}
use kyraan.Memory.{
  Target, Entry, Lexicon, same_target, is_empty, words, is_subset, sort_flags, with_disputed,
}
use kyraan.Memory.Facts.{Memory, Sync, save_and_mirror}

-- The arguments of `add_fact`.
pub record NewFact : Type 0 where
  pub content : String
  pub target : Target
  pub source : String
  pub kind : String
  pub term : String
  pub importance : String
  pub flags : List String
  pub supersedes : Option String
  pub era : String
  pub sphere : String

-- `x if x in valid else default`
unfoldable pub or_default : String → List String → String → String
or_default x valid default = if str_in x valid then x else default

abbrev valid_kinds : List String
valid_kinds =
    "identity" ∷ "relationship" ∷ "preference" ∷ "routine" ∷ "work" ∷ "situational" ∷ "other" ∷ []

-- `kernel.effective_reviewer() or "unknown"`
unfoldable pub author_of : Context → String
author_of c = elim (effective_reviewer c) [
  | none ↦ "unknown"
  | some p ↦ if str_eq p "" then "unknown" else p
]

-- the active entry that says the same in the same file
unfoldable pub find_same : String → Target → List Entry → Option Entry
find_same clean target [] = none
find_same clean target (e ∷ es) =
    if e.active && same_target e.target target && str_eq e.content clean
    then some e
    else find_same clean target es

-- What `supersedes` means for an entry.
pub data Fate : Type 0 where
  untouched superseded disputed : Fate

-- the words of the entry lie within the old statement's, or those of a longer statement in the entry's
unfoldable pub is_restated : List String → List String → Bool
is_restated entry_words old_words =
    not (is_empty entry_words)
    && (is_subset entry_words old_words
        || (leb 3 (length old_words) && is_subset old_words entry_words))

unfoldable pub fate : Lexicon → String → Option String → Entry → Fate
unfolding is_restated
fate lex author none e = untouched
fate lex author (some old) e =
    if not (str_eq old "") && e.active && is_restated (words lex e.content) (words lex old)
    then if str_eq e.author author then superseded else disputed
    else untouched

unfoldable pub apply_fate : String → Fate → Entry → Entry
apply_fate new_id untouched e = e
apply_fate new_id superseded e = record e { active = false; superseded_by = some new_id }
apply_fate new_id disputed e = record e { flags = with_disputed e.flags }

abbrev pub is_touched : Fate → Bool
is_touched untouched = false
is_touched _ = true

abbrev pub is_disputed : Fate → Bool
is_disputed disputed = true
is_disputed _ = false

unfoldable pub settle_old : Lexicon → String → String → Option String → List Entry → List Entry
unfolding fate apply_fate
settle_old lex new_id author supersedes =
    map (λ e. apply_fate new_id (fate lex author supersedes e) e)

-- the entries that changed, as they are afterwards
unfoldable pub touched_old : Lexicon → String → String → Option String → List Entry → List Entry
unfolding fate apply_fate
touched_old lex new_id author supersedes es =
    map (λ e. apply_fate new_id (fate lex author supersedes e) e)
      (keep (λ e. is_touched (fate lex author supersedes e)) es)

unfoldable pub new_entry : Lexicon → String → String → String → NewFact → List Entry → Entry
unfolding fate or_default sort_flags
new_entry lex new_id created author n es = record {
  id = new_id;
  content = lex.bare n.content;
  target = n.target;
  kind = or_default n.kind valid_kinds "other";
  term = or_default n.term ("long" ∷ "short" ∷ []) "long";
  importance = or_default n.importance ("critical" ∷ "high" ∷ "normal" ∷ []) "normal";
  flags =
      if any (λ e. is_disputed (fate lex author n.supersedes e)) es
      then with_disputed (sort_flags n.flags)
      else sort_flags n.flags;
  era = or_default n.era ("current" ∷ "past" ∷ []) "current";
  sphere = or_default n.sphere ("personal" ∷ "work" ∷ "both" ∷ []) "personal";
  created = created;
  source = n.source;
  author = author;
  active = true;
  superseded_by = none;
}

-- `_add_locked`: the id of a known fact, or the new id, the disputes to be filed and the memory
unfoldable pub add_unknown :
    Lexicon
    → Sync
    → String
    → String
    → String
    → NewFact
    → Memory
    → Option Entry
    → String × List Entry × Memory
unfolding settle_old touched_old
add_unknown lex sync author new_id created n s (some e) = (e.id, [], s)
add_unknown lex sync author new_id created n s none =
    let new : Entry = new_entry lex new_id created author n s.entries in
    (
      new_id,
      map (apply_fate new_id disputed)
          (keep (λ e. is_disputed (fate lex author n.supersedes e)) s.entries),
      save_and_mirror sync (settle_old lex new_id author n.supersedes s.entries ++ new ∷ [])
          (new ∷ touched_old lex new_id author n.supersedes s.entries) s,
    )

-- `add_fact`, with the id and the time that it draws
unfoldable pub add_fact :
    Lexicon → Sync → Context → String → String → NewFact → Memory → String × List Entry × Memory
add_fact lex sync c new_id created n s =
    add_unknown lex sync (author_of c) new_id created n s
      (find_same (lex.bare n.content) n.target s.entries)
