-- ===== src/Memory/Index.antt =====
-- The operations of memory/engine.py on the index: adding a fact, with supersession and disputes,
-- expiry, forgetting and its inverse, consolidation, and the flags. Each saves the file and mirrors.
-- The sweeps of episodes and documents and the extraction of triples are other stores'.
mod Follows
mod Add
pub mod Runs
pub mod Forget
pub mod Authors
pub mod Retry
unfoldable pub use Add.*
use kyraan.Base.{
  ℕ, ◌+◌, ◌*◌, suc, String, Bool, true, false, not, ◌&&◌, ◌||◌, Option, none, some, List, [], ◌∷◌,
  ◌++◌, map, keep, any, length, ltb, leb, str_eq, str_in, if◌then◌else◌,
}
use kyraan.Base.Table.{find, update}
use kyraan.Kernel.Context.{Context}
use kyraan.Kernel.Viewer.{effective_reviewer}
use kyraan.Memory.{
  Target, Entry, entry_id, Lexicon, same_target, is_empty, words, is_subset, sort_flags,
  with_disputed,
}
use kyraan.Memory.Facts.{Memory, Sync, save_and_mirror}

-- One pass over the index: the entries that pass the test are changed, saved and mirrored.
unfoldable pub on_test : (Entry → Bool) → (Entry → Entry) → Entry → Entry
on_test test f e = if test e then f e else e

unfoldable pub change_some : (Entry → Bool) → (Entry → Entry) → Sync → Memory → Memory
unfolding on_test
change_some test f sync s =
    save_and_mirror sync (map (on_test test f) s.entries)
      (map (on_test test f) (keep test s.entries)) s

-- the test of a pass that saves only when something changed
unfoldable pub change_if_any : (Entry → Bool) → (Entry → Entry) → Sync → Memory → Memory
unfolding change_some
change_if_any test f sync s = if any test s.entries then change_some test f sync s else s

unfoldable pub deactivate : Entry → Entry
deactivate e = record e { active = false }

unfoldable pub reactivate : Entry → Entry
reactivate e = record e { active = true }

abbrev pub is_live : List String → Entry → Bool
is_live ids e = str_in e.id ids && e.active

abbrev pub is_gone : List String → Entry → Bool
is_gone ids e = str_in e.id ids && not e.active

-- the contents and the memory
unfoldable pub forget : Sync → List String → Memory → List String × Memory
unfolding change_some deactivate
forget sync ids s = (
  map (λ (e : Entry). e.content) (keep (is_live ids) s.entries),
  change_some (is_live ids) deactivate sync s,
)

unfoldable pub unforget : Sync → List String → Memory → List String × Memory
unfolding change_some reactivate
unforget sync ids s = (
  map (λ (e : Entry). e.content) (keep (is_gone ids) s.entries),
  change_some (is_gone ids) reactivate sync s,
)

-- `_SHORT_TERM_DAYS` in seconds
abbrev pub short_term : ℕ
short_term = 14 * 86400

-- an entry whose time is no ISO text never expires
unfoldable pub is_expired : (String → Option ℕ) → ℕ → Entry → Bool
is_expired read_time now e =
    e.active
    && str_eq e.term "short"
    && elim (read_time e.created) [ none ↦ false | some t ↦ ltb (t + short_term) now ]

-- the entries that are live, and the memory after the lazy expiry
unfoldable pub active_entries : (String → Option ℕ) → ℕ → Sync → Memory → List Entry × Memory
unfolding change_if_any is_expired deactivate
active_entries read_time now sync s =
    let s' : Memory = change_if_any (is_expired read_time now) deactivate sync s in
    (keep (λ (e : Entry). e.active) s'.entries, s')

abbrev pub is_undisputed : String → String → Entry → Bool
is_undisputed a b e =
    (str_eq e.id a || str_eq e.id b) && e.active && not (str_in "disputed" e.flags)

unfoldable pub dispute : Entry → Entry
dispute e = record e { flags = with_disputed e.flags }

unfoldable pub flag_disputed : Sync → String → String → Memory → Bool × Memory
unfolding change_if_any dispute
flag_disputed sync a b s =
    (any (is_undisputed a b) s.entries, change_if_any (is_undisputed a b) dispute sync s)

unfoldable pub without_flag : String → Entry → Entry
without_flag flag e = record e { flags = keep (λ f. not (str_eq f flag)) e.flags }

unfoldable pub clear_flag : Sync → List String → String → Memory → Memory
unfolding change_if_any without_flag
clear_flag sync ids flag =
    change_if_any (λ e. str_in e.id ids && str_in flag e.flags) (without_flag flag) sync

unfoldable pub is_live_id : String → List Entry → Bool
is_live_id k es = elim (find entry_id k es) [ none ↦ false | some e ↦ e.active ]

-- The duplicates in the order in which they are named, each once.
unfoldable pub picked : String → List String → List String → List Entry → List Entry
picked keep_id seen [] es = []
picked keep_id seen (d ∷ ds) es =
    let rest : List Entry = picked keep_id (d ∷ seen) ds es in
    elim (find entry_id d es) [
      | none ↦ rest
      | some e ↦
          if e.active && not (str_eq d keep_id) && not (str_in d seen) then e ∷ rest else rest
    ]

abbrev pub is_duplicate : String → List String → Entry → Bool
is_duplicate keep_id dups e = is_live dups e && not (str_eq e.id keep_id)

unfoldable pub superseded_by_kept : String → Entry → Entry
superseded_by_kept keep_id e = record e { active = false; superseded_by = some keep_id }

-- `none` is the ValueError of a fact to keep that is not active
unfoldable pub consolidate : Sync → String → List String → Memory → Option (List String × Memory)
unfolding is_live_id change_if_any picked superseded_by_kept
consolidate sync keep_id dups s =
    if is_live_id keep_id s.entries
    then some (
      map (λ (e : Entry). e.content) (picked keep_id [] dups s.entries),
      change_if_any (is_duplicate keep_id dups) (superseded_by_kept keep_id) sync s,
    )
    else none
