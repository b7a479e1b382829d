-- ===== src/Memory/Queue/Settled.antt =====
-- Passes over the index, entry by entry, and the entries that clearing the flags leaves.
use kyraan.Base.{
  String, Bool, true, false, not, ◌&&◌, Option, some, List, [], ◌∷◌, ◌≡◌, refl, sym, ◌∙◌, ap, inl,
  inr, str_eq, str_in, any, map, keep, arith, eq_iff, Bool-cases,
}
use mathlib.Core.Option
use kyraan.Base.Table.{find, find-map}
use kyraan.Memory.{Entry, entry_id}
use kyraan.Memory.Facts.{Memory, Sync}
use kyraan.Memory.Facts.Saves.{entries-save_and_mirror}
use kyraan.Memory.Index.{on_test, change_some, change_if_any, without_flag, clear_flag}

none_pass :
    (test : Entry → Bool) (f : Entry → Entry) (es : List Entry)
    → any test es ≡ false
    → map (on_test test f) es ≡ es
unfolding on_test
none_pass test f [] h = refl
none_pass test f (e ∷ es) h = elim (Bool-cases (test e)) [
  | inl hit ↦ absurd (ground (arith, h, hit))
  | inr miss ↦ ground (arith, miss, h, none_pass test f es)
]

module _ (test : Entry → Bool) (f : Entry → Entry) (sync : Sync) (s : Memory) (k : String)
    (same : (e : Entry) → (f e).id ≡ e.id) where
  on_test_id : (e : Entry) → (on_test test f e).id ≡ e.id
  unfolding on_test
  on_test_id e = ground (arith, same e)

  pub find-change_some :
      find entry_id k (change_some test f sync s).entries
      ≡ Option.map (on_test test f) (find entry_id k s.entries)
  unfolding change_some
  find-change_some =
      ap (find entry_id k) (
        entries-save_and_mirror sync (map (on_test test f) s.entries)
          (map (on_test test f) (keep test s.entries)) s)
      ∙ find-map entry_id k (on_test test f) s.entries on_test_id

  -- also when nothing passes the test and nothing is saved
  pub find-change_if_any :
      find entry_id k (change_if_any test f sync s).entries
      ≡ Option.map (on_test test f) (find entry_id k s.entries)
  unfolding change_if_any
  find-change_if_any = elim (Bool-cases (any test s.entries)) [
    | inl hit ↦ simp hit find-change_some
    | inr miss ↦ simp miss (
        ap (find entry_id k) (sym (none_pass test f s.entries miss))
        ∙ find-map entry_id k (on_test test f) s.entries on_test_id)
  ]

pub not-in-keep :
    (flag : String) (flags : List String)
    → str_in flag (keep (λ f. not (str_eq f flag)) flags) ≡ false
unfolding str_in
not-in-keep flag [] = refl
not-in-keep flag (f ∷ flags) = ground (arith, eq_iff f flag, not-in-keep flag flags)

-- the entry of an id once both flags are cleared
abbrev pub undisputed_entry : List String → Entry → Entry
undisputed_entry ids =
    on_test (λ e. str_in e.id ids && str_in "disputed" e.flags) (without_flag "disputed")

pub undisputed :
    (ids : List String) (e : Entry)
    → str_in e.id ids ≡ true
    → (str_in "disputed" (undisputed_entry ids e).flags ≡ false)
      × ((undisputed_entry ids e).active ≡ e.active)
      × ((undisputed_entry ids e).content ≡ e.content)
      × ((undisputed_entry ids e).superseded_by ≡ e.superseded_by)
unfolding on_test without_flag
undisputed ids e named = ground (arith, named, not-in-keep "disputed" e.flags)

-- An entry that is no longer in dispute, with its content, whether it is active, and its successor.
pub record IsSettled (k : String) (content : String) (active : Bool) (successor : Option String)
    (s : Memory) : Type 0 where
  pub entry : Entry
  pub found : find entry_id k s.entries ≡ some entry
  pub same_content : entry.content ≡ content
  pub is_active : entry.active ≡ active
  pub after : entry.superseded_by ≡ successor
  pub unflagged : str_in "disputed" entry.flags ≡ false

pub settled :
    (sync : Sync) (ids : List String) (s : Memory) (k : String) (e : Entry)
    → find entry_id k s.entries ≡ some e
    → str_in e.id ids ≡ true
    → IsSettled k e.content e.active e.superseded_by (clear_flag sync ids "disputed" s)
unfolding clear_flag
settled sync ids s k e h named =
    let (flags, active, content, successor) = undisputed ids e named in
    record {
      entry = undisputed_entry ids e;
      found =
          find-change_if_any (λ x. str_in x.id ids && str_in "disputed" x.flags)
            (without_flag "disputed") sync s k (λ x. unfold without_flag in refl)
          ∙ ap (Option.map (undisputed_entry ids)) h;
      same_content = content;
      is_active = active;
      after = successor;
      unflagged = flags;
    }
