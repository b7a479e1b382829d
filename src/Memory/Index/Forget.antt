-- ===== src/Memory/Index/Forget.antt =====
-- Forgetting and its inverse.
use kyraan.Base.{
  String, true, List, [], ◌∷◌, ◌≡◌, refl, ◌∙◌, ap, inl, inr, str_in, All, map, keep, arith,
  Bool-cases,
}
use kyraan.Memory.{Entry}
use kyraan.Memory.Facts.{Memory, Sync}
use kyraan.Memory.Facts.Saves.{entries-save_and_mirror}
use kyraan.Memory.Index.{
  on_test, change_some, deactivate, reactivate, is_live, is_gone, forget, unforget,
}

-- what is to be forgotten is active
abbrev pub IsAllLive : List String → List Entry → Type 0
IsAllLive ids = All (λ e. str_in e.id ids ≡ true → e.active ≡ true)

there_and_back :
    (ids : List String) (e : Entry)
    → (str_in e.id ids ≡ true → e.active ≡ true)
    → on_test (is_gone ids) reactivate (on_test (is_live ids) deactivate e) ≡ e
unfolding on_test reactivate deactivate
there_and_back ids e live = elim (Bool-cases (str_in e.id ids)) [
  | inl named ↦ ground (arith, named, live named)
  | inr other ↦ ground (arith, other)
]

pub entries_back :
    (ids : List String) (es : List Entry)
    → IsAllLive ids es
    → map (on_test (is_gone ids) reactivate) (map (on_test (is_live ids) deactivate) es) ≡ es
entries_back ids [] h = refl
entries_back ids (e ∷ es) (here, later) =
    simp (there_and_back ids e here, entries_back ids es later)

same_named :
    (ids : List String) (es : List Entry)
    → IsAllLive ids es
    → map
        (λ (e : Entry). e.content)
        (keep (is_gone ids) (map (on_test (is_live ids) deactivate) es))
      ≡ map (λ (e : Entry). e.content) (keep (is_live ids) es)
unfolding on_test deactivate
same_named ids [] h = refl
same_named ids (e ∷ es) (here, later) = elim (Bool-cases (str_in e.id ids)) [
  | inl named ↦ ground (arith, named, here named, same_named ids es later)
  | inr other ↦ ground (arith, other, same_named ids es later)
]

-- Undoing a forget gives the index back entry by entry, and names the same contents, whatever the
-- database did at either, if everything that was to be forgotten was active.
pub unforget-forget :
    (sync sync' : Sync) (ids : List String) (s : Memory)
    → IsAllLive ids s.entries
    → ((unforget sync' ids (forget sync ids s).1).1.entries ≡ s.entries)
      × ((unforget sync' ids (forget sync ids s).1).0 ≡ (forget sync ids s).0)
unfolding unforget forget change_some
unforget-forget sync sync' ids s live =
    let s' : Memory = (forget sync ids s).1 in
    let saved : s'.entries ≡ map (on_test (is_live ids) deactivate) s.entries =
      unfold forget change_some in
      entries-save_and_mirror sync (map (on_test (is_live ids) deactivate) s.entries)
        (map (on_test (is_live ids) deactivate) (keep (is_live ids) s.entries)) s in
    (
      entries-save_and_mirror sync' (map (on_test (is_gone ids) reactivate) s'.entries)
            (map (on_test (is_gone ids) reactivate) (keep (is_gone ids) s'.entries)) s'
          ∙ ap (map (on_test (is_gone ids) reactivate)) saved
          ∙ entries_back ids s.entries live,
      ap (λ l. map (λ (e : Entry). e.content) (keep (is_gone ids) l)) saved
          ∙ same_named ids s.entries live,
    )
