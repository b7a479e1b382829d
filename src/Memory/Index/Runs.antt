-- ===== src/Memory/Index/Runs.antt =====
-- A run of operations on the memory, each with its own luck at the database.
use kyraan.Base.{
  ℕ, String, Bool, true, false, Option, none, some, List, [], ◌∷◌, ◌++◌, ◌≡◌, refl, inl, inr, map,
  keep, any, arith, Bool-cases,
}
use kyraan.Base.Table.{find}
use kyraan.Kernel.Context.{Context}
use kyraan.Memory.{Entry, entry_id, Lexicon}
use kyraan.Memory.Facts.{Memory, Sync}
use kyraan.Memory.Facts.Tracks.{Tracks}
use kyraan.Memory.Facts.Saves.{save_and_mirror-Tracks}
use kyraan.Memory.Index.{
  NewFact, Fate, untouched, superseded, disputed, fate, apply_fate, is_touched, settle_old,
  touched_old, new_entry, author_of, find_same, add_unknown, add_fact, on_test, change_some,
  change_if_any, deactivate, reactivate, forget, unforget, is_expired, active_entries, dispute,
  flag_disputed, without_flag, clear_flag, consolidate, superseded_by_kept, is_live_id,
}
use kyraan.Memory.Index.Follows.{Follows-map, Follows-append}

module _ (sync : Sync) (on : sync.enabled ≡ true) (written : sync.written ≡ true) where
  on_test_id :
      (test : Entry → Bool) (f : Entry → Entry) (h : (e : Entry) → (f e).id ≡ e.id) (e : Entry)
      → (on_test test f e).id ≡ e.id
  unfolding on_test
  on_test_id test f h e = ground (arith, h e)

  on_test_target :
      (test : Entry → Bool) (f : Entry → Entry) (h : (e : Entry) → (f e).target ≡ e.target)
      (e : Entry)
      → (on_test test f e).target ≡ e.target
  unfolding on_test
  on_test_target test f h e = ground (arith, h e)

  on_test_else :
      (test : Entry → Bool) (f : Entry → Entry) (e : Entry) → test e ≡ false → on_test test f e ≡ e
  unfolding on_test
  on_test_else test f e h = ground (arith, h)

  module _ (test : Entry → Bool) (f : Entry → Entry) (same_id : (e : Entry) → (f e).id ≡ e.id)
      (same_target : (e : Entry) → (f e).target ≡ e.target) where
    change_some-Tracks : (s : Memory) → Tracks s → Tracks (change_some test f sync s)
    unfolding change_some
    change_some-Tracks s t =
        save_and_mirror-Tracks sync (map (on_test test f) s.entries)
          (map (on_test test f) (keep test s.entries)) s on written
          (Follows-map test (on_test test f) (on_test_id test f same_id)
            (on_test_target test f same_target) (on_test_else test f) s.entries t.unique_entries)
          t

    change_if_any-Tracks : (s : Memory) → Tracks s → Tracks (change_if_any test f sync s)
    unfolding change_if_any
    change_if_any-Tracks s t = elim (Bool-cases (any test s.entries)) [
      | inl some_found ↦ simp some_found (change_some-Tracks s t)
      | inr none_found ↦ simp none_found t
    ]

pub apply_fate_id : (k : String) (x : Fate) (e : Entry) → (apply_fate k x e).id ≡ e.id
unfolding apply_fate
apply_fate_id k untouched e = refl
apply_fate_id k superseded e = refl
apply_fate_id k disputed e = refl

apply_fate_target : (k : String) (x : Fate) (e : Entry) → (apply_fate k x e).target ≡ e.target
unfolding apply_fate
apply_fate_target k untouched e = refl
apply_fate_target k superseded e = refl
apply_fate_target k disputed e = refl

apply_fate_else : (k : String) (x : Fate) (e : Entry) → is_touched x ≡ false → apply_fate k x e ≡ e
unfolding apply_fate
apply_fate_else k untouched e h = refl
apply_fate_else k superseded e h = absurd (cc h)
apply_fate_else k disputed e h = absurd (cc h)

-- An operation of the engine, with its arguments.
pub data Op : Type 0 where
  adding : Context → String → String → NewFact → Op
  forgetting : List String → Op
  restoring : List String → Op
  expiring : (String → Option ℕ) → ℕ → Op
  merging : String → List String → Op
  flagging : String → String → Op
  clearing : List String → String → Op

-- what a consolidation leaves, a ValueError included
merged_memory : Option (List String × Memory) → Memory → Memory
merged_memory none s = s
merged_memory (some r) s = r.1

unfoldable pub step : Lexicon → Sync × Op → Memory → Memory
unfolding merged_memory
step lex (sync, adding c id created n) s = (add_fact lex sync c id created n s).2
step lex (sync, forgetting ids) s = (forget sync ids s).1
step lex (sync, restoring ids) s = (unforget sync ids s).1
step lex (sync, expiring read_time now) s = (active_entries read_time now sync s).1
step lex (sync, merging keep_id dups) s = merged_memory (consolidate sync keep_id dups s) s
step lex (sync, flagging a b) s = (flag_disputed sync a b s).1
step lex (sync, clearing ids flag) s = clear_flag sync ids flag s

abbrev pub run : Lexicon → List (Sync × Op) → Memory → Memory
run lex [] s = s
run lex (o ∷ os) s = run lex os (step lex o s)

-- The id that `uuid4` drew is new.
abbrev pub IsFresh : Op → Memory → Type 0
IsFresh (adding c id created n) s = find entry_id id s.entries ≡ none
IsFresh _ s = Unit

-- the mirror is on, the disk takes the marks, and drawn ids are new
abbrev pub Sound : Lexicon → List (Sync × Op) → Memory → Type 0
Sound lex [] s = Unit
Sound lex ((sync, op) ∷ os) s =
    sync.enabled ≡ true × sync.written ≡ true × IsFresh op s × Sound lex os (step lex (sync, op) s)

module _ (lex : Lexicon) (sync : Sync) (on : sync.enabled ≡ true)
    (written : sync.written ≡ true) where
  add_unknown-Tracks :
      (author id created : String) (n : NewFact) (s : Memory) (known : Option Entry)
      → find entry_id id s.entries ≡ none
      → Tracks s
      → Tracks (add_unknown lex sync author id created n s known).2
  unfolding add_unknown
  add_unknown-Tracks author id created n s (some e) fresh t = t
  add_unknown-Tracks author id created n s none fresh t =
      save_and_mirror-Tracks sync (settle_old lex id author n.supersedes s.entries ++ new ∷ [])
        (new ∷ touched_old lex id author n.supersedes s.entries) s on written
        (Follows-append (λ e. is_touched (fate lex author n.supersedes e))
          (λ e. apply_fate id (fate lex author n.supersedes e) e)
          (λ e. apply_fate_id id (fate lex author n.supersedes e) e)
          (λ e. apply_fate_target id (fate lex author n.supersedes e) e)
          (λ e. apply_fate_else id (fate lex author n.supersedes e) e) s.entries new
          t.unique_entries (unfold new_entry in fresh))
        t
    where
      new : Entry
      new = new_entry lex id created author n s.entries

  merged-Tracks :
      (keep_id : String) (dups : List String) (s : Memory)
      → Tracks s
      → Tracks (step lex (sync, merging keep_id dups) s)
  unfolding step consolidate superseded_by_kept
  merged-Tracks keep_id dups s t = elim (Bool-cases (is_live_id keep_id s.entries)) [
    | inl live ↦ simp live (change_if_any-Tracks sync on written _ _ (λ _. refl) (λ _. refl) s t)
    | inr dead ↦ simp dead t
  ]

  pub step-Tracks :
      (op : Op) (s : Memory) → IsFresh op s → Tracks s → Tracks (step lex (sync, op) s)
  unfolding step add_fact forget unforget active_entries flag_disputed clear_flag deactivate
      reactivate dispute without_flag
  step-Tracks (adding c id created n) s fresh t =
      add_unknown-Tracks (author_of c) id created n s
        (find_same (lex.bare n.content) n.target s.entries) fresh t
  step-Tracks (forgetting ids) s _ t =
      change_some-Tracks sync on written _ _ (λ _. refl) (λ _. refl) s t
  step-Tracks (restoring ids) s _ t =
      change_some-Tracks sync on written _ _ (λ _. refl) (λ _. refl) s t
  step-Tracks (expiring read_time now) s _ t =
      change_if_any-Tracks sync on written (is_expired read_time now) deactivate (λ _. refl)
        (λ _. refl) s t
  step-Tracks (merging keep_id dups) s _ t = merged-Tracks keep_id dups s t
  step-Tracks (flagging a b) s _ t =
      change_if_any-Tracks sync on written _ _ (λ _. refl) (λ _. refl) s t
  step-Tracks (clearing ids flag) s _ t =
      change_if_any-Tracks sync on written _ _ (λ _. refl) (λ _. refl) s t

pub run-Tracks :
    (lex : Lexicon) (os : List (Sync × Op)) (s : Memory)
    → Sound lex os s
    → Tracks s
    → Tracks (run lex os s)
run-Tracks lex [] s _ t = t
run-Tracks lex ((sync, op) ∷ os) s (on, written, fresh, later) t =
    run-Tracks lex os (step lex (sync, op) s) later (step-Tracks lex sync on written op s fresh t)
