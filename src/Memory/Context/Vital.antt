-- ===== src/Memory/Context/Vital.antt =====
-- The entries that the memory block takes whatever the budget.
use kyraan.Base.{
  ℕ, String, Bool, true, false, Option, none, some, List, [], ◌∷◌, ◌≡◌, refl, sym, ◌∙◌, ap, inl,
  inr, str_eq, map, keep, arith, eq_iff, if◌then◌else◌, Bool-cases, sort_by, Has, Has-append,
  Has-keep, Has-sort_by, Has-map,
}
use mathlib.Core.Path.{subst}
use kyraan.Base.Table.{find}
use kyraan.Mirror.{is_stale}
use kyraan.Kernel.Context.{Context}
use kyraan.Memory.{Entry, entry_id, Lexicon, owner}
use kyraan.Memory.Facts.{Fact, fact_id, Memory, Sync, facts_store}
use kyraan.Memory.Facts.Tracks.{Tracks, Matches}
use kyraan.Memory.Index.{active_entries, is_expired, change_if_any, deactivate, on_test}
use kyraan.Memory.Index.Runs.{Op, run, Sound, run-Tracks}
use kyraan.Memory.Queue.Settled.{find-change_if_any}
use kyraan.Memory.Context.{
  Search, Candidate, is_visible, is_vital, is_past_term, is_selected, row_candidate,
  entry_candidate, pg_candidates, is_vital_candidate, block_lines, or_file, candidates,
  build_context,
}
use mathlib.Core.Option

Has-find :
    {A : Type 0} (id_of : A → String) (k : String) (x : A) (xs : List A)
    → find id_of k xs ≡ some x
    → Has x xs
unfolding find
Has-find id_of k x [] h = absurd (cc h)
Has-find id_of k x (y ∷ xs) h = elim (Bool-cases (str_eq (id_of y) k)) [
  | inl same ↦ inl (ground (arith, h, same))
  | inr other ↦ inr (Has-find id_of k x xs (ground (arith, h, other)))
]

-- One of the lines says this.
abbrev pub Shows : String → List Candidate → Type 0
Shows content lines = (c : Candidate) × Has c lines × (c.content ≡ content)

-- Health, safety, emergency and danger, critical and identity facts.
abbrev pub IsVital : Entry → Type 0
IsVital e = is_vital e.flags e.importance e.kind ≡ true

vital_shown :
    (lex : Lexicon) (newer : String → String → Bool) (message : String) (budget : ℕ)
    (cs : List Candidate) (c : Candidate)
    → is_vital_candidate c ≡ true
    → Has c cs
    → Has c (block_lines lex newer message budget cs)
unfolding block_lines
vital_shown lex newer message budget cs c vital h =
    Has-append c (keep is_vital_candidate cs) _ (Has-keep c is_vital_candidate cs vital h)

-- what a candidate that stands for the entry has to be
abbrev StandsFor : Entry → List Candidate → Type 0
StandsFor e cs =
    (c : Candidate) × Has c cs × (c.content ≡ e.content) × (is_vital_candidate c ≡ true)

module _ (q : Search) (s : Memory) (t : Tracks s) (k : String) (e : Entry)
    (found : find entry_id k s.entries ≡ some e) (live : e.active ≡ true) (vital : IsVital e)
    (lasting : str_eq e.term "short" ≡ false) where
  vital_row : (f : Fact) → Matches e f → is_vital f.flags f.importance f.kind ≡ true
  vital_row f m =
      ap (λ x. is_vital x f.importance f.kind) m.same_flags
      ∙ ap (λ x. is_vital e.flags x f.kind) m.same_importance
      ∙ ap (λ x. is_vital e.flags e.importance x) m.same_kind
      ∙ vital

  selected :
      (f : Fact)
      → Matches e f
      → str_eq f.visibility "subject_only" ≡ false
      → is_selected q owner f ≡ true
  unfolding is_selected is_visible is_past_term
  selected f m open_row =
      let a : f.active ≡ true = m.same_active ∙ live in
      let l : str_eq f.term "short" ≡ false = ap (λ x. str_eq x "short") m.same_term ∙ lasting in
      ground (arith, a, vital_row f m, l, open_row, eq_iff owner owner)

  in_rows :
      (f : Fact)
      → find fact_id k s.facts ≡ some f
      → Matches e f
      → str_eq f.visibility "subject_only" ≡ false
      → StandsFor e
          (map (row_candidate q) (sort_by q.row_before (keep (is_selected q owner) s.facts)))
  in_rows f h m open_row = (
    row_candidate q f,
    Has-map (row_candidate q) f _ (
        Has-sort_by q.row_before f _ (
          Has-keep f (is_selected q owner) s.facts (selected f m open_row)
            (Has-find fact_id k f s.facts h))),
    unfold row_candidate in m.same_content,
    unfold row_candidate is_vital_candidate in vital_row f m,
  )

  in_answer :
      (cs : List Candidate)
      → ((f : Fact) → find fact_id k s.facts ≡ some f → str_eq f.visibility "subject_only" ≡ false)
      → pg_candidates q owner s ≡ some cs
      → StandsFor e cs
  unfolding pg_candidates
  in_answer cs open_row h = elim (Bool-cases (is_stale facts_store s.marks)) [
    | inl stale ↦ absurd (ground (arith, h, stale))
    | inr fine ↦
        let eq : map (row_candidate q) (sort_by q.row_before (keep (is_selected q owner) s.facts))
            ≡ cs =
          ground (arith, h, fine) in
        let (f, a) = t.complete fine k e found in
        let (e', b, m) = t.in_step fine k f a in
        let same : e' ≡ e = ground (arith, b, found) in
        subst (StandsFor e) eq (in_rows f a (subst (λ x. Matches x f) same m) (open_row f a))
  ]

  in_file :
      (sync : Sync) → StandsFor e (map entry_candidate (active_entries q.read_time q.now sync s).0)
  unfolding active_entries
  in_file sync =
      let after : Memory = change_if_any (is_expired q.read_time q.now) deactivate sync s in
      let spared : on_test (is_expired q.read_time q.now) deactivate e ≡ e =
        unfold on_test is_expired in ground (arith, lasting) in
      let there : find entry_id k after.entries ≡ some e =
        find-change_if_any (is_expired q.read_time q.now) deactivate sync s k
          (λ x. unfold deactivate in refl)
        ∙ ap (Option.map (on_test (is_expired q.read_time q.now) deactivate)) found
        ∙ ap some spared in
      (
        entry_candidate e,
        Has-map entry_candidate e _ (
            Has-keep e (λ (x : Entry). x.active) after.entries live
              (Has-find entry_id k e after.entries there)),
        unfold entry_candidate in refl,
        unfold entry_candidate is_vital_candidate in vital,
      )

  in_candidates :
      (rows : Option (List Candidate)) (sync : Sync)
      → ((cs : List Candidate) → rows ≡ some cs → StandsFor e cs)
      → StandsFor e (or_file rows q sync owner s).0
  unfolding or_file
  in_candidates (some rows) sync h = h rows refl
  in_candidates none sync h = in_file sync

  in_backend :
      (viewer : String)
      → viewer ≡ owner
      → ((f : Fact) → find fact_id k s.facts ≡ some f → str_eq f.visibility "subject_only" ≡ false)
      → (on_pg : Bool) (cs : List Candidate)
      → (if on_pg then pg_candidates q viewer s else none) ≡ some cs
      → StandsFor e cs
  in_backend viewer own open_row true cs h =
      in_answer cs open_row (ap (λ w. pg_candidates q w s) (sym own) ∙ h)
  in_backend viewer own open_row false cs h = absurd (cc h)

-- Whatever operations on the index came before, whatever the database did, and however small the budget,
-- the owner's memory block has a line for every active entry that is vital: flagged for health, safety,
-- emergency or danger, critical, or about identity. The conditions: the entry is not short-term and its
-- row, if there is one, was not set to be seen by its subject only. At the start ids are unique in index
-- and table; every row, also of a marked table, belongs to an entry of the index with the same target, and
-- its subject is the owner or the person whose file that is; and rows and entries agree, with a row for
-- each entry, or the table is marked. And the mirror is on, the disk takes the marks, and the ids that are
-- drawn are new.
pub vital_facts_shown :
    (lex : Lexicon) (os : List (Sync × Op)) (s : Memory) (newer : String → String → Bool)
    (on_pg : Bool) (q : Search) (sync : Sync) (c : Context) (message : String) (budget : ℕ)
    (k : String) (e : Entry)
    → Tracks s
    → Sound lex os s
    → c.person ≡ owner
    → find entry_id k (run lex os s).entries ≡ some e
    → e.active ≡ true
    → IsVital e
    → str_eq e.term "short" ≡ false
    → ((f : Fact)
        → find fact_id k (run lex os s).facts ≡ some f
        → str_eq f.visibility "subject_only" ≡ false)
    → Shows e.content (build_context lex newer on_pg q sync c message budget (run lex os s)).0
unfolding build_context candidates
vital_facts_shown lex os s newer on_pg q sync c message budget k e t sound own found live vital
      lasting open_row =
    let now : Memory = run lex os s in
    let after : Tracks now = run-Tracks lex os s sound t in
    let rows : Option (List Candidate) = if on_pg then pg_candidates q c.person now else none in
    let (x, has, same, v) =
      in_candidates q now after k e found live vital lasting rows sync
        (in_backend q now after k e found live vital lasting c.person own open_row on_pg) in
    subst
      (λ who.
        Shows e.content (block_lines lex newer message budget (or_file rows q sync who now).0))
      (sym own)
      (x, vital_shown lex newer message budget (or_file rows q sync owner now).0 x v has, same)
