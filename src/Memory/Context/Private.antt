-- ===== src/Memory/Context/Private.antt =====
-- What a viewer other than the owner is shown.
use kyraan.Base.{
  ℕ, String, Bool, true, false, Option, none, some, List, ◌≡◌, ◌≢◌, refl, sym, ◌∙◌, ◌⊎◌, inl, inr,
  str_eq, All, All-keep, All-kept, All-sort_by, All-mapped, All-map_both, map, keep, arith, eq_iff,
  if◌then◌else◌, Bool-cases, sort_by,
}
use mathlib.Core.Path.{subst}
use kyraan.Base.Table.{find, All-found}
use kyraan.Kernel.Context.{Context}
use kyraan.Memory.{Lexicon, owner}
use kyraan.Memory.Facts.{Fact, fact_id, Memory, Sync}
use kyraan.Memory.Facts.Tracks.{Tracks, IsOwned}
use kyraan.Memory.Index.Runs.{Op, run, Sound, run-Tracks}
use kyraan.Memory.Context.{
  Search, Candidate, is_selected, row_candidate, pg_candidates, or_file, candidates, build_context,
}
use kyraan.Memory.Context.Shown.{All-block_lines}

-- The line is a row that was shared, or one of the person's own file, people/<viewer>.
abbrev pub IsForViewer : String → Memory → Candidate → Type 0
IsForViewer viewer s c =
    (f : Fact) × (find fact_id c.id s.facts ≡ some f)
    × (f.content ≡ c.content)
    × ((f.visibility ≡ "shared") ⊎ (f.target.category ≡ "people" × f.target.name ≡ viewer))

module _ (q : Search) (viewer : String) (stranger : viewer ≢ owner) (s : Memory)
    (t : Tracks s) where
  visible :
      (f : Fact)
      → IsOwned f
      → is_selected q viewer f ≡ true
      → (f.visibility ≡ "shared") ⊎ (f.target.category ≡ "people" × f.target.name ≡ viewer)
  unfolding is_selected
  visible f owned chosen = elim (Bool-cases (str_eq f.visibility "shared")) [
    | inl public ↦ inl ((eq_iff f.visibility "shared").0 public)
    | inr private ↦
        let own : f.subject ≡ viewer =
          ground (arith, chosen, private, stranger, eq_iff viewer owner, eq_iff f.subject viewer) in
        elim owned [
          | inl about_owner ↦ absurd (stranger (sym own ∙ about_owner))
          | inr (people, named) ↦ inr (people, sym named ∙ own)
        ]
  ]

  row_private :
      (f : Fact)
      → find fact_id f.id s.facts ≡ some f
      → is_selected q viewer f ≡ true
      → IsForViewer viewer s (row_candidate q f)
  unfolding row_candidate
  row_private f h chosen =
      let (e, a, (target, owned)) = t.filed f.id f h in (f, h, refl, visible f owned chosen)

  pub pg_candidates-IsForViewer :
      (cs : List Candidate) → pg_candidates q viewer s ≡ some cs → All (IsForViewer viewer s) cs
  unfolding pg_candidates
  pg_candidates-IsForViewer cs h =
      let eq : map (row_candidate q) (sort_by q.row_before (keep (is_selected q viewer) s.facts))
          ≡ cs =
        ground (arith, h) in
      subst (All (IsForViewer viewer s)) eq (
        All-mapped (IsForViewer viewer s) (row_candidate q)
          (sort_by q.row_before (keep (is_selected q viewer) s.facts))
          (All-sort_by q.row_before _ _ (
            All-map_both (keep (is_selected q viewer) s.facts)
              (λ f (h : find fact_id f.id s.facts ≡ some f) chosen. row_private f h chosen)
              (All-keep _ (is_selected q viewer) s.facts (All-found fact_id s.facts t.unique_facts))
              (All-kept (is_selected q viewer) s.facts))))

or_file-IsForViewer :
    (rows : Option (List Candidate)) (q : Search) (sync : Sync) (viewer : String) (s : Memory)
    → viewer ≢ owner
    → ((cs : List Candidate) → rows ≡ some cs → All (IsForViewer viewer s) cs)
    → All (IsForViewer viewer s) (or_file rows q sync viewer s).0
unfolding or_file
or_file-IsForViewer (some rows) q sync viewer s stranger h = h rows refl
or_file-IsForViewer none q sync viewer s stranger h = elim (Bool-cases (str_eq viewer owner)) [
  | inl own ↦ absurd (stranger ((eq_iff viewer owner).0 own))
  | inr other ↦ simp other tt
]

-- Whatever operations on the index came before, and whatever the database did, a viewer other than the
-- owner is shown only rows that were shared and rows filed under the viewer's own name in people/: also
-- when the table is marked, the query raises or the backend is set to the files. The conditions: the
-- table and the index agree at the start or the table is marked, and its rows' subjects are right; the
-- mirror is on, the disk takes the marks, and the ids that are drawn are new.
pub context_keeps_private :
    (lex : Lexicon) (os : List (Sync × Op)) (s : Memory) (newer : String → String → Bool)
    (on_pg : Bool) (q : Search) (sync : Sync) (c : Context) (message : String) (budget : ℕ)
    → Tracks s
    → Sound lex os s
    → c.person ≢ owner
    → All
        (IsForViewer c.person (run lex os s))
        (build_context lex newer on_pg q sync c message budget (run lex os s)).0
unfolding build_context candidates
context_keeps_private lex os s newer on_pg q sync c message budget t sound stranger =
    All-block_lines _ lex newer message budget _ (
      or_file-IsForViewer (if on_pg then pg_candidates q c.person (run lex os s) else none) q sync
        c.person (run lex os s) stranger (found on_pg))
  where
    found :
        (b : Bool) (cs : List Candidate)
        → (if b then pg_candidates q c.person (run lex os s) else none) ≡ some cs
        → All (IsForViewer c.person (run lex os s)) cs
    found true cs h =
        pg_candidates-IsForViewer q c.person stranger (run lex os s) (run-Tracks lex os s sound t)
          cs h
    found false cs h = absurd (cc h)
