-- ===== src/Memory/Context/Shown.antt =====
-- What the memory block shows, whichever way its lines were found: the lines come from the candidates,
-- and the candidates from rows that agree with the index or from the index itself.
use kyraan.Base.{
  ℕ, ◌+◌, String, Bool, true, false, not, ◌&&◌, Option, none, some, List, [], ◌∷◌, ◌≡◌, refl, sym,
  ◌∙◌, inl, inr, str_eq, All, All-append, All-keep, All-kept, All-sort_by, All-mapped, All-map,
  All-map_both, map, keep, ltb, arith, if◌then◌else◌, Bool-cases, sort_by,
}
use mathlib.Core.Path.{subst}
use kyraan.Base.Table.{find, All-found, IsUnique}
use kyraan.Mirror.{is_stale}
use kyraan.Kernel.Context.{Context}
use kyraan.Memory.{Entry, entry_id, Lexicon, owner}
use kyraan.Memory.Facts.{Fact, fact_id, Memory, Sync, facts_store}
use kyraan.Memory.Facts.Tracks.{Tracks}
use kyraan.Memory.Index.{active_entries}
use kyraan.Memory.Index.Runs.{Op, expiring, run, step, Sound, run-Tracks, step-Tracks}
use kyraan.Memory.Context.{
  Search, Candidate, is_selected, row_candidate, entry_candidate, pg_candidates, line_size, used_by,
  fill, is_vital_candidate, is_hidden, rank, ranked, block_lines, or_file, candidates,
  build_context, top_sim,
}

module _ (P : Candidate → Type 0) (lex : Lexicon) (newer : String → String → Bool) where
  All-fill : (budget used : ℕ) (cs : List Candidate) → All P cs → All P (fill lex budget used cs)
  unfolding fill
  All-fill budget used [] h = tt
  All-fill budget used (c ∷ cs) (here, there) =
      elim (Bool-cases (ltb budget (used + line_size lex c))) [
        | inl over ↦ rw over tt
        | inr fits ↦ rw fits (here, All-fill budget (used + line_size lex c + 1) cs there)
      ]

  pub All-ranked :
      (message : String) (cs : List Candidate) → All P cs → All P (ranked lex newer message cs)
  unfolding ranked rank
  All-ranked message cs h = All-sort_by _ P _ (
      All-sort_by _ P _ (
        All-keep P (λ c. not (is_vital_candidate c) && not (is_hidden lex message (top_sim cs) c))
          cs h))

  pub All-block_lines :
      (message : String) (budget : ℕ) (cs : List Candidate)
      → All P cs
      → All P (block_lines lex newer message budget cs)
  unfolding block_lines
  All-block_lines message budget cs h =
      All-append P (keep is_vital_candidate cs)
        (fill lex budget (used_by lex (keep is_vital_candidate cs)) (ranked lex newer message cs))
        (All-keep P is_vital_candidate cs h)
        (All-fill budget (used_by lex (keep is_vital_candidate cs)) (ranked lex newer message cs)
          (All-ranked message cs h))

-- The line says what a live entry of the index says.
abbrev pub IsLive : Memory → Candidate → Type 0
IsLive s c =
    (e : Entry) × (find entry_id c.id s.entries ≡ some e)
    × (e.active ≡ true)
    × (e.content ≡ c.content)

module _ (q : Search) (viewer : String) (s : Memory) (t : Tracks s) where
  selected_active : (f : Fact) → is_selected q viewer f ≡ true → f.active ≡ true
  unfolding is_selected
  selected_active f h = ground (arith, h)

  row_live :
      (k : String) (f : Fact)
      → is_stale facts_store s.marks ≡ false
      → find fact_id k s.facts ≡ some f
      → is_selected q viewer f ≡ true
      → (e : Entry) × (find entry_id k s.entries ≡ some e)
        × (e.active ≡ true)
        × (e.content ≡ f.content)
  row_live k f fine h chosen =
      let (e, a, m) = t.in_step fine k f h in
      (e, a, sym m.same_active ∙ selected_active f chosen, sym m.same_content)

  pub rows-IsLive :
      is_stale facts_store s.marks ≡ false
      → All
          (λ f. IsLive s (row_candidate q f))
          (sort_by q.row_before (keep (is_selected q viewer) s.facts))
  unfolding row_candidate
  rows-IsLive fine = All-sort_by q.row_before _ _ (
      All-map_both (keep (is_selected q viewer) s.facts)
        (λ f (live : is_selected q viewer f ≡ true → IsLive s (row_candidate q f)) chosen.
          live chosen)
        (All-keep _ (is_selected q viewer) s.facts (
          All-map s.facts (λ f h chosen. row_live f.id f fine h chosen)
            (All-found fact_id s.facts t.unique_facts)))
        (All-kept (is_selected q viewer) s.facts))

  pub pg_candidates-IsLive :
      (cs : List Candidate) → pg_candidates q viewer s ≡ some cs → All (IsLive s) cs
  unfolding pg_candidates
  pg_candidates-IsLive cs h = elim (Bool-cases (is_stale facts_store s.marks)) [
    | inl stale ↦ absurd (ground (arith, h, stale))
    | inr fine ↦
        let eq : map (row_candidate q) (sort_by q.row_before (keep (is_selected q viewer) s.facts))
            ≡ cs =
          ground (arith, h, fine) in
        subst (All (IsLive s)) eq (
          All-mapped (IsLive s) (row_candidate q)
            (sort_by q.row_before (keep (is_selected q viewer) s.facts)) (rows-IsLive fine))
  ]

IsLive-entries :
    (s : Memory)
    → IsUnique entry_id s.entries
    → All (IsLive s) (map entry_candidate (keep (λ (e : Entry). e.active) s.entries))
unfolding entry_candidate
IsLive-entries s u =
    All-mapped (IsLive s) entry_candidate (keep (λ (e : Entry). e.active) s.entries) (
      All-map_both (keep (λ (e : Entry). e.active) s.entries)
        (λ e (h : find entry_id e.id s.entries ≡ some e) (live : e.active ≡ true).
          (e, h, live, refl))
        (All-keep _ (λ (e : Entry). e.active) s.entries (All-found entry_id s.entries u))
        (All-kept (λ (e : Entry). e.active) s.entries))

or_file-IsLive :
    (rows : Option (List Candidate)) (lex : Lexicon) (q : Search) (sync : Sync) (viewer : String)
    (s : Memory)
    → sync.enabled ≡ true
    → sync.written ≡ true
    → Tracks s
    → ((cs : List Candidate) → rows ≡ some cs → All (IsLive s) cs)
    → All (IsLive (or_file rows q sync viewer s).1) (or_file rows q sync viewer s).0
unfolding or_file
or_file-IsLive (some rows) lex q sync viewer s on written t h = h rows refl
or_file-IsLive none lex q sync viewer s on written t h = elim (Bool-cases (str_eq viewer owner)) [
  | inl own ↦
      let after : Tracks (active_entries q.read_time q.now sync s).1 =
        unfold step in step-Tracks lex sync on written (expiring q.read_time q.now) s tt t in
      simp own (IsLive-entries (active_entries q.read_time q.now sync s).1 after.unique_entries)
  | inr other ↦ simp other tt
]

-- Whatever operations on the index came before, and whatever the database did at each of them, every
-- line that the memory block shows to any viewer is the content of an entry that is active in the index:
-- what was forgotten, superseded, merged or has expired does not come back through an outage. The
-- conditions, at the start: ids are unique in index and table; every row, also of a marked table, belongs
-- to an entry of the index with the same target, and its subject is the owner or the person whose file
-- that is; and rows and entries agree, with a row for each entry, or the table is marked. And the mirror
-- is on, the disk takes the marks, and the ids that are drawn are new.
pub context_shows-IsLive :
    (lex : Lexicon) (os : List (Sync × Op)) (s : Memory) (newer : String → String → Bool)
    (on_pg : Bool) (q : Search) (sync : Sync) (c : Context) (message : String) (budget : ℕ)
    → Tracks s
    → Sound lex os s
    → sync.enabled ≡ true
    → sync.written ≡ true
    → All
        (IsLive (build_context lex newer on_pg q sync c message budget (run lex os s)).1)
        (build_context lex newer on_pg q sync c message budget (run lex os s)).0
unfolding build_context candidates
context_shows-IsLive lex os s newer on_pg q sync c message budget t sound on written =
    let after : Tracks (run lex os s) = run-Tracks lex os s sound t in
    All-block_lines _ lex newer message budget _ (
      or_file-IsLive (if on_pg then pg_candidates q c.person (run lex os s) else none) lex q sync
        c.person (run lex os s) on written after (found on_pg))
  where
    found :
        (b : Bool) (cs : List Candidate)
        → (if b then pg_candidates q c.person (run lex os s) else none) ≡ some cs
        → All (IsLive (run lex os s)) cs
    found true cs h =
        pg_candidates-IsLive q c.person (run lex os s) (run-Tracks lex os s sound t) cs h
    found false cs h = absurd (cc h)
