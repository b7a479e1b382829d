-- ===== src/Memory/Context.antt =====
-- The memory block of a prompt, `_pg_candidates` and `build_context` of memory/engine.py. What the
-- database makes of a text (full text search, neighbours, similarity) is the argument `Search`.
pub mod Shown
pub mod Private
pub mod Vital
use kyraan.Base.{
  ℕ, suc, ◌+◌, ◌-◌, ◌*◌, String, Bool, true, false, not, ◌&&◌, ◌||◌, Option, none, some, List, [],
  ◌∷◌, ◌++◌, map, keep, any, length, ltb, leb, str_eq, str_in, if◌then◌else◌, sort_by,
}
use kyraan.Mirror.{is_stale}
use kyraan.Kernel.Context.{Context}
use kyraan.Memory.{
  Entry, Lexicon, owner, is_empty, words, shared, safety_flags, discretion_flags, max,
}
use kyraan.Memory.Facts.{Fact, Memory, Sync, facts_store}
use kyraan.Memory.Index.{short_term, active_entries}

-- The query's view of a row, and the order of its columns `created_at`, `legacy_id`; a similarity
-- counts ten-thousandths, and none below zero.
pub record Search : Type 0 where
  pub read_time : String → Option ℕ
  pub now : ℕ
  pub text_matches : Fact → Bool
  pub near : Fact → Bool
  pub newest : Fact → Bool
  pub similarity : Fact → Option ℕ
  pub row_before : Fact → Fact → Bool
  pub raises : Bool

-- What ranking reads of an entry or of a row.
pub record Candidate : Type 0 where
  pub id : String
  pub content : String
  pub kind : String
  pub importance : String
  pub flags : List String
  pub era : String
  pub created : String
  pub sim : Option ℕ

-- the visibility clause
unfoldable pub is_visible : String → Fact → Bool
is_visible viewer f =
    if str_eq viewer owner
    then not (str_eq f.visibility "subject_only" && not (str_eq f.subject owner))
    else str_eq f.visibility "shared" || str_eq f.subject viewer

-- `set(flags) & named`
unfoldable pub has_flag : List String → List String → Bool
has_flag named flags = any (λ f. str_in f named) flags

unfoldable pub is_vital : List String → String → String → Bool
unfolding has_flag
is_vital flags importance kind =
    has_flag safety_flags flags || str_eq importance "critical" || str_eq kind "identity"

is_past_term : Search → Fact → Bool
is_past_term q f =
    str_eq f.term "short"
    && elim (q.read_time f.created) [ none ↦ false | some t ↦ ltb (t + short_term) q.now ]

-- the WHERE clause
unfoldable pub is_selected : Search → String → Fact → Bool
unfolding is_visible is_past_term is_vital
is_selected q viewer f =
    f.active
    && is_visible viewer f
    && not (is_past_term q f)
    && (is_vital f.flags f.importance f.kind || q.text_matches f || q.near f || q.newest f)

unfoldable pub row_candidate : Search → Fact → Candidate
row_candidate q f = record {
  id = f.id;
  content = f.content;
  kind = f.kind;
  importance = f.importance;
  flags = f.flags;
  era = f.era;
  created = f.created;
  sim = q.similarity f;
}

unfoldable pub entry_candidate : Entry → Candidate
entry_candidate e = record {
  id = e.id;
  content = e.content;
  kind = e.kind;
  importance = e.importance;
  flags = e.flags;
  era = e.era;
  created = e.created;
  sim = none;
}

unfoldable pub pg_candidates : Search → String → Memory → Option (List Candidate)
unfolding is_selected row_candidate
pg_candidates q viewer s =
    if is_stale facts_store s.marks || q.raises
    then none
    else some (map (row_candidate q) (sort_by q.row_before (keep (is_selected q viewer) s.facts)))

abbrev past_cues : List String
past_cues =
    "used" ∷ "before" ∷ "back" ∷ "then" ∷ "old" ∷ "earlier" ∷ "remember" ∷ "when" ∷ "history"
    ∷ "past" ∷ "childhood" ∷ "younger" ∷ []

unfoldable pub is_reaching_for_past : Lexicon → String → Bool
is_reaching_for_past lex message = any (λ w. str_in (lex.lower w) past_cues) (lex.split message)

-- `max(sims)`, or none
unfoldable pub top_sim : List Candidate → Option ℕ
unfolding max
top_sim [] = none
top_sim (c ∷ cs) = elim c.sim [
  | none ↦ top_sim cs
  | some a ↦ elim (top_sim cs) [ none ↦ some a | some b ↦ some (max a b) ]
]

-- 0.12 in ten-thousandths
abbrev sim_floor : ℕ
sim_floor = 1200

-- the top match, when it clears the floor
unfoldable pub is_direct : Option ℕ → Option ℕ → Bool
is_direct none top = false
is_direct (some sim) none = false
is_direct (some sim) (some top) = leb sim_floor sim && leb top sim

unfoldable pub overlap : Lexicon → String → Candidate → ℕ
unfolding words shared
overlap lex message c = length (shared (words lex message) (words lex c.content))

unfoldable pub is_hidden : Lexicon → String → Option ℕ → Candidate → Bool
unfolding has_flag overlap is_direct
is_hidden lex message top c =
    has_flag discretion_flags c.flags && ltb (overlap lex message c) 2 && not (is_direct c.sim top)

abbrev unit : ℕ
unit = 10000

sim_score : Option ℕ → ℕ
sim_score none = 0
sim_score (some sim) = if ltb sim_floor sim then sim * 25 else 0

-- The score in ten-thousandths, five above the source's, whose least is minus five.
unfoldable pub score : Lexicon → String → Bool → Candidate → ℕ
unfolding overlap has_flag sim_score
score lex message reaching c =
    overlap lex message c * 10 * unit
    + (if str_eq c.importance "high" then 5 * unit else 0)
    + sim_score c.sim
    + (if str_eq c.era "past" then if reaching then 11 * unit else 0 else 3 * unit)
    + (if has_flag ("fun" ∷ "sentimental" ∷ "milestone" ∷ []) c.flags
        then if reaching then 6 * unit else 0
        else 2 * unit)

joined_size : Lexicon → List String → ℕ
joined_size lex [] = 0
joined_size lex (f ∷ []) = lex.size f
joined_size lex (f ∷ g ∷ rest) = lex.size f + 1 + joined_size lex (g ∷ rest)

-- the length of a line: "- ", the content, and the flags as "  [A/B]"
unfoldable pub line_size : Lexicon → Candidate → ℕ
unfolding joined_size is_empty
line_size lex c =
    2 + lex.size c.content + (if is_empty c.flags then 0 else 4 + joined_size lex c.flags)

unfoldable pub used_by : Lexicon → List Candidate → ℕ
used_by lex [] = 0
used_by lex (c ∷ cs) = line_size lex c + 1 + used_by lex cs

-- the ranked lines until one does not fit
unfoldable pub fill : Lexicon → ℕ → ℕ → List Candidate → List Candidate
unfolding line_size
fill lex budget used [] = []
fill lex budget used (c ∷ cs) =
    let rest : List Candidate = fill lex budget (used + line_size lex c + 1) cs in
    if ltb budget (used + line_size lex c) then [] else c ∷ rest

unfoldable pub is_vital_candidate : Candidate → Bool
unfolding is_vital
is_vital_candidate c = is_vital c.flags c.importance c.kind

-- newer first, then the higher score first; `newer` compares the texts of `created`
unfoldable pub rank : Lexicon → (String → String → Bool) → String → List Candidate → List Candidate
unfolding score is_reaching_for_past
rank lex newer message cs =
    sort_by
      (λ a b.
        ltb (score lex message (is_reaching_for_past lex message) b)
          (score lex message (is_reaching_for_past lex message) a))
      (sort_by (λ a b. newer a.created b.created) cs)

unfoldable pub ranked :
    Lexicon → (String → String → Bool) → String → List Candidate → List Candidate
unfolding rank is_vital_candidate is_hidden top_sim
ranked lex newer message cs =
    rank lex newer message
      (keep (λ c. not (is_vital_candidate c) && not (is_hidden lex message (top_sim cs) c)) cs)

-- the lines of the block, in order
unfoldable pub block_lines :
    Lexicon → (String → String → Bool) → String → ℕ → List Candidate → List Candidate
unfolding ranked fill used_by is_vital_candidate
block_lines lex newer message budget cs =
    let vital : List Candidate = keep is_vital_candidate cs in
    vital ++ fill lex budget (used_by lex vital) (ranked lex newer message cs)

-- the rows when the database answers; else the file, for the owner alone
unfoldable pub or_file :
    Option (List Candidate) → Search → Sync → String → Memory → List Candidate × Memory
unfolding active_entries entry_candidate
or_file (some rows) q sync viewer s = (rows, s)
or_file none q sync viewer s =
    let (live, s') : List Entry × Memory = active_entries q.read_time q.now sync s in
    if str_eq viewer owner then (map entry_candidate live, s') else ([], s)

unfoldable pub candidates : Bool → Search → Sync → Context → Memory → List Candidate × Memory
unfolding or_file
candidates on_pg q sync c s =
    or_file (if on_pg then pg_candidates q c.person s else none) q sync c.person s

unfoldable pub build_context :
    Lexicon
    → (String → String → Bool)
    → Bool
    → Search
    → Sync
    → Context
    → String
    → ℕ
    → Memory
    → List Candidate × Memory
unfolding candidates block_lines
build_context lex newer on_pg q sync c message budget s =
    let (cs, s') : List Candidate × Memory = candidates on_pg q sync c s in
    (block_lines lex newer message budget cs, s')
