-- ===== src/Memory.antt =====
-- The memory of facts: memory/engine.py's entries and how texts are compared by their words. The index
-- file is a list of entries; what Python makes of a text is the argument `Lexicon`.
pub mod Facts
pub mod Index
pub mod Context
pub mod Queue
pub mod Scan
use kyraan.Base.{
  ℕ, String, Bool, true, false, ◌&&◌, Option, List, [], ◌∷◌, ltb, str_eq, str_in, keep, all,
  if◌then◌else◌,
}

-- `people/wife.md` is the category people and the name wife: the shape that `_ALLOWED_PATH` admits.
pub record Target : Type 0 where
  pub category : String
  pub name : String

-- An entry of index.json; one that lacks an author is the owner's.
pub record Entry : Type 0 where
  pub id : String
  pub content : String
  pub target : Target
  pub kind : String
  pub term : String
  pub importance : String
  pub flags : List String
  pub era : String
  pub sphere : String
  pub created : String
  pub source : String
  pub author : String
  pub active : Bool
  pub superseded_by : Option String

abbrev pub entry_id : Entry → String
entry_id e = e.id

-- `split`, strip and lower (`clean`), the endings 's, `w[:-2]`, `len`, `lower`, and `lstrip("- ").strip()`
pub record Lexicon : Type 0 where
  pub split : String → List String
  pub clean : String → String
  pub is_possessive : String → Bool
  pub cut_two : String → String
  pub size : String → ℕ
  pub lower : String → String
  pub bare : String → String

abbrev pub owner : String
owner = "owner"

unfoldable pub same_target : Target → Target → Bool
same_target t u = str_eq t.category u.category && str_eq t.name u.name

unfoldable pub max : ℕ → ℕ → ℕ
max a b = if ltb a b then b else a

-- `entry_words and ...`
unfoldable pub is_empty {ℓ} : {A : Type ℓ} → List A → Bool
is_empty [] = true
is_empty (x ∷ xs) = false

-- A set of texts is a list in which each stands once.
unfoldable pub add_word : String → List String → List String
add_word w ws = if str_in w ws then ws else w ∷ ws

unfoldable pub stem : Lexicon → String → String
stem lex raw = let w : String = lex.clean raw in if lex.is_possessive w then lex.cut_two w else w

unfoldable pub collect_words : Lexicon → List String → List String
unfolding add_word stem
collect_words lex [] = []
collect_words lex (raw ∷ rest) =
    let ws : List String = collect_words lex rest in
    let w : String = stem lex raw in if ltb 2 (lex.size w) then add_word w ws else ws

-- `_words`
unfoldable pub words : Lexicon → String → List String
unfolding collect_words
words lex text = collect_words lex (lex.split text)

-- `xs <= ys` on sets
unfoldable pub is_subset : List String → List String → Bool
is_subset xs ys = all (λ x. str_in x ys) xs

-- `xs & ys` on sets
unfoldable pub shared : List String → List String → List String
shared xs ys = keep (λ x. str_in x ys) xs

-- `_VALID_FLAGS`, in the order of `sorted`
abbrev pub valid_flags : List String
valid_flags =
    "danger" ∷ "disputed" ∷ "emergency" ∷ "emotional" ∷ "fun" ∷ "health" ∷ "milestone" ∷ "safety"
    ∷ "sensitive" ∷ "sentimental" ∷ []

abbrev pub safety_flags : List String
safety_flags = "health" ∷ "safety" ∷ "emergency" ∷ "danger" ∷ []

abbrev pub discretion_flags : List String
discretion_flags = "emotional" ∷ "sensitive" ∷ []

-- `sorted(set(flags) & _VALID_FLAGS)`
unfoldable pub sort_flags : List String → List String
sort_flags flags = keep (λ f. str_in f flags) valid_flags

-- `sorted(set(flags) | {"disputed"})`, for flags that are valid, as every entry's are
unfoldable pub with_disputed : List String → List String
unfolding sort_flags
with_disputed flags = sort_flags ("disputed" ∷ flags)
