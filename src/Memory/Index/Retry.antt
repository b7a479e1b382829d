-- ===== src/Memory/Index/Retry.antt =====
-- Adding a fact twice, as a promotion that is tried again does.
use kyraan.Base.{
  String, true, false, ◌&&◌, Option, none, some, List, [], ◌∷◌, ◌++◌, ◌≡◌, refl, ◌∙◌, ap, inl, inr,
  str_eq, map, arith, eq_iff, Bool-cases,
}
use kyraan.Kernel.Context.{Context}
use kyraan.Memory.{Entry, Target, Lexicon, same_target}
use kyraan.Memory.Facts.{Memory, Sync}
use kyraan.Memory.Facts.Saves.{entries-save_and_mirror}
use kyraan.Memory.Index.{
  NewFact, Fate, untouched, superseded, disputed, fate, apply_fate, settle_old, touched_old,
  new_entry, author_of, find_same, add_unknown, add_fact,
}

still_unknown :
    (id clean : String) (target : Target) (f : Entry → Fate) (es : List Entry)
    → find_same clean target es ≡ none
    → find_same clean target (map (λ e. apply_fate id (f e) e) es) ≡ none
unfolding find_same
still_unknown id clean target f [] h = refl
still_unknown id clean target f (e ∷ es) h =
    elim (Bool-cases (e.active && same_target e.target target && str_eq e.content clean)) [
      | inl hit ↦ absurd (ground (arith, h, hit))
      | inr miss ↦
          let rest : find_same clean target es ≡ none = ground (arith, h, miss) in
          head (f e) miss (still_unknown id clean target f es rest)
    ]
  where
    head :
        (x : Fate)
        → (e.active && same_target e.target target && str_eq e.content clean) ≡ false
        → find_same clean target (map (λ y. apply_fate id (f y) y) es) ≡ none
        → find_same clean target (apply_fate id x e ∷ map (λ y. apply_fate id (f y) y) es) ≡ none
    head untouched miss rest = unfold apply_fate in rw miss rest
    head superseded miss rest = unfold apply_fate in rest
    head disputed miss rest = unfold apply_fate in rw miss rest

find_same-append :
    (clean : String) (target : Target) (es : List Entry) (new : Entry)
    → find_same clean target es ≡ none
    → (new.active && same_target new.target target && str_eq new.content clean) ≡ true
    → find_same clean target (es ++ new ∷ []) ≡ some new
unfolding find_same
find_same-append clean target [] new h hit = ground (arith, hit)
find_same-append clean target (e ∷ es) new h hit =
    elim (Bool-cases (e.active && same_target e.target target && str_eq e.content clean)) [
      | inl old ↦ absurd (ground (arith, h, old))
      | inr miss ↦ rw miss (find_same-append clean target es new (ground (arith, h, miss)) hit)
    ]

new_is_same :
    (lex : Lexicon) (id created author : String) (n : NewFact) (es : List Entry)
    → ((new_entry lex id created author n es).active
        && same_target (new_entry lex id created author n es).target n.target
        && str_eq (new_entry lex id created author n es).content (lex.bare n.content))
      ≡ true
unfolding new_entry same_target
new_is_same lex id created author n es = ground (
  arith,
  eq_iff n.target.category n.target.category,
  eq_iff n.target.name n.target.name,
  eq_iff (lex.bare n.content) (lex.bare n.content),
)

-- the fact is known to the memory that the first call leaves
found_again :
    (lex : Lexicon) (sync : Sync) (author id created : String) (n : NewFact) (s : Memory)
    (known : Option Entry)
    → find_same (lex.bare n.content) n.target s.entries ≡ known
    → (e : Entry) × (find_same
          (lex.bare n.content)
          n.target
          (add_unknown lex sync author id created n s known).2.entries
        ≡ some e)
      × (e.id ≡ (add_unknown lex sync author id created n s known).0)
unfolding add_unknown
found_again lex sync author id created n s (some e) h = (e, h, refl)
found_again lex sync author id created n s none h =
    let new : Entry = new_entry lex id created author n s.entries in
    (
      new,
      ap (find_same (lex.bare n.content) n.target) (
            entries-save_and_mirror sync
              (settle_old lex id author n.supersedes s.entries ++ new ∷ [])
              (new ∷ touched_old lex id author n.supersedes s.entries) s)
          ∙ find_same-append (lex.bare n.content) n.target
              (settle_old lex id author n.supersedes s.entries) new
              (unfold settle_old in
                still_unknown id (lex.bare n.content) n.target (fate lex author n.supersedes)
                  s.entries h)
              (new_is_same lex id created author n s.entries),
      unfold new_entry in refl,
    )

-- A second call with the same fact, by whomever and whenever, gives the id of the first, files no
-- dispute and changes nothing, whatever the database did at the first.
pub add_fact_again :
    (lex : Lexicon) (sync sync' : Sync) (c c' : Context) (id id' created created' : String)
    (n : NewFact) (s : Memory)
    → add_fact lex sync' c' id' created' n (add_fact lex sync c id created n s).2
      ≡ ((add_fact lex sync c id created n s).0, [], (add_fact lex sync c id created n s).2)
unfolding add_fact
add_fact_again lex sync sync' c c' id id' created created' n s =
    let s' : Memory =
      (add_unknown lex sync (author_of c) id created n s
        (find_same (lex.bare n.content) n.target s.entries)).2 in
    let (e, known, same) =
      found_again lex sync (author_of c) id created n s
        (find_same (lex.bare n.content) n.target s.entries) refl in
    ap (add_unknown lex sync' (author_of c') id' created' n s') known
    ∙ (unfold add_unknown in ap (λ (i : String). (i, [], s')) same)
