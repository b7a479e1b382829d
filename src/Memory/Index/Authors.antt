-- ===== src/Memory/Index/Authors.antt =====
-- Entries under facts that other people add.
use kyraan.Base.{
  String, Option, none, some, List, [], ◌∷◌, ◌++◌, ◌≡◌, ◌≢◌, refl, sym, ◌∙◌, ap, All, map, arith,
  eq_iff,
}
use mathlib.Core.Option
use mathlib.Core.Path.{subst}
use kyraan.Base.Table.{find, find-map, find-append}
use kyraan.Kernel.Context.{Context}
use kyraan.Memory.{Entry, entry_id, Lexicon}
use kyraan.Memory.Facts.{Memory, Sync}
use kyraan.Memory.Facts.Saves.{entries-save_and_mirror}
use kyraan.Memory.Index.{
  NewFact, Fate, untouched, superseded, disputed, fate, apply_fate, settle_old, touched_old,
  new_entry, author_of, find_same, add_unknown, add_fact,
}
use kyraan.Memory.Index.Runs.{apply_fate_id}

-- The entry stands as it did, but for its flags.
abbrev pub Stands : Entry → Entry → Type 0
Stands a b = b ≡ record a { flags = b.flags }

Stands-trans : (a b c : Entry) → Stands a b → Stands b c → Stands a c
Stands-trans a b c p q = q ∙ ap (λ (x : Entry). record x { flags = c.flags }) p

Stands-apply_fate :
    (id : String) (x : Fate) (e : Entry) → x ≢ superseded → Stands e (apply_fate id x e)
unfolding apply_fate
Stands-apply_fate id untouched e h = refl
Stands-apply_fate id superseded e h = absurd (h refl)
Stands-apply_fate id disputed e h = refl

fate-ne-superseded :
    (lex : Lexicon) (author : String) (old : Option String) (e : Entry)
    → e.author ≢ author
    → fate lex author old e ≢ superseded
unfolding fate
fate-ne-superseded lex author none e other h = absurd (cc h)
fate-ne-superseded lex author (some old) e other h =
    absurd (ground (arith, h, other, eq_iff e.author author))

-- the entry of an id after a fact was added
abbrev Standing : String → Entry → List Entry → Type 0
Standing k e es = (e' : Entry) × (find entry_id k es ≡ some e') × Stands e e'

Standing-add_unknown :
    (lex : Lexicon) (sync : Sync) (author id created : String) (n : NewFact) (s : Memory)
    (known : Option Entry) (k : String) (e : Entry)
    → e.author ≢ author
    → find entry_id k s.entries ≡ some e
    → Standing k e (add_unknown lex sync author id created n s known).2.entries
unfolding add_unknown
Standing-add_unknown lex sync author id created n s (some e') k e other h = (e, h, refl)
Standing-add_unknown lex sync author id created n s none k e other h =
    let g : Entry → Entry = λ x. apply_fate id (fate lex author n.supersedes x) x in
    let new : Entry = new_entry lex id created author n s.entries in
    let there : find entry_id k (map g s.entries) ≡ some (g e) =
      find-map entry_id k g s.entries (λ x. apply_fate_id id (fate lex author n.supersedes x) x)
      ∙ ap (Option.map g) h in
    (
      g e,
      ap (find entry_id k) (
            entries-save_and_mirror sync
              (settle_old lex id author n.supersedes s.entries ++ new ∷ [])
              (new ∷ touched_old lex id author n.supersedes s.entries) s)
          ∙ unfold settle_old in
            ground (arith, there, find-append entry_id k (map g s.entries) new),
      Stands-apply_fate id (fate lex author n.supersedes e) e
          (fate-ne-superseded lex author n.supersedes e other),
    )

-- A fact that somebody's turn adds, with the id and the time that are drawn for it.
pub record Statement : Type 0 where
  pub sync : Sync
  pub context : Context
  pub id : String
  pub created : String
  pub fact : NewFact

abbrev pub add_all : Lexicon → List Statement → Memory → Memory
add_all lex [] s = s
add_all lex (t ∷ ts) s = add_all lex ts (add_fact lex t.sync t.context t.id t.created t.fact s).2

-- However many facts other people add, superseding whatever they like, an entry stays in the index
-- with all that it had, so with its content and author, active or inactive as it was and with its
-- successor: only its flags may change.
pub others_cannot_supersede :
    (lex : Lexicon) (ts : List Statement) (s : Memory) (k : String) (e : Entry)
    → find entry_id k s.entries ≡ some e
    → All (λ t. author_of t.context ≢ e.author) ts
    → (e' : Entry) × (find entry_id k (add_all lex ts s).entries ≡ some e')
      × (e' ≡ record e { flags = e'.flags })
unfolding add_fact
others_cannot_supersede lex [] s k e h _ = (e, h, refl)
others_cannot_supersede lex (t ∷ ts) s k e h (other, rest) =
    let (x, a, st) =
      Standing-add_unknown lex t.sync (author_of t.context) t.id t.created t.fact s
        (find_same (lex.bare t.fact.content) t.fact.target s.entries) k e (λ same. other (sym same))
        h in
    let same_author : x.author ≡ e.author = ap (λ (y : Entry). y.author) st in
    let (e', b, st') =
      others_cannot_supersede lex ts (add_fact lex t.sync t.context t.id t.created t.fact s).2 k x a
        (subst (λ y. All (λ (u : Statement). author_of u.context ≢ y) ts) (sym same_author) rest) in
    (e', b, Stands-trans e x e' st st')
