-- ===== src/Memory/Facts/Tracks.antt =====
-- The invariant that ties the table of facts to the index, and its parts.
use kyraan.Base.{
  String, true, false, Option, some, List, ◌≡◌, refl, sym, ◌∙◌, ap, ◌⊎◌, inl, inr, str_eq, str_in,
  All, map, arith, eq_iff, Bool-cases,
}
use kyraan.Base.Table.{find, IsUnique}
use kyraan.Mirror.{is_stale}
use kyraan.Memory.{Entry, entry_id, owner, Target}
use kyraan.Memory.Facts.{Fact, fact_id, Memory, facts_store, new_fact, merge_fact}
use kyraan.Memory.Facts.Held.{Held, Stored}
use kyraan.Memory.Facts.Rows.{HasRow}

-- A row is about the owner, or about the person after whom its file is named.
abbrev pub IsOwned : Fact → Type 0
IsOwned f = (f.subject ≡ owner) ⊎ (f.target.category ≡ "people" × f.subject ≡ f.target.name)

abbrev pub Filed : Entry → Fact → Type 0
Filed e f = f.target ≡ e.target × IsOwned f

-- The row says what the entry says.
pub record Matches (e : Entry) (f : Fact) : Type 0 where
  pub same_content : f.content ≡ e.content
  pub same_active : f.active ≡ e.active
  pub same_kind : f.kind ≡ e.kind
  pub same_flags : f.flags ≡ e.flags
  pub same_importance : f.importance ≡ e.importance
  pub same_term : f.term ≡ e.term

-- An entry of the id has a row.
abbrev pub Present : List Entry → List Fact → String → Type 0
Present entries facts k = (e : Entry) → find entry_id k entries ≡ some e → HasRow facts k

pub record Tracks (s : Memory) : Type 0 where
  pub unique_entries : IsUnique entry_id s.entries
  pub unique_facts : IsUnique fact_id s.facts
  pub filed : (k : String) → Held Filed s.entries s.facts k
  pub in_step :
      is_stale facts_store s.marks ≡ false → (k : String) → Held Matches s.entries s.facts k
  pub complete : is_stale facts_store s.marks ≡ false → (k : String) → Present s.entries s.facts k

-- An operation changes entries, and reports at least those that it changed; no target ever changes.
pub record Follows (old new changed : List Entry) : Type 0 where
  pub unique : IsUnique entry_id new
  pub stored : All (Stored new) changed
  pub kept :
      (k : String) (e : Entry)
      → find entry_id k old ≡ some e
      → (e' : Entry) × (find entry_id k new ≡ some e')
        × (e'.target ≡ e.target)
        × ((str_in k (map entry_id changed) ≡ true) ⊎ (e' ≡ e))
  pub origin :
      (k : String) (e' : Entry)
      → find entry_id k new ≡ some e'
      → (str_in k (map entry_id changed) ≡ true) ⊎ ((e : Entry) × (find entry_id k old ≡ some e))

IsOwned-subject_for :
    (persons : List String) (embed : String → Option String) (e : Entry)
    → IsOwned (new_fact persons embed e)
unfolding new_fact
IsOwned-subject_for persons embed e = elim (Bool-cases (str_eq e.target.category "people")) [
  | inl people ↦ elim (Bool-cases (str_eq e.target.name owner)) [
    | inl own ↦ inl (ground (arith, people, own))
    | inr other ↦ elim (Bool-cases (str_in e.target.name persons)) [
      | inl known ↦
          inr ((eq_iff e.target.category "people").0 people, ground (arith, people, other, known))
      | inr unknown ↦ inl (ground (arith, people, other, unknown))
    ]
  ]
  | inr no_person ↦ inl (ground (arith, no_person))
]

pub Filed-new_fact :
    (persons : List String) (embed : String → Option String) (e : Entry)
    → Filed e (new_fact persons embed e)
Filed-new_fact persons embed e = (target persons embed e, IsOwned-subject_for persons embed e)
  where
    target :
        (persons : List String) (embed : String → Option String) (e : Entry)
        → (new_fact persons embed e).target ≡ e.target
    target persons embed e = unfold new_fact in refl

pub Filed-merge_fact :
    (persons : List String) (embed : String → Option String) (e : Entry) (f : Fact)
    → Filed e f
    → Filed e (merge_fact (new_fact persons embed e) f)
unfolding merge_fact
Filed-merge_fact persons embed e f (t, owned) = (
  (Filed-new_fact persons embed e).0,
  elim (Bool-cases f.subject_reviewed) [
    | inl reviewed ↦ reviewed_case reviewed owned
    | inr open_subject ↦ open_case open_subject (IsOwned-subject_for persons embed e)
  ],
)
  where
    reviewed_case :
        f.subject_reviewed ≡ true → IsOwned f → IsOwned (merge_fact (new_fact persons embed e) f)
    reviewed_case r (inl h) = inl (ground (arith, r, h))
    reviewed_case r (inr (c, n)) =
        let same : (new_fact persons embed e).target ≡ f.target =
          (Filed-new_fact persons embed e).0 ∙ sym t in
        inr (
          ap (λ (u : Target). u.category) same ∙ c,
          ground (arith, r, n, ap (λ (u : Target). u.name) same),
        )

    open_case :
        f.subject_reviewed ≡ false
        → IsOwned (new_fact persons embed e)
        → IsOwned (merge_fact (new_fact persons embed e) f)
    open_case r (inl h) = inl (ground (arith, r, h))
    open_case r (inr (c, n)) = inr (c, ground (arith, r, n))

pub Matches-new_fact :
    (persons : List String) (embed : String → Option String) (e : Entry)
    → Matches e (new_fact persons embed e)
unfolding new_fact
Matches-new_fact persons embed e = record {
  same_content = refl;
  same_active = refl;
  same_kind = refl;
  same_flags = refl;
  same_importance = refl;
  same_term = refl;
}

pub Matches-merge_fact :
    (persons : List String) (embed : String → Option String) (e : Entry) (f : Fact)
    → Filed e f
    → Matches e (merge_fact (new_fact persons embed e) f)
unfolding merge_fact
Matches-merge_fact persons embed e f _ =
    let m : Matches e (new_fact persons embed e) = Matches-new_fact persons embed e in
    record {
      same_content = m.same_content;
      same_active = m.same_active;
      same_kind = m.same_kind;
      same_flags = m.same_flags;
      same_importance = m.same_importance;
      same_term = m.same_term;
    }
