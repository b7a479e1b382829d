-- ===== src/Memory/Facts/Held.antt =====
-- A predicate between entries and their rows through a sync: what every row of the table has in
-- common with the entry of its id.
use kyraan.Base.{
  String, true, false, Option, some, List, [], ◌∷◌, ◌≡◌, refl, sym, ◌∙◌, ap, ◌⊎◌, inl, inr, str_eq,
  str_in, All, map, arith, eq_iff, if◌then◌else◌, Bool-cases, Option-cases, ◌||◌,
}
use kyraan.Base.Table.{
  find, update, find-put, find-update, id-find, IsUnique, IsUnique-put, IsUnique-update,
}
use kyraan.Memory.{Entry, entry_id}
use kyraan.Memory.Facts.{
  Fact, fact_id, new_fact, merge_fact, merged, upsert, upsert_all, link_to, link_all,
}

-- The row of an id, if there is one, belongs to an entry of the index with which it satisfies `P`.
abbrev pub Held : (Entry → Fact → Type 0) → List Entry → List Fact → String → Type 0
Held P entries facts k =
    (f : Fact)
    → find fact_id k facts ≡ some f
    → (e : Entry) × (find entry_id k entries ≡ some e) × P e f

-- the entry stands in the index under its id
abbrev pub Stored : List Entry → Entry → Type 0
Stored entries e = find entry_id e.id entries ≡ some e

id-merged :
    (persons : List String) (embed : String → Option String) (e : Entry) (facts : List Fact)
    → (merged (new_fact persons embed e) (find fact_id e.id facts)).id ≡ e.id
unfolding merged merge_fact new_fact
id-merged persons embed e facts = elim (Option-cases (find fact_id e.id facts)) [
  | inl h ↦ rw h refl
  | inr (f, h) ↦ rw h (id-find fact_id e.id facts f h)
]

pub find-upsert :
    (persons : List String) (embed : String → Option String) (e : Entry) (facts : List Fact)
    (k : String)
    → find fact_id k (upsert persons embed e facts) ≡ (
        if str_eq e.id k
        then some (merged (new_fact persons embed e) (find fact_id e.id facts))
        else find fact_id k facts)
unfolding upsert
find-upsert persons embed e facts k =
    find-put fact_id k (merged (new_fact persons embed e) (find fact_id e.id facts)) facts
    ∙ ap
        (λ (j : String).
          if str_eq j k
          then some (merged (new_fact persons embed e) (find fact_id e.id facts))
          else find fact_id k facts)
        (id-merged persons embed e facts)

pub IsUnique-upsert_all :
    (persons : List String) (embed : String → Option String) (es : List Entry) (facts : List Fact)
    → IsUnique fact_id facts
    → IsUnique fact_id (upsert_all persons embed es facts)
unfolding upsert_all upsert
IsUnique-upsert_all persons embed [] facts u = u
IsUnique-upsert_all persons embed (e ∷ es) facts u =
    IsUnique-upsert_all persons embed es (upsert persons embed e facts)
      (IsUnique-put fact_id (merged (new_fact persons embed e) (find fact_id e.id facts)) facts u)

abbrev pub link : Option String → Fact → Fact
link l f = record f { superseded_by = l }

pub IsUnique-link_all :
    (es : List Entry) (facts : List Fact)
    → IsUnique fact_id facts
    → IsUnique fact_id (link_all es facts)
unfolding link_all
IsUnique-link_all [] facts u = u
IsUnique-link_all (e ∷ es) facts u =
    IsUnique-link_all es (update fact_id e.id (link (link_to e.superseded_by facts)) facts)
      (IsUnique-update fact_id e.id (link (link_to e.superseded_by facts)) facts (λ _. refl) u)

module _ (P : Entry → Fact → Type 0)
    (linked : (e : Entry) (f : Fact) (l : Option String) → P e f → P e (link l f)) where
  Held-link :
      (entries : List Entry) (j : String) (l : Option String) (facts : List Fact) (k : String)
      → Held P entries facts k
      → Held P entries (update fact_id j (link l) facts) k
  Held-link entries j l facts k held f h = elim (Option-cases (find fact_id k facts)) [
    | inl e ↦ ground (arith, e, h, find-update fact_id j k (link l) facts (λ _. refl), eq_iff j k)
    | inr (g, e) ↦ elim (Bool-cases (str_eq j k)) [
      | inl same ↦
          let (e', a, p) = held g e in
          let eq : link l g ≡ f =
            ground (arith, e, h, same, find-update fact_id j k (link l) facts (λ _. refl)) in
          (e', a, rw eq at (linked e' g l p))
      | inr other ↦
          held f (ground (arith, e, h, other, find-update fact_id j k (link l) facts (λ _. refl)))
    ]
  ]

  pub Held-link_all :
      (entries es : List Entry) (facts : List Fact) (k : String)
      → Held P entries facts k
      → Held P entries (link_all es facts) k
  unfolding link_all
  Held-link_all entries [] facts k held = held
  Held-link_all entries (e ∷ es) facts k held =
      Held-link_all entries es (update fact_id e.id (link (link_to e.superseded_by facts)) facts) k
        (Held-link entries e.id (link_to e.superseded_by facts) facts k held)

-- `Q` holds of the rows that stand in the table, `P` of those that are written over them.
module _ (P Q : Entry → Fact → Type 0)
    (fresh : (persons : List String) (embed : String → Option String) (e : Entry)
      → P e (new_fact persons embed e))
    (over : (persons : List String) (embed : String → Option String) (e : Entry) (f : Fact)
      → Q e f
      → P e (merge_fact (new_fact persons embed e) f)) where
  merged_holds :
      (persons : List String) (embed : String → Option String) (entries : List Entry) (e : Entry)
      (facts : List Fact)
      → Stored entries e
      → Held Q entries facts e.id
      → P e (merged (new_fact persons embed e) (find fact_id e.id facts))
  unfolding merged
  merged_holds persons embed entries e facts stored held =
      elim (Option-cases (find fact_id e.id facts)) [
        | inl h ↦ rw h (fresh persons embed e)
        | inr (f, h) ↦
            let (e', a, q) = held f h in
            let same : e' ≡ e = ground (arith, a, stored) in
            rw h (over persons embed e f (rw same at q))
      ]

  pub Held-upsert :
      (persons : List String) (embed : String → Option String) (entries : List Entry) (e : Entry)
      (facts : List Fact) (k : String)
      → Stored entries e
      → Held Q entries facts e.id
      → (str_eq e.id k ≡ true) ⊎ Held P entries facts k
      → Held P entries (upsert persons embed e facts) k
  Held-upsert persons embed entries e facts k stored held either f h =
      elim (Bool-cases (str_eq e.id k)) [
        | inl same ↦
            let eq : merged (new_fact persons embed e) (find fact_id e.id facts) ≡ f =
              ground (arith, same, h, find-upsert persons embed e facts k) in
            let key : e.id ≡ k = (eq_iff e.id k).0 same in
            (
              e,
              sym (ap (λ j. find entry_id j entries) key) ∙ stored,
              rw eq at (merged_holds persons embed entries e facts stored held),
            )
        | inr other ↦
            old either other (ground (arith, other, h, find-upsert persons embed e facts k))
      ]
    where
      old :
          (str_eq e.id k ≡ true) ⊎ Held P entries facts k
          → str_eq e.id k ≡ false
          → find fact_id k facts ≡ some f
          → (e' : Entry) × (find entry_id k entries ≡ some e') × P e' f
      old (inl same) other g = absurd (cc (same, other))
      old (inr held') other g = held' f g

-- The rows of the entries that are synced come to satisfy `P`; the others keep what they had. `kept`
-- carries `Q`, which holds of all rows throughout.
module _ (P Q : Entry → Fact → Type 0)
    (fresh : (persons : List String) (embed : String → Option String) (e : Entry)
      → P e (new_fact persons embed e))
    (fresh_q : (persons : List String) (embed : String → Option String) (e : Entry)
      → Q e (new_fact persons embed e))
    (over : (persons : List String) (embed : String → Option String) (e : Entry) (f : Fact)
      → Q e f
      → P e (merge_fact (new_fact persons embed e) f))
    (over_q : (persons : List String) (embed : String → Option String) (e : Entry) (f : Fact)
      → Q e f
      → Q e (merge_fact (new_fact persons embed e) f)) where
  pub Held-upsert_all :
      (persons : List String) (embed : String → Option String) (entries es : List Entry)
      (facts : List Fact)
      → All (Stored entries) es
      → ((k : String) → Held Q entries facts k)
      → (k : String) → (str_in k (map entry_id es) ≡ true) ⊎ Held P entries facts k
      → Held P entries (upsert_all persons embed es facts) k
  unfolding upsert_all str_in
  Held-upsert_all persons embed entries [] facts stored kept k (inl h) = absurd (cc h)
  Held-upsert_all persons embed entries [] facts stored kept k (inr held) = held
  Held-upsert_all persons embed entries (e ∷ es) facts (here, later) kept k either =
      Held-upsert_all persons embed entries es (upsert persons embed e facts) later
        (λ j.
          Held-upsert Q Q fresh_q over_q persons embed entries e facts j here (kept e.id)
            (inr (kept j)))
        k (step either)
    where
      step :
          (str_eq e.id k || str_in k (map entry_id es) ≡ true) ⊎ Held P entries facts k
          → (str_in k (map entry_id es) ≡ true) ⊎ Held P entries (upsert persons embed e facts) k
      step (inr held) =
          inr
            (Held-upsert P Q fresh over persons embed entries e facts k here (kept e.id) (inr held))
      step (inl h) = elim (Bool-cases (str_eq e.id k)) [
        | inl same ↦
            inr (
              Held-upsert P Q fresh over persons embed entries e facts k here (kept e.id)
                (inl same))
        | inr other ↦ inl (ground (arith, other, h))
      ]
