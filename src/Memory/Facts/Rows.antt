-- ===== src/Memory/Facts/Rows.antt =====
-- The rows of the entries that are synced.
use kyraan.Base.{
  String, true, false, Option, some, List, [], ◌∷◌, ◌≡◌, refl, ◌⊎◌, inl, inr, str_eq, str_in, ◌||◌,
  map, arith, Bool-cases,
}
use kyraan.Base.Table.{find, update, find-update}
use kyraan.Memory.{Entry, entry_id}
use kyraan.Memory.Facts.{Fact, fact_id, new_fact, merged, upsert, upsert_all, link_to, link_all}
use kyraan.Memory.Facts.Held.{find-upsert, link}

-- The table has a row for the id.
abbrev pub HasRow : List Fact → String → Type 0
HasRow facts k = (f : Fact) × (find fact_id k facts ≡ some f)

HasRow-upsert :
    (persons : List String) (embed : String → Option String) (e : Entry) (facts : List Fact)
    (k : String)
    → (str_eq e.id k ≡ true) ⊎ HasRow facts k
    → HasRow (upsert persons embed e facts) k
HasRow-upsert persons embed e facts k either = elim (Bool-cases (str_eq e.id k)) [
  | inl same ↦ (
    merged (new_fact persons embed e) (find fact_id e.id facts),
    ground (arith, same, find-upsert persons embed e facts k),
  )
  | inr other ↦ old either other
]
  where
    old :
        (str_eq e.id k ≡ true) ⊎ HasRow facts k
        → str_eq e.id k ≡ false
        → HasRow (upsert persons embed e facts) k
    old (inl same) other = absurd (cc (same, other))
    old (inr (f, h)) other = (f, ground (arith, other, h, find-upsert persons embed e facts k))

pub HasRow-upsert_all :
    (persons : List String) (embed : String → Option String) (es : List Entry) (facts : List Fact)
    (k : String)
    → (str_in k (map entry_id es) ≡ true) ⊎ HasRow facts k
    → HasRow (upsert_all persons embed es facts) k
unfolding upsert_all str_in
HasRow-upsert_all persons embed [] facts k (inl h) = absurd (cc h)
HasRow-upsert_all persons embed [] facts k (inr row) = row
HasRow-upsert_all persons embed (e ∷ es) facts k either =
    HasRow-upsert_all persons embed es (upsert persons embed e facts) k (step either)
  where
    step :
        (str_eq e.id k || str_in k (map entry_id es) ≡ true) ⊎ HasRow facts k
        → (str_in k (map entry_id es) ≡ true) ⊎ HasRow (upsert persons embed e facts) k
    step (inr row) = inr (HasRow-upsert persons embed e facts k (inr row))
    step (inl h) = elim (Bool-cases (str_eq e.id k)) [
      | inl same ↦ inr (HasRow-upsert persons embed e facts k (inl same))
      | inr other ↦ inl (ground (arith, other, h))
    ]

pub HasRow-link_all :
    (es : List Entry) (facts : List Fact) (k : String)
    → HasRow facts k
    → HasRow (link_all es facts) k
unfolding link_all
HasRow-link_all [] facts k row = row
HasRow-link_all (e ∷ es) facts k (f, h) =
    HasRow-link_all es (update fact_id e.id (link (link_to e.superseded_by facts)) facts) k
      (elim (Bool-cases (str_eq e.id k)) [
        | inl same ↦ (
          link (link_to e.superseded_by facts) f,
          ground (
            arith,
            same,
            h,
            find-update fact_id e.id k (link (link_to e.superseded_by facts)) facts (λ _. refl),
          ),
        )
        | inr other ↦ (
          f,
          ground (
            arith,
            other,
            h,
            find-update fact_id e.id k (link (link_to e.superseded_by facts)) facts (λ _. refl),
          ),
        )
      ])
