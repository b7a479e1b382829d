-- ===== src/Base/Members.antt =====
-- Membership in a list as a type that says where, and how the list operations keep members.
use mathlib.Core.Path.{◌≡◌, ap, ◌∙◌}
use mathlib.Core.Logic.{◌⊎◌, inl, inr}
use mathlib.Core.Bool.{Bool, true}
use mathlib.Core.List.{List, [], ◌∷◌, ◌++◌, map}
use kyraan.Base.Tests.{Bool-cases}
use kyraan.Base.Lists.{keep, insert_by, sort_by}

module _ {A : Type 0} where
  abbrev pub Has : A → List A → Type 0
  Has x [] = ⊥
  Has x (y ∷ ys) = (y ≡ x) ⊎ Has x ys

  pub Has-append : (x : A) (xs ys : List A) → Has x xs → Has x (xs ++ ys)
  Has-append x [] ys h = absurd h
  Has-append x (y ∷ xs) ys (inl here) = inl here
  Has-append x (y ∷ xs) ys (inr there) = inr (Has-append x xs ys there)

  pub Has-keep : (x : A) (p : A → Bool) (xs : List A) → p x ≡ true → Has x xs → Has x (keep p xs)
  Has-keep x p [] t h = absurd h
  Has-keep x p (y ∷ xs) t (inl same) = let e : p y ≡ true = ap p same ∙ t in rw e (inl same)
  Has-keep x p (y ∷ xs) t (inr there) = elim (Bool-cases (p y)) [
    | inl kept ↦ rw kept (inr (Has-keep x p xs t there))
    | inr dropped ↦ rw dropped (Has-keep x p xs t there)
  ]

  module _ (before : A → A → Bool) where
    behind :
        (x y z : A) (xs : List A)
        → ((x ≡ z) ⊎ Has z xs → Has z (insert_by before x xs))
        → (x ≡ z) ⊎ ((y ≡ z) ⊎ Has z xs)
        → (y ≡ z) ⊎ Has z (insert_by before x xs)
    behind x y z xs rest (inl same) = inr (rest (inl same))
    behind x y z xs rest (inr (inl here)) = inl here
    behind x y z xs rest (inr (inr there)) = inr (rest (inr there))

    Has-insert_by : (x z : A) (xs : List A) → (x ≡ z) ⊎ Has z xs → Has z (insert_by before x xs)
    unfolding insert_by
    Has-insert_by x z [] h = h
    Has-insert_by x z (y ∷ xs) h = elim (Bool-cases (before y x)) [
      | inl first ↦ rw first (behind x y z xs (Has-insert_by x z xs) h)
      | inr later ↦ rw later h
    ]

    inserted :
        (x z : A) (xs : List A)
        → (Has z xs → Has z (sort_by before xs))
        → (x ≡ z) ⊎ Has z xs
        → Has z (insert_by before x (sort_by before xs))
    inserted x z xs rest (inl same) = Has-insert_by x z (sort_by before xs) (inl same)
    inserted x z xs rest (inr there) = Has-insert_by x z (sort_by before xs) (inr (rest there))

    pub Has-sort_by : (z : A) (xs : List A) → Has z xs → Has z (sort_by before xs)
    unfolding sort_by
    Has-sort_by z [] h = h
    Has-sort_by z (x ∷ xs) h = inserted x z xs (Has-sort_by z xs) h

pub Has-map : {A B : Type 0} (f : A → B) (x : A) (xs : List A) → Has x xs → Has (f x) (map f xs)
Has-map f x [] h = absurd h
Has-map f x (y ∷ xs) (inl same) = inl (ap f same)
Has-map f x (y ∷ xs) (inr there) = inr (Has-map f x xs there)
