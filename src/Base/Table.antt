-- ===== src/Base/Table.antt =====
-- The JSON stores are lists of records with a text `id`. These are the loops over such a list that
-- every store repeats: find the first record of an id, change every record of it, drop it.
use Prim.Native.String.{String}
use mathlib.Core.Path.{◌≡◌, refl, ap}
use mathlib.Core.Bool.{Bool, true, false, not}
use mathlib.Core.Option
use mathlib.Core.Option.{Option, none, some}
use mathlib.Core.List.{List, [], ◌∷◌, ◌++◌, map}
use native.Mathlib.Omega.{arith}
use mathlib.Core.Logic.{inl, inr}
use kyraan.Base.Tests.{if◌then◌else◌, Bool-cases}
use kyraan.Base.Lists.{keep, All}
use kyraan.Base.Texts.{str_eq, str_in, eq_iff}

-- `x is None`
abbrev pub is_absent {ℓ} : {A : Type ℓ} → Option A → Bool
is_absent none = true
is_absent (some x) = false

module _ {ℓ} {A : Type ℓ} (id_of : A → String) where
  -- `next((r for r in records if r["id"] == k), None)`
  unfoldable pub find : String → List A → Option A
  find k [] = none
  find k (r ∷ rs) = if str_eq (id_of r) k then some r else find k rs

  -- `for r in records: if r["id"] == k: r.update(...)`
  unfoldable pub update : String → (A → A) → List A → List A
  update k f [] = []
  update k f (r ∷ rs) = (if str_eq (id_of r) k then f r else r) ∷ update k f rs

  -- `[r for r in records if r["id"] != k]`
  unfoldable pub remove : String → List A → List A
  remove k [] = []
  remove k (r ∷ rs) = let rest = remove k rs in if str_eq (id_of r) k then rest else r ∷ rest

  pub find-update :
      (k j : String) (f : A → A) (rs : List A)
      → ((r : A) → id_of (f r) ≡ id_of r)
      → find j (update k f rs) ≡ (if str_eq k j then Option.map f (find j rs) else find j rs)
  unfolding find update
  find-update k j f [] h = ground arith
  find-update k j f (r ∷ rs) h =
      ground
        (arith, h r, eq_iff (id_of r) k, eq_iff (id_of r) j, eq_iff k j, find-update k j f rs h)

  pub find-remove :
      (k j : String) (rs : List A) → find j (remove k rs) ≡ (if str_eq k j then none else find j rs)
  unfolding find remove
  find-remove k j [] = ground arith
  find-remove k j (r ∷ rs) =
      ground (arith, eq_iff (id_of r) k, eq_iff (id_of r) j, eq_iff k j, find-remove k j rs)

  pub id-find : (k : String) (rs : List A) (r : A) → find k rs ≡ some r → id_of r ≡ k
  unfolding find
  id-find k [] r h = cc
  id-find k (x ∷ rs) r h = ground (arith, eq_iff (id_of x) k, id-find k rs r)

  pub find-append :
      (k : String) (rs : List A) (x : A)
      → find k (rs ++ x ∷ [])
        ≡ elim (find k rs) [ some r ↦ some r | none ↦ if str_eq (id_of x) k then some x else none ]
  unfolding find
  find-append k [] x = ground arith
  find-append k (r ∷ rs) x = ground (arith, find-append k rs x)

  -- `table[r.id] = r`: over the first record of the id, or at the end
  unfoldable pub put : A → List A → List A
  put x [] = x ∷ []
  put x (r ∷ rs) = if str_eq (id_of r) (id_of x) then x ∷ rs else r ∷ put x rs

  -- No two records share an id.
  abbrev pub IsUnique : List A → Type ℓ
  IsUnique [] = Unit
  IsUnique (r ∷ rs) = find (id_of r) rs ≡ none × IsUnique rs

  pub find-put :
      (k : String) (x : A) (rs : List A)
      → find k (put x rs) ≡ (if str_eq (id_of x) k then some x else find k rs)
  unfolding find put
  find-put k x [] = ground arith
  find-put k x (r ∷ rs) =
      ground
        (arith, eq_iff (id_of r) (id_of x), eq_iff (id_of r) k, eq_iff (id_of x) k, find-put k x rs)

  pub find-map :
      (k : String) (f : A → A) (rs : List A)
      → ((r : A) → id_of (f r) ≡ id_of r)
      → find k (map f rs) ≡ Option.map f (find k rs)
  unfolding find
  find-map k f [] h = refl
  find-map k f (r ∷ rs) h = ground (arith, h r, find-map k f rs h)

  pub find-keep :
      (k : String) (ks : List String) (rs : List A)
      → find k (keep (λ r. str_in (id_of r) ks) rs) ≡ (if str_in k ks then find k rs else none)
  unfolding find
  find-keep k ks [] = ground arith
  find-keep k ks (r ∷ rs) = ground (arith, eq_iff (id_of r) k, find-keep k ks rs)

  pub find-absent :
      (k : String) (rs : List A) → str_in k (map id_of rs) ≡ not (is_absent (find k rs))
  unfolding find str_in
  find-absent k [] = refl
  find-absent k (r ∷ rs) = ground (arith, find-absent k rs)

  -- An equation between lookups carries uniqueness over.
  pub IsUnique-put : (x : A) (rs : List A) → IsUnique rs → IsUnique (put x rs)
  unfolding find put
  IsUnique-put x [] u = (refl, tt)
  IsUnique-put x (r ∷ rs) u = elim (Bool-cases (str_eq (id_of r) (id_of x))) [
    | inl same ↦ ground (arith, same, eq_iff (id_of r) (id_of x), u.0, u.1)
    | inr other ↦ rw other (
      ground (
        arith,
        other,
        eq_iff (id_of x) (id_of r),
        eq_iff (id_of r) (id_of x),
        u.0,
        find-put (id_of r) x rs,
      ),
      IsUnique-put x rs u.1,
    )
  ]

  pub IsUnique-map :
      (f : A → A) (rs : List A)
      → ((r : A) → id_of (f r) ≡ id_of r)
      → IsUnique rs
      → IsUnique (map f rs)
  IsUnique-map f [] h u = tt
  IsUnique-map f (r ∷ rs) h u =
      (rw (h r, find-map (id_of r) f rs h, u.0) refl, IsUnique-map f rs h u.1)

  pub IsUnique-update :
      (k : String) (f : A → A) (rs : List A)
      → ((r : A) → id_of (f r) ≡ id_of r)
      → IsUnique rs
      → IsUnique (update k f rs)
  unfolding update
  IsUnique-update k f [] h u = tt
  IsUnique-update k f (r ∷ rs) h u =
      (ground (arith, h r, u.0, find-update k (id_of r) f rs h), IsUnique-update k f rs h u.1)

  pub IsUnique-append :
      (rs : List A) (x : A) → IsUnique rs → find (id_of x) rs ≡ none → IsUnique (rs ++ x ∷ [])
  unfolding find
  IsUnique-append [] x u fresh = (refl, tt)
  IsUnique-append (r ∷ rs) x u fresh = (
    ground (
      arith,
      u.0,
      fresh,
      find-append (id_of r) rs x,
      eq_iff (id_of x) (id_of r),
      eq_iff (id_of r) (id_of x),
    ),
    IsUnique-append rs x u.1 (ground (arith, fresh, eq_iff (id_of r) (id_of x))),
  )

  -- What holds of every record that is found holds of every record.
  pub All-find {κ} :
      {P : A → Type κ} (rs : List A)
      → IsUnique rs
      → ((k : String) (r : A) → find k rs ≡ some r → P r)
      → All P rs
  unfolding find
  All-find [] u h = tt
  All-find (r ∷ rs) u h = (
    h (id_of r) r (ground (arith, eq_iff (id_of r) (id_of r))),
    All-find rs u.1
        (λ k x e. h k x (ground (arith, e, u.0, eq_iff (id_of r) k, ap (λ j. find j rs) refl))),
  )

  -- Every record is found under its id.
  pub All-found : (rs : List A) → IsUnique rs → All (λ r. find (id_of r) rs ≡ some r) rs
  All-found rs u = All-find rs u (λ k r e. rw (id-find k rs r e) e)
