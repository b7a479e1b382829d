-- ===== src/Base/Lists.antt =====
-- Lists measured and cut by native numbers, under the library's names, and predicates on lists.
use Prim.Native.Nat.{ℕ, suc, ◌+◌, ◌-◌, ◌<◌, ◌≤◌, zero}
use mathlib.Core.Path.{◌≡◌, refl, ap, sym, ◌∙◌}
use mathlib.Core.Bool.{Bool, true, false, ◌&&◌, ◌||◌}
use mathlib.Core.List.{List, [], ◌∷◌, ◌++◌, map}
use native.Mathlib.Omega.{arith}
use mathlib.Core.Logic.{inl, inr}
use kyraan.Base.Tests.{if◌then◌else◌, leb, leb→le, Bool-cases}

module _ {ℓ} {A : Type ℓ} where
  abbrev pub length : List A → ℕ
  length [] = 0
  length (x ∷ xs) = suc (length xs)

  abbrev pub any : (A → Bool) → List A → Bool
  any p [] = false
  any p (x ∷ xs) = p x || any p xs

  abbrev pub all : (A → Bool) → List A → Bool
  all p [] = true
  all p (x ∷ xs) = p x && all p xs

  -- `[x for x in xs if p(x)]`
  abbrev pub keep : (A → Bool) → List A → List A
  keep p [] = []
  keep p (x ∷ xs) = let rest = keep p xs in if p x then x ∷ rest else rest

  pub length-append : (xs ys : List A) → length (xs ++ ys) ≡ length xs + length ys
  length-append [] ys = omega arith
  length-append (x ∷ xs) ys = omega (arith, length-append xs ys)

module _ {ℓ κ} {A : Type ℓ} (P : A → Type κ) where
  -- Every member satisfies the predicate.
  abbrev pub All : List A → Type κ
  All [] = Unit
  All (x ∷ rest) = P x × All rest

  pub All-append : (front back : List A) → All front → All back → All (front ++ back)
  All-append [] back _ h = h
  All-append (x ∷ front) back (here, there) h = (here, All-append front back there h)

pub All-map {ℓ κ μ} :
    {A : Type ℓ} {P : A → Type κ} {Q : A → Type μ} (xs : List A)
    → ((x : A) → P x → Q x)
    → All P xs
    → All Q xs
All-map [] f h = tt
All-map (x ∷ xs) f h = (f x h.0, All-map xs f h.1)

pub All-map_both {ℓ κ μ ν} :
    {A : Type ℓ} {P : A → Type κ} {Q : A → Type μ} {R : A → Type ν} (xs : List A)
    → ((x : A) → P x → Q x → R x)
    → All P xs
    → All Q xs
    → All R xs
All-map_both [] f p q = tt
All-map_both (x ∷ xs) f p q = (f x p.0 q.0, All-map_both xs f p.1 q.1)

-- `k` more of the same in front
abbrev pub again {ℓ} : {A : Type ℓ} → ℕ → A → List A → List A
again zero x xs = xs
again (suc k) x xs = x ∷ again k x xs

pub again-cons {ℓ} :
    {A : Type ℓ} (k : ℕ) (x : A) (xs : List A) → again k x (x ∷ xs) ≡ x ∷ again k x xs
again-cons zero x xs = refl
again-cons (suc k) x xs = rw (again-cons k x xs)

pub All-again {ℓ κ} :
    {A : Type ℓ} (P : A → Type κ) (k : ℕ) (x : A) (xs : List A)
    → (0 < k → P x)
    → All P xs
    → All P (again k x xs)
All-again P zero x xs p h = h
All-again P (suc k) x xs p h = (p (omega arith), All-again P k x xs (λ _. p (omega arith)) h)

pub length-again {ℓ} :
    {A : Type ℓ} (k : ℕ) (x : A) (xs : List A) → length (again k x xs) ≡ k + length xs
length-again zero x xs = omega arith
length-again (suc k) x xs = omega (arith, length-again k x xs)

module _ {ℓ} {A : Type ℓ} where
  -- `xs[:n]`
  abbrev pub take : ℕ → List A → List A
  take zero xs = []
  take (suc n) [] = []
  take (suc n) (x ∷ xs) = x ∷ take n xs

  -- `xs[n:]`
  abbrev pub drop : ℕ → List A → List A
  drop zero xs = xs
  drop (suc n) [] = []
  drop (suc n) (x ∷ xs) = drop n xs

  pub take-drop : (n : ℕ) (xs : List A) → take n xs ++ drop n xs ≡ xs
  take-drop zero xs = refl
  take-drop (suc n) [] = refl
  take-drop (suc n) (x ∷ xs) = ap (λ l. x ∷ l) (take-drop n xs)

  pub length-drop : (n : ℕ) (xs : List A) → length (drop n xs) ≡ length xs - n
  length-drop zero xs = omega arith
  length-drop (suc n) [] = omega arith
  length-drop (suc n) (x ∷ xs) = omega (arith, length-drop n xs)

  -- `xs[-n:]`, and what `deque(maxlen=n)` and LTRIM keep
  abbrev pub last : ℕ → List A → List A
  last n xs = drop (length xs - n) xs

  pub length-last : (n : ℕ) (xs : List A) → length (last n xs) ≤ n
  length-last n xs = omega (arith, length-drop (length xs - n) xs)

  pub drop-append : (n : ℕ) (xs ys : List A) → n ≤ length xs → drop n (xs ++ ys) ≡ drop n xs ++ ys
  drop-append zero xs ys h = refl
  drop-append (suc n) [] ys h = absurd (omega (arith, h))
  drop-append (suc n) (x ∷ xs) ys h = drop-append n xs ys (omega (arith, h))

  drop-nil : (n : ℕ) → drop n [] ≡ []
  drop-nil zero = refl
  drop-nil (suc n) = refl

  pub drop-drop : (m n : ℕ) (xs : List A) → drop m (drop n xs) ≡ drop (n + m) xs
  drop-drop m zero xs = let e : m ≡ 0 + m = omega arith in ap (λ k. drop k xs) e
  drop-drop m (suc n) [] = drop-nil m ∙ sym (drop-nil (suc n + m))
  drop-drop m (suc n) (x ∷ xs) =
      let e : suc (n + m) ≡ suc n + m = omega arith in
      drop-drop m n xs ∙ ap (λ k. drop k (x ∷ xs)) e

  -- keeping the last `suc n` at each step keeps the last `suc n` of all
  pub last-last :
      (n : ℕ) (xs : List A) (x : A)
      → last (suc n) (last (suc n) xs ++ x ∷ []) ≡ last (suc n) (xs ++ x ∷ [])
  last-last n xs x = elim (Bool-cases (leb (suc n) (length xs))) [
    | inl more ↦
        let long : suc n ≤ length xs = leb→le (suc n) (length xs) more in
        let a : ℕ = length xs - suc n in
        let d : length (last (suc n) xs) ≡ suc n = omega (arith, long, length-drop a xs) in
        let one : length (last (suc n) xs ++ x ∷ []) - suc n ≡ 1 =
          omega (arith, d, length-append (last (suc n) xs) (x ∷ [])) in
        let end : a + 1 ≡ length (xs ++ x ∷ []) - suc n =
          omega (arith, long, length-append xs (x ∷ [])) in
        ap (λ k. drop k (last (suc n) xs ++ x ∷ [])) one
        ∙ drop-append 1 (last (suc n) xs) (x ∷ []) (omega (arith, d))
        ∙ ap (λ l. l ++ x ∷ []) (drop-drop 1 a xs)
        ∙ sym (drop-append (a + 1) xs (x ∷ []) (omega (arith, long)))
        ∙ ap (λ k. drop k (xs ++ x ∷ [])) end
    | inr short ↦
        let none_over : length xs - suc n ≡ 0 = ground (arith, short) in
        ap (λ k. last (suc n) (drop k xs ++ x ∷ [])) none_over
  ]

module _ {ℓ} {A : Type ℓ} (before : A → A → Bool) where
  -- in front of the first that does not come strictly before it
  unfoldable pub insert_by : A → List A → List A
  insert_by x [] = x ∷ []
  insert_by x (y ∷ ys) = if before y x then y ∷ insert_by x ys else x ∷ y ∷ ys

  -- a stable sort
  unfoldable pub sort_by : List A → List A
  unfolding insert_by
  sort_by [] = []
  sort_by (x ∷ xs) = insert_by x (sort_by xs)

module _ {ℓ κ} {A : Type ℓ} (before : A → A → Bool) (P : A → Type κ) where
  All-insert_by : (x : A) (xs : List A) → P x → All P xs → All P (insert_by before x xs)
  unfolding insert_by
  All-insert_by x [] p h = (p, tt)
  All-insert_by x (y ∷ ys) p (q, h) = elim (Bool-cases (before y x)) [
    | inl first ↦ rw first (q, All-insert_by x ys p h)
    | inr later ↦ rw later (p, (q, h))
  ]

  pub All-sort_by : (xs : List A) → All P xs → All P (sort_by before xs)
  unfolding sort_by
  All-sort_by [] h = tt
  All-sort_by (x ∷ xs) (p, h) = All-insert_by x (sort_by before xs) p (All-sort_by xs h)

pub All-keep {ℓ κ} :
    {A : Type ℓ} (P : A → Type κ) (p : A → Bool) (xs : List A) → All P xs → All P (keep p xs)
All-keep P p [] h = tt
All-keep P p (x ∷ xs) (here, there) = elim (Bool-cases (p x)) [
  | inl yes_x ↦ rw yes_x (here, All-keep P p xs there)
  | inr no_x ↦ rw no_x (All-keep P p xs there)
]

-- What is kept passes the test.
pub All-kept {ℓ} : {A : Type ℓ} (p : A → Bool) (xs : List A) → All (λ x. p x ≡ true) (keep p xs)
All-kept p [] = tt
All-kept p (x ∷ xs) = elim (Bool-cases (p x)) [
  | inl yes_x ↦ rw yes_x (yes_x, All-kept p xs)
  | inr no_x ↦ rw no_x (All-kept p xs)
]

pub All-mapped {ℓ κ μ} :
    {A : Type ℓ} {B : Type κ} (Q : B → Type μ) (f : A → B) (xs : List A)
    → All (λ x. Q (f x)) xs
    → All Q (map f xs)
All-mapped Q f [] h = tt
All-mapped Q f (x ∷ xs) (here, there) = (here, All-mapped Q f xs there)
