-- ===== src/Models/Spend.antt =====
-- The ledger as a dictionary, and the sums that it keeps.
use kyraan.Base.{
  ℕ, ◌+◌, String, Bool, true, false, ◌&&◌, List, [], ◌∷◌, ◌≡◌, refl, ap, sym, ◌∙◌, str_eq, eq_iff,
  str_eq_self, arith, if◌then◌else◌, Bool-cases, inl, inr,
}
use kyraan.Models.{
  Key, spent, bucket_spent, person_spent, tokens, bucket_tokens, token_warned, parts, parts_eq,
  key_eq, Amounts, Ledger, amount, assign, add_to, Setting, record_cost, record_tokens, Usage,
  or_zero, token_guard,
}

pub parts_eq_self : (xs : List String) → parts_eq xs xs ≡ true
parts_eq_self [] = refl
parts_eq_self (x ∷ xs) = ground (arith, str_eq_self x, parts_eq_self xs)

parts_eq_sound : (xs ys : List String) → parts_eq xs ys ≡ true → xs ≡ ys
parts_eq_sound [] [] h = refl
parts_eq_sound [] (y ∷ ys) h = cc
parts_eq_sound (x ∷ xs) [] h = cc
parts_eq_sound (x ∷ xs) (y ∷ ys) h = ground (arith, h, eq_iff x y, parts_eq_sound xs ys)

-- one key's texts decide: equal keys match the same keys
key_eq_same : (i j k : Key) → key_eq i j ≡ true → key_eq i k ≡ key_eq j k
key_eq_same i j k h = ap (λ p. parts_eq p (parts k)) (parts_eq_sound (parts i) (parts j) h)

key_eq_meet : (i j k : Key) → key_eq i k ≡ true → key_eq j k ≡ true → key_eq i j ≡ true
key_eq_meet i j k h g =
    ap (λ p. parts_eq p (parts j))
      (parts_eq_sound (parts i) (parts k) h ∙ sym (parts_eq_sound (parts j) (parts k) g))
    ∙ parts_eq_self (parts j)

pub amount-assign :
    (k j : Key) (n : ℕ) (l : Amounts)
    → amount k (assign j n l) ≡ (if key_eq j k then n else amount k l)
unfolding amount assign
amount-assign k j n [] = refl
amount-assign k j n ((i, m) ∷ rest) = elim (Bool-cases (key_eq i j)) [
  | inl same ↦
      simp (same, key_eq_same i j k same)
        (elim (Bool-cases (key_eq j k)) [ inl h ↦ rw h | inr h ↦ rw h ])
  | inr apart ↦ simp apart (elim (Bool-cases (key_eq i k)) [
    | inl h ↦ elim (Bool-cases (key_eq j k)) [
      | inl g ↦ ground (arith, apart, key_eq_meet i j k h g)
      | inr g ↦ rw (h, g)
    ]
    | inr h ↦ rw (h, amount-assign k j n rest)
  ])
]

-- only the day's own key is the day's spending
and_false : (b : Bool) → (b && false) ≡ false
and_false true = refl
and_false false = refl

spent-longer : (d x y : String) (rest : List String) → parts_eq (x ∷ y ∷ rest) (d ∷ []) ≡ false
spent-longer d x y rest = and_false (str_eq x d)

pub spent-add_to :
    (d : String) (j : Key) (n : ℕ) (l : Ledger)
    → key_eq j (spent d) ≡ false
    → amount (spent d) (add_to j n l).amounts ≡ amount (spent d) l.amounts
spent-add_to d j n l h =
    amount-assign (spent d) j (amount j l.amounts + n) l.amounts
    ∙ ap (λ b. if b then amount j l.amounts + n else amount (spent d) l.amounts) h

pub spent-today :
    (d today : String) (n : ℕ) (l : Ledger)
    → amount (spent d) (add_to (spent today) n l).amounts
      ≡ (if str_eq today d then amount (spent d) l.amounts + n else amount (spent d) l.amounts)
spent-today d today n l = ground (
  arith,
  eq_iff today d,
  amount-assign (spent d) (spent today) (amount (spent today) l.amounts + n) l.amounts,
)

-- Recording a cost raises the day's spending by it, outside a bucket and on that day, and nothing else.
pub spent-record_cost :
    (d : String) (at : Setting) (cost : ℕ) (l : Ledger)
    → amount (spent d) (record_cost at cost l).amounts ≡ (
        if str_eq at.bucket "" && str_eq at.today d
        then amount (spent d) l.amounts + cost
        else amount (spent d) l.amounts)
unfolding record_cost
spent-record_cost d at cost l = ground (
  arith,
  spent-add_to d (bucket_spent at.bucket at.today) cost l (spent-longer d at.bucket at.today []),
  spent-add_to d (person_spent at.person at.today) cost (add_to (spent at.today) cost l)
      (spent-longer d "person" at.person (at.today ∷ [])),
  spent-today d at.today cost l,
)

pub spent-record_tokens :
    (d : String) (at : Setting) (provider : String) (usage : Usage) (l : Ledger)
    → amount (spent d) (record_tokens at provider usage l).amounts ≡ amount (spent d) l.amounts
unfolding record_tokens
spent-record_tokens d at provider usage l =
    let total : ℕ = or_zero usage.input_tokens + or_zero usage.output_tokens in
    ground (
      arith,
      spent-add_to d (bucket_tokens at.bucket provider at.today) total l
          (spent-longer d at.bucket "tokens" (provider ∷ at.today ∷ [])),
      spent-add_to d (tokens provider at.today) total l
          (spent-longer d "tokens" provider (at.today ∷ [])),
    )

pub spent-token_guard :
    (d today tier : String) (prompt system : ℕ) (l : Ledger)
    → amount (spent d) (token_guard today tier prompt system l).1.amounts
      ≡ amount (spent d) l.amounts
unfolding token_guard
spent-token_guard d today tier prompt system l = ground (
  arith,
  amount-assign (spent d) (token_warned tier today) 1 l.amounts,
  spent-longer d "token_warned" tier (today ∷ []),
)
