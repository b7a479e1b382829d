-- ===== src/Memory/Queue/Owners.antt =====
-- Whose queue a statement enters.
use kyraan.Base.{
  ◌+◌, arith, insert_by, sort_by, ℕ, String, Bool, false, Option, none, some, List, [], ◌∷◌, ◌++◌,
  ◌≡◌, refl, sym, ◌∙◌, ap, inl, inr, str_eq, if◌then◌else◌, Bool-cases,
}
use kyraan.Kernel.Context.{Context}
use kyraan.Kernel.Viewer.{effective_reviewer}
use kyraan.Reviews.{Fingerprints}
use kyraan.Memory.{Target}
use kyraan.Memory.Queue.{
  Meta, facts_of, facts_in, Item, Review, propose_as, propose_fact, pending_facts,
}

-- A call of `propose_fact`.
pub record Proposing : Type 0 where
  pub current : Fingerprints
  pub context : Context
  pub path : String
  pub target : Option Target
  pub content : String
  pub meta : Option Meta
  pub deadline : ℕ

abbrev pub or_same : Option Review → Review → Review
or_same none r = r
or_same (some r') r = r'

abbrev pub propose : Proposing → Review → Option Review
propose p = propose_fact p.current p.context p.path p.target p.content p.meta p.deadline

-- The calls in turn; one that raises leaves the queue as it is.
abbrev pub propose_all : List Proposing → Review → Review
propose_all [] r = r
propose_all (p ∷ ps) r = propose_all ps (or_same (propose p r) r)

abbrev is_statement_of : String → Option Target → Option String → Bool
is_statement_of who none person = false
is_statement_of who (some t) none = false
is_statement_of who (some t) (some person) = str_eq person who

-- What somebody has stated: the lines with a dash of the calls in that person's turns whose path is
-- valid.
abbrev pub stated_by : (String → List String) → String → List Proposing → List String
stated_by dashed who [] = []
stated_by dashed who (p ∷ ps) =
    (if is_statement_of who p.target (effective_reviewer p.context) then dashed p.content else [])
    ++ stated_by dashed who ps

-- how often a line is there
abbrev pub count : String → List String → ℕ
count l [] = 0
count l (x ∷ xs) = (if str_eq x l then 1 else 0) + count l xs

count-append : (l : String) (xs ys : List String) → count l (xs ++ ys) ≡ count l xs + count l ys
count-append l [] ys = omega arith
count-append l (x ∷ xs) ys = omega (arith, count-append l xs ys)

module _ (before : String → String → Bool) (dashed : String → List String) (who l : String) where
  abbrev earlier : Item → Item → Bool
  earlier i j = before i.path j.path

  abbrev own_lines : Item → List String
  own_lines i = if str_eq i.reviewer who then facts_of dashed i.matter else []

  abbrev listed : List Item → ℕ
  listed is = count l (facts_in dashed who is)

  listed-cons : (i : Item) (is : List Item) → listed (i ∷ is) ≡ count l (own_lines i) + listed is
  listed-cons i is = count-append l (own_lines i) (facts_in dashed who is)

  listed-insert_by : (i : Item) (is : List Item) → listed (insert_by earlier i is) ≡ listed (i ∷ is)
  unfolding insert_by
  listed-insert_by i [] = refl
  listed-insert_by i (j ∷ js) = elim (Bool-cases (before j.path i.path)) [
    | inr first ↦ simp first refl
    | inl later ↦
        let e : insert_by earlier i (j ∷ js) ≡ j ∷ insert_by earlier i js = rw later refl in
        ap listed e
        ∙ omega (
          arith,
          listed-cons j (insert_by earlier i js),
          listed-insert_by i js,
          listed-cons i js,
          listed-cons i (j ∷ js),
          listed-cons j js,
        )
  ]

  listed-sort_by : (is : List Item) → listed (sort_by earlier is) ≡ listed is
  unfolding sort_by
  listed-sort_by [] = refl
  listed-sort_by (i ∷ is) = omega (
    arith,
    listed-insert_by i (sort_by earlier is),
    listed-cons i (sort_by earlier is),
    listed-cons i is,
    listed-sort_by is,
  )

  listed-append : (is js : List Item) → listed (is ++ js) ≡ listed is + listed js
  listed-append [] js = omega arith
  listed-append (i ∷ is) js =
      omega (arith, listed-cons i (is ++ js), listed-cons i is, listed-append is js)

  listed-propose_as :
      (p : Proposing) (r : Review) (target : Option Target) (person : Option String)
      → listed
          (or_same
            (propose_as p.current p.path target person p.content p.meta p.deadline r)
            r).pending
        ≡ listed r.pending
          + count l (if is_statement_of who target person then dashed p.content else [])
  unfolding propose_as
  listed-propose_as p r none person = omega arith
  listed-propose_as p r (some target) none = omega arith
  listed-propose_as p r (some target) (some person) =
      listed-append r.pending _
      ∙ ap (λ n. listed r.pending + n)
          (count-append l (if str_eq person who then dashed p.content else []) [] ∙ omega arith)

  listed-propose_all :
      (ps : List Proposing) (r : Review)
      → listed (propose_all ps r).pending ≡ listed r.pending + count l (stated_by dashed who ps)
  unfolding propose_fact
  listed-propose_all [] r = omega arith
  listed-propose_all (p ∷ ps) r =
      let own : List String =
        if is_statement_of who p.target (effective_reviewer p.context)
        then dashed p.content
        else [] in
      omega (
        arith,
        listed-propose_all ps (or_same (propose p r) r),
        listed-propose_as p r p.target (effective_reviewer p.context),
        count-append l own (stated_by dashed who ps),
      )

-- Before the cut to 1500 characters, a person's prompt carries of the queue every line as often as it
-- did before, and as often again as it was stated, with a dash, in that person's turns with a valid
-- path. What a turn of somebody else or of nobody identified states adds nothing.
pub pending_facts_own :
    (before : String → String → Bool) (dashed : String → List String) (who l : String)
    (ps : List Proposing) (r : Review)
    → count l (pending_facts before dashed who (propose_all ps r).pending)
      ≡ count l (pending_facts before dashed who r.pending) + count l (stated_by dashed who ps)
unfolding pending_facts
pending_facts_own before dashed who l ps r =
    listed-sort_by before dashed who l (propose_all ps r).pending
    ∙ listed-propose_all before dashed who l ps r
    ∙ ap (λ n. n + count l (stated_by dashed who ps))
        (sym (listed-sort_by before dashed who l r.pending))
