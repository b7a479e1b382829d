-- ===== src/Kernel/Viewer.antt =====
-- Who is looking: `viewer_stage`, `effective_reviewer`, `stage_allows`, `set_viewer`.
use kyraan.Base.{
  String, ◌≡◌, ◌≢◌, ◌⊎◌, inl, inr, Bool, true, false, not, ◌&&◌, ◌||◌, Option, none, some, List, [],
  ◌∷◌, arith, str_eq, str_in, refl, Bool-cases, eq_iff, join, starts_with, if◌then◌else◌,
}
use kyraan.Kernel.Context.{Context}

-- `x or "none"`
unfoldable pub or_none : String → String
or_none x = if str_eq x "" then "none" else x

unfoldable pub set_viewer : String → String → Context → Context
set_viewer person stage c = record c { person = or_none person; stage = or_none stage }

unfoldable pub set_viewer_stage : String → Context → Context
set_viewer_stage stage c =
    let s = or_none stage in
    record c { person = if str_eq s "owner" then "owner" else ""; stage = s }

-- `none` means refuse
unfoldable pub effective_reviewer : Context → Option String
effective_reviewer c =
    if not (str_eq c.person "") && not (str_eq c.person "none")
    then some c.person
    else if str_eq c.stage "owner"
    then some "owner"
    else none

-- `stage_toolsets.get(stage) or []`
toolset : String → List (String × List String) → List String
toolset stage [] = []
toolset stage ((k, names) ∷ rest) = if str_eq k stage then names else toolset stage rest

-- an entry is an exact name, or a prefix that ends at a dot
covers : String → List String → Bool
covers name [] = false
covers name (entry ∷ rest) =
    str_eq name entry || starts_with name (join entry ".") || covers name rest

-- the owner's grants to the person who looks; trouble with the store grants nothing
granted : Context → String → Bool
granted c name = elim (effective_reviewer c) [
  | none ↦ false
  | some person ↦
      if str_eq person "" || str_eq person "owner"
      then false
      else elim (c.grants person) [ none ↦ false | some tools ↦ str_in name tools ]
]

-- `stage_allows(name, stage)`; a stage that is given asks for the role alone, unless it is the viewer's
unfoldable pub stage_allows : Context → String → Option String → Bool
unfolding toolset covers granted
stage_allows c name explicit =
    let stage : String = elim explicit [ none ↦ c.stage | some s ↦ s ] in
    if str_eq stage "owner"
    then true
    else if covers name (toolset stage c.toolsets)
    then true
    else if elim explicit [ none ↦ false | some s ↦ not (str_eq s c.stage) ]
    then false
    else granted c name

reviewer_of_context :
    (c : Context)
    → effective_reviewer c ≡ some "owner"
    → (c.person ≡ "owner") ⊎ (((c.person ≡ "") ⊎ (c.person ≡ "none")) × (c.stage ≡ "owner"))
unfolding effective_reviewer
reviewer_of_context c h =
    ground (arith, eq_iff c.person "", eq_iff c.person "none", eq_iff c.stage "owner")

or_none-cases : (x : String) → ((x ≡ "") × (or_none x ≡ "none")) ⊎ ((x ≢ "") × (or_none x ≡ x))
unfolding or_none
or_none-cases x = ground (arith, eq_iff x "")

none_not_owner : ◌≢◌ {A = String} "none" "owner"
none_not_owner = ground (arith, eq_iff "none" "owner")

-- Only the owner is taken for the owner: memory goes to "owner" if the person who was set is "owner",
-- or nobody was named and the stage is the owner's.
pub reviewer_fail_closed :
    (person stage : String) (c : Context)
    → effective_reviewer (set_viewer person stage c) ≡ some "owner"
    → (person ≡ "owner") ⊎ (((person ≡ "") ⊎ (person ≡ "none")) × (stage ≡ "owner"))
unfolding set_viewer
reviewer_fail_closed person stage c h = ground (
  arith,
  reviewer_of_context (set_viewer person stage c) h,
  or_none-cases person,
  or_none-cases stage,
  none_not_owner,
)

is_owner-or_none : (stage : String) → str_eq (or_none stage) "owner" ≡ str_eq stage "owner"
unfolding or_none
is_owner-or_none stage = elim (Bool-cases (str_eq stage "")) [
  | inl blank ↦ rw ((eq_iff stage "").0 blank)
  | inr named ↦ rw named
]

-- A viewer set by stage alone writes and reads as the owner, or as nobody.
pub reviewer-set_viewer_stage :
    (stage : String) (c : Context)
    → effective_reviewer (set_viewer_stage stage c)
      ≡ (if str_eq stage "owner" then some "owner" else none)
unfolding effective_reviewer set_viewer_stage
reviewer-set_viewer_stage stage c = elim (Bool-cases (str_eq (or_none stage) "owner")) [
  | inl owner ↦ rw owner (rw (← is_owner-or_none stage) (rw owner refl))
  | inr other ↦ rw other (rw (← is_owner-or_none stage) (rw other refl))
]
