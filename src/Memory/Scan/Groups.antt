-- ===== src/Memory/Scan/Groups.antt =====
-- The groups that the validator of memory/consolidate.py lets through.
use kyraan.Base.{
  String, Bool, true, false, not, ◌&&◌, ◌||◌, List, [], ◌∷◌, ◌++◌, ◌≡◌, refl, inl, inr, str_eq,
  str_in, All, All-map, all, length, ltb, arith, Bool-cases,
}
use mathlib.Core.Path.{subst}
use kyraan.Base.Table.{find, is_absent}
use kyraan.Memory.{Entry, entry_id, is_empty}
use kyraan.Memory.Scan.{Group, is_valid_group, validated_groups, scan_duplicates}

abbrev pub members : Group → List String
members g = g.keeps ∷ g.duplicates

-- The fact to keep and the duplicates, at least one, are facts, and the first is none of the others.
pub record IsProper (entries : List Entry) (g : Group) : Type 0 where
  pub found : is_absent (find entry_id g.keeps entries) ≡ false
  pub has_some : is_empty g.duplicates ≡ false
  pub others :
      All (λ d. is_absent (find entry_id d entries) ≡ false × str_eq d g.keeps ≡ false) g.duplicates

-- The groups have no fact in common.
abbrev pub Apart : Group → Group → Type 0
Apart g h = All (λ i. str_in i (members g) ≡ false) (members h)

abbrev pub AllApart : List Group → Type 0
AllApart [] = Unit
AllApart (g ∷ gs) = All (Apart g) gs × AllApart gs

All-of-all {ℓ} :
    {A : Type ℓ} (p : A → Bool) (xs : List A) → all p xs ≡ true → All (λ x. p x ≡ true) xs
All-of-all p [] h = tt
All-of-all p (x ∷ xs) h = (ground (arith, h), All-of-all p xs (ground (arith, h)))

in-append : (k : String) (xs ys : List String) → str_in k (xs ++ ys) ≡ (str_in k xs || str_in k ys)
unfolding str_in
in-append k [] ys = refl
in-append k (x ∷ xs) ys = ground (arith, in-append k xs ys)

record IsNew (entries : List Entry) (claimed : List String) (g : Group) : Type 0 where
  pub proper : IsProper entries g
  pub unclaimed : All (λ i. str_in i claimed ≡ false) (members g)

IsNew-group :
    (entries : List Entry) (claimed : List String) (g : Group)
    → is_valid_group entries claimed g ≡ true
    → IsNew entries claimed g
unfolding is_valid_group
IsNew-group entries claimed g h = record {
  proper = record {
    found = ground (arith, h);
    has_some = ground (arith, h);
    others =
        All-map g.duplicates (λ d (e : _). (ground (arith, e), ground (arith, e)))
          (All-of-all (λ d. not (is_absent (find entry_id d entries)) && not (str_eq d g.keeps))
            g.duplicates (ground (arith, h)));
  };
  unclaimed =
      All-map (members g) (λ i (e : not (str_in i claimed) ≡ true). ground (arith, e))
        (All-of-all (λ i. not (str_in i claimed)) (members g) (ground (arith, h)));
}

unclaim :
    (entries : List Entry) (claimed : List String) (g h : Group)
    → IsNew entries (members g ++ claimed) h
    → IsNew entries claimed h × Apart g h
unclaim entries claimed g h n = (
  record {
    proper = n.proper;
    unclaimed =
        All-map (members h)
          (λ i (e : str_in i (members g ++ claimed) ≡ false).
            ground (arith, e, in-append i (members g) claimed))
          n.unclaimed;
  },
  All-map (members h)
      (λ i (e : str_in i (members g ++ claimed) ≡ false).
        ground (arith, e, in-append i (members g) claimed))
      n.unclaimed,
)

passed :
    (entries : List Entry) (claimed : List String) (g : Group) (raw : List Group)
    → is_valid_group entries claimed g ≡ true
    → g ∷ validated_groups entries (members g ++ claimed) raw
      ≡ validated_groups entries claimed (g ∷ raw)
unfolding validated_groups
passed entries claimed g raw h = ground (arith, h)

refused :
    (entries : List Entry) (claimed : List String) (g : Group) (raw : List Group)
    → is_valid_group entries claimed g ≡ false
    → validated_groups entries claimed raw ≡ validated_groups entries claimed (g ∷ raw)
unfolding validated_groups
refused entries claimed g raw h = ground (arith, h)

IsNew-groups :
    (entries : List Entry) (claimed : List String) (raw : List Group)
    → All (IsNew entries claimed) (validated_groups entries claimed raw)
      × AllApart (validated_groups entries claimed raw)
unfolding validated_groups
IsNew-groups entries claimed [] = (tt, tt)
IsNew-groups entries claimed (g ∷ raw) = elim (Bool-cases (is_valid_group entries claimed g)) [
  | inl valid ↦
      let (rest, apart) = IsNew-groups entries (members g ++ claimed) raw in
      subst (λ gs. All (IsNew entries claimed) gs × AllApart gs)
        (passed entries claimed g raw valid)
        (
          (
            IsNew-group entries claimed g valid,
            All-map _ (λ d n. (unclaim entries claimed g d n).0) rest,
          ),
          (All-map _ (λ d n. (unclaim entries claimed g d n).1) rest, apart),
        )
  | inr bad ↦
      subst (λ gs. All (IsNew entries claimed) gs × AllApart gs) (refused entries claimed g raw bad)
        (IsNew-groups entries claimed raw)
]

-- Whatever the model answers, every group of duplicates that the owner is asked about keeps one of the
-- given facts and names at least one other of them, none of which is the one that is kept; and no fact
-- stands in two groups.
pub scan_duplicates_apart :
    (entries : List Entry) (raw : List Group)
    → All (IsProper entries) (scan_duplicates entries raw) × AllApart (scan_duplicates entries raw)
unfolding scan_duplicates
scan_duplicates_apart entries raw = elim (Bool-cases (ltb (length entries) 2)) [
  | inl few ↦ rw few (tt, tt)
  | inr enough ↦
      let (rest, apart) = IsNew-groups entries [] raw in
      rw enough (All-map _ (λ g (n : IsNew entries [] g). n.proper) rest, apart)
]
