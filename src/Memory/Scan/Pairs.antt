-- ===== src/Memory/Scan/Pairs.antt =====
-- The conflicts that the validator of memory/conflicts.py lets through.
use kyraan.Base.{
  String, Bool, true, false, Option, none, some, List, [], ◌∷◌, ◌≡◌, ◌≢◌, refl, sym, ◌∙◌, ap, ◌⊎◌,
  inl, inr, All, All-map, length, ltb, arith, eq_iff, Bool-cases, Option-cases,
}
use mathlib.Core.Path.{subst}
use kyraan.Base.Table.{find, id-find}
use kyraan.Memory.{Entry, entry_id}
use kyraan.Memory.Scan.{
  RawPair, Conflict, is_claimed, in_order, judge, validated_pairs, scan_conflicts,
}

-- Both facts are among the entries, by different authors, and the earlier is not the newer of the two.
pub record IsGenuine (before : String → String → Bool) (entries : List Entry) (c : Conflict)
    : Type 0 where
  pub found_earlier : find entry_id c.earlier.id entries ≡ some c.earlier
  pub found_later : find entry_id c.later.id entries ≡ some c.later
  pub other_author : c.earlier.author ≢ c.later.author
  pub ordered : before c.later.created c.earlier.created ≡ false

-- The two are not about the same facts, in either order.
abbrev pub Differ : Conflict → Conflict → Type 0
Differ c d =
    ((c.earlier.id ≡ d.earlier.id × c.later.id ≡ d.later.id) → ⊥)
    × ((c.earlier.id ≡ d.later.id × c.later.id ≡ d.earlier.id) → ⊥)

-- No two conflicts of the list are about the same facts.
abbrev pub AllDiffer : List Conflict → Type 0
AllDiffer [] = Unit
AllDiffer (c ∷ cs) = All (Differ c) cs × AllDiffer cs

-- The pair that a conflict was made of, in one order or the other.
abbrev IsOf : RawPair → Conflict → Type 0
IsOf p c = (c.earlier.id ≡ p.a × c.later.id ≡ p.b) ⊎ (c.earlier.id ≡ p.b × c.later.id ≡ p.a)

-- A genuine conflict about facts that no pair has claimed.
record IsNew (before : String → String → Bool) (entries : List Entry)
    (claimed : List (String × String)) (c : Conflict) : Type 0 where
  pub genuine : IsGenuine before entries c
  pub unclaimed : is_claimed c.earlier.id c.later.id claimed ≡ false
  pub unclaimed_back : is_claimed c.later.id c.earlier.id claimed ≡ false

module _ (before : String → String → Bool)
    (strict : (s t : String) → before s t ≡ true → before t s ≡ false) (entries : List Entry) where
  ordered :
      (claimed : List (String × String)) (p : RawPair) (x y : Entry)
      → find entry_id p.a entries ≡ some x
      → find entry_id p.b entries ≡ some y
      → x.author ≢ y.author
      → is_claimed p.a p.b claimed ≡ false
      → is_claimed p.b p.a claimed ≡ false
      → IsNew before entries claimed (in_order before x y p.reason)
        × IsOf p (in_order before x y p.reason)
  unfolding in_order
  ordered claimed p x y fx fy other u v =
      let ix : x.id ≡ p.a = id-find entry_id p.a entries x fx in
      let iy : y.id ≡ p.b = id-find entry_id p.b entries y fy in
      let gx : find entry_id x.id entries ≡ some x = ap (λ k. find entry_id k entries) ix ∙ fx in
      let gy : find entry_id y.id entries ≡ some y = ap (λ k. find entry_id k entries) iy ∙ fy in
      let ux : is_claimed x.id y.id claimed ≡ false =
        ap (λ k. is_claimed k y.id claimed) ix ∙ ap (λ k. is_claimed p.a k claimed) iy ∙ u in
      let vx : is_claimed y.id x.id claimed ≡ false =
        ap (λ k. is_claimed k x.id claimed) iy ∙ ap (λ k. is_claimed p.b k claimed) ix ∙ v in
      elim (Bool-cases (before y.created x.created)) [
        | inl newer ↦ simp newer (
          record {
            genuine = record {
              found_earlier = gy;
              found_later = gx;
              other_author = λ h. other (sym h);
              ordered = strict y.created x.created newer;
            };
            unclaimed = vx;
            unclaimed_back = ux;
          },
          inr (iy, ix),
        )
        | inr older ↦ simp older (
          record {
            genuine = record {
              found_earlier = gx;
              found_later = gy;
              other_author = other;
              ordered = older;
            };
            unclaimed = ux;
            unclaimed_back = vx;
          },
          inl (ix, iy),
        )
      ]

  judged :
      (claimed : List (String × String)) (p : RawPair) (x y : Option Entry) (c : Conflict)
      → find entry_id p.a entries ≡ x
      → find entry_id p.b entries ≡ y
      → judge before claimed p x y ≡ some c
      → IsNew before entries claimed c × IsOf p c
  unfolding judge
  judged claimed p none y c fx fy h = absurd (cc h)
  judged claimed p (some x) none c fx fy h = absurd (cc h)
  judged claimed p (some x) (some y) c fx fy h =
      let eq : in_order before x y p.reason ≡ c = ground (arith, h) in
      subst (λ d. IsNew before entries claimed d × IsOf p d) eq
        (ordered claimed p x y fx fy (λ same. cc (ground_author same)) (ground (arith, h))
          (ground (arith, h)))
    where
      ground_author : x.author ≡ y.author → false ≡ true
      ground_author same = ground (arith, h, same, eq_iff x.author y.author)

  -- What is new beside one more claim was new before, and is not about the claimed facts.
  unclaim :
      (claimed : List (String × String)) (p : RawPair) (c d : Conflict)
      → IsOf p c
      → IsNew before entries ((p.a, p.b) ∷ claimed) d
      → IsNew before entries claimed d × Differ c d
  unfolding is_claimed
  unclaim claimed p c d of_pair n = (
    record {
      genuine = n.genuine;
      unclaimed = ground (arith, n.unclaimed);
      unclaimed_back = ground (arith, n.unclaimed_back);
    },
    differ of_pair,
  )
    where
      differ : IsOf p c → Differ c d
      differ (inl (a, b)) = (
        λ (e, l). cc (ground_claimed (sym a ∙ e) (sym b ∙ l)),
        λ (e, l). cc (ground_back (sym a ∙ e) (sym b ∙ l)),
      )
        where
          ground_claimed : p.a ≡ d.earlier.id → p.b ≡ d.later.id → false ≡ true
          ground_claimed x y =
              ground (arith, n.unclaimed, x, y, eq_iff p.a d.earlier.id, eq_iff p.b d.later.id)

          ground_back : p.a ≡ d.later.id → p.b ≡ d.earlier.id → false ≡ true
          ground_back x y =
              ground (arith, n.unclaimed_back, x, y, eq_iff p.a d.later.id, eq_iff p.b d.earlier.id)
      differ (inr (a, b)) = (
        λ (e, l). cc (ground_back (sym b ∙ l) (sym a ∙ e)),
        λ (e, l). cc (ground_claimed (sym b ∙ l) (sym a ∙ e)),
      )
        where
          ground_claimed : p.a ≡ d.earlier.id → p.b ≡ d.later.id → false ≡ true
          ground_claimed x y =
              ground (arith, n.unclaimed, x, y, eq_iff p.a d.earlier.id, eq_iff p.b d.later.id)

          ground_back : p.a ≡ d.later.id → p.b ≡ d.earlier.id → false ≡ true
          ground_back x y =
              ground (arith, n.unclaimed_back, x, y, eq_iff p.a d.later.id, eq_iff p.b d.earlier.id)

  skipped :
      (claimed : List (String × String)) (p : RawPair) (raw : List RawPair)
      → judge before claimed p (find entry_id p.a entries) (find entry_id p.b entries) ≡ none
      → validated_pairs before entries claimed (p ∷ raw)
        ≡ validated_pairs before entries claimed raw
  unfolding validated_pairs
  skipped claimed p raw h = ground (arith, h)

  added :
      (claimed : List (String × String)) (p : RawPair) (raw : List RawPair) (c : Conflict)
      → judge before claimed p (find entry_id p.a entries) (find entry_id p.b entries) ≡ some c
      → validated_pairs before entries claimed (p ∷ raw)
        ≡ c ∷ validated_pairs before entries ((p.a, p.b) ∷ claimed) raw
  unfolding validated_pairs
  added claimed p raw c h = ground (arith, h)

  IsNew-pairs :
      (claimed : List (String × String)) (raw : List RawPair)
      → All (IsNew before entries claimed) (validated_pairs before entries claimed raw)
        × AllDiffer (validated_pairs before entries claimed raw)
  unfolding validated_pairs
  IsNew-pairs claimed [] = (tt, tt)
  IsNew-pairs claimed (p ∷ raw) =
      elim (Option-cases
        (judge before claimed p (find entry_id p.a entries) (find entry_id p.b entries))) [
          | inl refused ↦
              subst (λ cs. All (IsNew before entries claimed) cs × AllDiffer cs)
                (sym (skipped claimed p raw refused)) (IsNew-pairs claimed raw)
          | inr (c, passed) ↦
              let (n, of_pair) =
                judged claimed p (find entry_id p.a entries) (find entry_id p.b entries) c refl refl
                  passed in
              let (rest, apart) = IsNew-pairs ((p.a, p.b) ∷ claimed) raw in
              subst (λ cs. All (IsNew before entries claimed) cs × AllDiffer cs)
                (sym (added claimed p raw c passed))
                (
                  (n, All-map _ (λ d h. (unclaim claimed p c d of_pair h).0) rest),
                  (All-map _ (λ d h. (unclaim claimed p c d of_pair h).1) rest, apart),
                )
        ]

  -- Whatever the model answers, every conflict that the scan lets through is between two of the given
  -- facts by different authors, with the older one first, and no two conflicts are about the same two
  -- facts. The condition: the order of the texts of `created` is asymmetric.
  pub scan_conflicts-IsGenuine :
      (raw : List RawPair)
      → All (IsGenuine before entries) (scan_conflicts before entries raw)
        × AllDiffer (scan_conflicts before entries raw)
  unfolding scan_conflicts
  scan_conflicts-IsGenuine raw = elim (Bool-cases (ltb (length entries) 2)) [
    | inl few ↦ rw few (tt, tt)
    | inr enough ↦
        let (rest, apart) = IsNew-pairs [] raw in
        rw enough (All-map _ (λ c (n : IsNew before entries [] c). n.genuine) rest, apart)
  ]
