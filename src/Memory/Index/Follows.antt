-- ===== src/Memory/Index/Follows.antt =====
-- The entries that each operation of memory/engine.py reports as changed, the ids and the targets.
use kyraan.Base.{
  String, Bool, true, false, none, some, List, [], ◌∷◌, ◌++◌, ◌≡◌, ◌∙◌, ap, ◌⊎◌, inl, inr, str_eq,
  str_in, All, All-map, map, keep, arith, eq_iff, Bool-cases, Option-cases,
}
use mathlib.Core.Option
use kyraan.Base.Table.{
  find, IsUnique, IsUnique-map, IsUnique-append, find-map, find-append, All-found,
}
use kyraan.Memory.{Entry, entry_id}
use kyraan.Memory.Facts.Held.{Stored}
use kyraan.Memory.Facts.Tracks.{Follows}

module _ (test : Entry → Bool) (g : Entry → Entry) (same_id : (e : Entry) → (g e).id ≡ e.id)
    (same_target : (e : Entry) → (g e).target ≡ e.target)
    (same_else : (e : Entry) → test e ≡ false → g e ≡ e) where
  listed :
      (k : String) (es : List Entry) (e : Entry)
      → find entry_id k es ≡ some e
      → test e ≡ true
      → str_in k (map entry_id (map g (keep test es))) ≡ true
  unfolding find str_in
  listed k [] e h t = absurd (cc h)
  listed k (x ∷ es) e h t = elim (Bool-cases (str_eq x.id k)) [
    | inl same ↦
        let eq : x ≡ e = ground (arith, same, h) in
        let t' : test x ≡ true = ap test eq ∙ t in
        ground (arith, same, t', same_id x, eq_iff x.id k, eq_iff (g x).id k)
    | inr other ↦
        let rest : str_in k (map entry_id (map g (keep test es))) ≡ true =
          listed k es e (ground (arith, other, h)) t in
        elim (Bool-cases (test x)) [
          | inl kept ↦ ground (arith, kept, rest)
          | inr dropped ↦ ground (arith, dropped, rest)
        ]
  ]

  stored_in :
      (all part : List Entry)
      → All (Stored all) part
      → All (Stored (map g all)) (map g (keep test part))
  stored_in all [] h = tt
  stored_in all (e ∷ part) (here, later) = elim (Bool-cases (test e)) [
    | inl kept ↦ rw kept (
      ap (λ j. find entry_id j (map g all)) (same_id e)
          ∙ find-map entry_id e.id g all same_id
          ∙ ap (Option.map g) here,
      stored_in all part later,
    )
    | inr dropped ↦ rw dropped (stored_in all part later)
  ]

  kept_in :
      (es : List Entry) (k : String) (e : Entry)
      → find entry_id k es ≡ some e
      → (e' : Entry) × (find entry_id k (map g es) ≡ some e')
        × (e'.target ≡ e.target)
        × ((str_in k (map entry_id (map g (keep test es))) ≡ true) ⊎ (e' ≡ e))
  kept_in es k e h = (
    g e,
    find-map entry_id k g es same_id ∙ ap (Option.map g) h,
    same_target e,
    elim (Bool-cases (test e)) [ inl t ↦ inl (listed k es e h t) | inr t ↦ inr (same_else e t) ],
  )

  from_old :
      (es : List Entry) (k : String) (e' : Entry)
      → find entry_id k (map g es) ≡ some e'
      → (e : Entry) × (find entry_id k es ≡ some e)
  from_old es k e' h = elim (Option-cases (find entry_id k es)) [
    | inl missing ↦ absurd (ground (arith, h, missing, find-map entry_id k g es same_id))
    | inr known ↦ known
  ]

  pub Follows-map :
      (es : List Entry) → IsUnique entry_id es → Follows es (map g es) (map g (keep test es))
  Follows-map es u = record {
    unique = IsUnique-map entry_id g es same_id u;
    stored = stored_in es es (All-found entry_id es u);
    kept = kept_in es;
    origin = λ k e' h. inr (from_old es k e' h);
  }

  -- with one entry more, whose id is new
  pub Follows-append :
      (es : List Entry) (new : Entry)
      → IsUnique entry_id es
      → find entry_id new.id es ≡ none
      → Follows es (map g es ++ new ∷ []) (new ∷ map g (keep test es))
  unfolding str_in
  Follows-append es new u fresh =
      let absent : find entry_id new.id (map g es) ≡ none =
        find-map entry_id new.id g es same_id ∙ ap (Option.map g) fresh in
      record {
        unique =
            IsUnique-append entry_id (map g es) new (IsUnique-map entry_id g es same_id u) absent;
        stored = (
          found absent,
          All-map (map g (keep test es)) (λ e h. older e.id e h)
              (stored_in es es (All-found entry_id es u)),
        );
        kept = λ k e h. let (e', a, t, d) = kept_in es k e h in (e', older k e' a, t, later k d);
        origin = origin;
      }
    where
      found :
          find entry_id new.id (map g es) ≡ none
          → find entry_id new.id (map g es ++ new ∷ []) ≡ some new
      found absent =
          ground (arith, absent, find-append entry_id new.id (map g es) new, eq_iff new.id new.id)

      older :
          (k : String) (e : Entry)
          → find entry_id k (map g es) ≡ some e
          → find entry_id k (map g es ++ new ∷ []) ≡ some e
      older k e h = ground (arith, h, find-append entry_id k (map g es) new)

      origin :
          (k : String) (e' : Entry)
          → find entry_id k (map g es ++ new ∷ []) ≡ some e'
          → (str_in k (map entry_id (new ∷ map g (keep test es))) ≡ true)
            ⊎ ((e : Entry) × (find entry_id k es ≡ some e))
      origin k e' h = elim (Option-cases (find entry_id k (map g es))) [
        | inr (x, a) ↦ inr (from_old es k x a)
        | inl missing ↦ elim (Bool-cases (str_eq new.id k)) [
          | inl same ↦ inl (ground (arith, same))
          | inr other ↦
              absurd (ground (arith, h, missing, other, find-append entry_id k (map g es) new))
        ]
      ]

      later :
          {e e' : Entry} (k : String)
          → (str_in k (map entry_id (map g (keep test es))) ≡ true) ⊎ (e' ≡ e)
          → (str_in k (map entry_id (new ∷ map g (keep test es))) ≡ true) ⊎ (e' ≡ e)
      later k (inl h) = inl (ground (arith, h))
      later k (inr h) = inr h
