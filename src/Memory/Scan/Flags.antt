-- ===== src/Memory/Scan/Flags.antt =====
-- Applying the conflicts that were found.
use kyraan.Base.{
  String, Bool, true, false, ◌&&◌, ◌||◌, Option, some, List, [], ◌∷◌, ◌≡◌, refl, ◌∙◌, ap, inl, inr,
  str_eq, str_in, keep, arith, eq_iff, Bool-cases,
}
use mathlib.Core.Option
use mathlib.Core.Path.{subst}
use kyraan.Base.Table.{find}
use kyraan.Memory.{Entry, entry_id, with_disputed, valid_flags}
use kyraan.Memory.Facts.{Sync}
use kyraan.Memory.Index.{flag_disputed, is_undisputed, dispute, on_test}
use kyraan.Memory.Queue.{Review}
use kyraan.Memory.Queue.Settled.{find-change_if_any}
use kyraan.Memory.Scan.{Conflict, apply_one, apply_conflicts}

in-keep :
    (k : String) (p : String → Bool) (xs : List String)
    → str_in k (keep p xs) ≡ (p k && str_in k xs)
unfolding str_in
in-keep k p [] = ground arith
in-keep k p (x ∷ xs) = elim (Bool-cases (str_eq x k)) [
  | inl same ↦
      let e : p x ≡ p k = ap p ((eq_iff x k).0 same) in
      elim (Bool-cases (p x)) [
        | inl yes_x ↦ ground (arith, same, yes_x, e, in-keep k p xs)
        | inr no_x ↦ ground (arith, same, no_x, e, in-keep k p xs)
      ]
  | inr other ↦ elim (Bool-cases (p x)) [
    | inl yes_x ↦ ground (arith, other, yes_x, in-keep k p xs)
    | inr no_x ↦ ground (arith, other, no_x, in-keep k p xs)
  ]
]

pub disputed-with_disputed : (flags : List String) → str_in "disputed" (with_disputed flags) ≡ true
unfolding with_disputed str_in
disputed-with_disputed flags = in-keep "disputed" (λ f. str_in f ("disputed" ∷ flags)) valid_flags

-- The entry stands as it did, with at most one flag more.
pub record IsFlagged (must : Bool) (a b : Entry) : Type 0 where
  pub same_id : b.id ≡ a.id
  pub same_content : b.content ≡ a.content
  pub same_active : b.active ≡ a.active
  pub same_successor : b.superseded_by ≡ a.superseded_by
  pub disputed_before : str_in "disputed" a.flags ≡ true → str_in "disputed" b.flags ≡ true
  pub disputed_after : must ≡ true → a.active ≡ true → str_in "disputed" b.flags ≡ true

-- is the entry's id one of the conflict's
abbrev pub is_side : Conflict → Entry → Bool
is_side c e = str_eq e.id c.earlier.id || str_eq e.id c.later.id

flag_one :
    (c : Conflict) (e : Entry)
    → IsFlagged (is_side c e) e (on_test (is_undisputed c.earlier.id c.later.id) dispute e)
unfolding on_test dispute
flag_one c e = record {
  same_id = ground arith;
  same_content = ground arith;
  same_active = ground arith;
  same_successor = ground arith;
  disputed_before = λ h. ground (arith, h, disputed-with_disputed e.flags);
  disputed_after = λ side live. ground (arith, side, live, disputed-with_disputed e.flags);
}

-- is the entry a side of one of the conflicts
abbrev pub is_named : List (Conflict × Sync × Option String) → Entry → Bool
is_named [] e = false
is_named ((c, sync, name) ∷ rest) e = is_side c e || is_named rest e

then-IsFlagged :
    {p q : Bool} {a b c : Entry} → IsFlagged p a b → IsFlagged q b c → IsFlagged (p || q) a c
then-IsFlagged {p} {q} f g = record {
  same_id = g.same_id ∙ f.same_id;
  same_content = g.same_content ∙ f.same_content;
  same_active = g.same_active ∙ f.same_active;
  same_successor = g.same_successor ∙ f.same_successor;
  disputed_before = λ h. g.disputed_before (f.disputed_before h);
  disputed_after = λ must live. elim (Bool-cases p) [
    | inl first ↦ g.disputed_before (f.disputed_after first live)
    | inr not_first ↦ g.disputed_after (ground (arith, must, not_first)) (f.same_active ∙ live)
  ];
}

same_sides :
    (cs : List (Conflict × Sync × Option String)) (a b : Entry)
    → b.id ≡ a.id
    → is_named cs b ≡ is_named cs a
same_sides [] a b h = refl
same_sides ((c, sync, name) ∷ rest) a b h = ground (arith, h, same_sides rest a b h)

-- Applying conflicts deletes nothing and hides nothing: every fact keeps its content, stays active or
-- inactive as it was and keeps its successor; every active side of a conflict ends flagged as disputed,
-- and no flag of a dispute is lost. Whatever the database did, and whichever notices could be written.
pub apply_conflicts_flags :
    (stage : String → Option String) (cs : List (Conflict × Sync × Option String)) (r : Review)
    (k : String) (e : Entry)
    → find entry_id k r.memory.entries ≡ some e
    → (e' : Entry) × (find entry_id k (apply_conflicts stage cs r).1.memory.entries ≡ some e')
      × IsFlagged (is_named cs e) e e'
unfolding apply_conflicts
apply_conflicts_flags stage [] r k e h = (
  e,
  h,
  record {
    same_id = refl;
    same_content = refl;
    same_active = refl;
    same_successor = refl;
    disputed_before = λ d. d;
    disputed_after = λ never. absurd (cc never);
  },
)
apply_conflicts_flags stage ((c, sync, name) ∷ rest) r k e h =
    let x : Entry = on_test (is_undisputed c.earlier.id c.later.id) dispute e in
    let flagged : IsFlagged (is_side c e) e x = flag_one c e in
    let there : find entry_id k (apply_one stage sync name c r).memory.entries ≡ some x =
      unfold apply_one flag_disputed in
      find-change_if_any (is_undisputed c.earlier.id c.later.id) dispute sync r.memory k
        (λ y. unfold dispute in refl)
      ∙ ap (Option.map (on_test (is_undisputed c.earlier.id c.later.id) dispute)) h in
    let (e', found, later) =
      apply_conflicts_flags stage rest (apply_one stage sync name c r) k x there in
    (
      e',
      found,
      then-IsFlagged flagged
          (subst (λ b. IsFlagged b x e') (same_sides rest e x flagged.same_id) later),
    )
