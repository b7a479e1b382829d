-- ===== src/Mirror/View.antt =====
-- What a read of the mirrored store serves, after runs of saves.
use kyraan.Base.{
  String, Bool, true, false, Option, none, some, List, [], ◌∷◌, map, ◌≡◌, refl, ◌∙◌, sym, ap,
  str_in, All, arith, eq_iff, if◌then◌else◌, Bool-cases, inl, inr, ltb,
}
use kyraan.Base.Table.{find, put, IsUnique, find-put, find-keep, find-absent}
use mathlib.Core.Option
use mathlib.Core.Path.{subst}
use kyraan.Mirror.{
  Attempt, Outcome, committed, raised, Mirror, is_stale, mark_stale, delete_missing, upsert_all,
  sync_table, settle_mirror, guarded_mirror, save_all, load_rows, records_for_read,
}
use kyraan.Mirror.Marks.{is_stale-mark_stale}

module _ {A : Type 0} (id_of : A → String) (columns : A → A)
    (same_id : (a : A) → id_of (columns a) ≡ id_of a)
    (same_columns : (a : A) → columns (columns a) ≡ columns a) where
  -- the record of an id, as far as the table keeps it
  abbrev pub view : List A → String → Option A
  view records k = Option.map columns (find id_of k records)

  abbrev pub or_else : Option A → Option A → Option A
  or_else none b = b
  or_else (some a) b = some a

  find-delete_missing :
      (k : String) (ks : List String) (rs : List A)
      → find id_of k (delete_missing id_of columns ks rs)
        ≡ (if str_in k ks then find id_of k rs else none)
  unfolding delete_missing find str_in
  find-delete_missing k [] rs = refl
  find-delete_missing k (j ∷ js) rs = find-keep id_of k (j ∷ js) rs

  find-upsert_all :
      (k : String) (rs table : List A)
      → IsUnique id_of rs
      → find id_of k (upsert_all id_of columns rs table) ≡ or_else (view rs k) (find id_of k table)
  unfolding upsert_all find
  find-upsert_all k [] table u = refl
  find-upsert_all k (r ∷ rs) table u = ground (
    arith,
    same_id r,
    eq_iff (id_of r) k,
    eq_iff (id_of (columns r)) k,
    find-put id_of k (columns r) table,
    find-upsert_all k rs (put id_of (columns r) table) u.1,
    ap (find id_of k) refl,
  )

  -- A full sync makes the table answer for every id as the file does.
  pub find-sync_table :
      (k : String) (rs table : List A)
      → IsUnique id_of rs
      → find id_of k (sync_table id_of columns rs table) ≡ view rs k
  unfolding sync_table
  find-sync_table k rs table u = ground (
    arith,
    find-upsert_all k rs (delete_missing id_of columns (map id_of rs) table) u,
    find-delete_missing k (map id_of rs) table,
    find-absent id_of k rs,
  )

  -- An unmarked table answers as the file does.
  abbrev pub InStep : String → Mirror A → Type 0
  InStep kind s = is_stale kind s.marks ≡ false → (k : String) → view s.table k ≡ view s.file k

  stale-mark_stale :
      (kind reason : String) (written : Bool) (s : Mirror A)
      → written ≡ true
      → is_stale kind (mark_stale kind reason written s.marks) ≡ true
  stale-mark_stale kind reason written s w =
      ground (arith, w, is_stale-mark_stale kind kind reason s.marks, eq_iff kind kind)

  view-columns : (o : Option A) → Option.map columns (Option.map columns o) ≡ Option.map columns o
  view-columns none = refl
  view-columns (some a) = rw (same_columns a)

  settle_mirror-InStep :
      (kind : String) (records : List A) (attempt : Attempt A) (outcome : Outcome A) (s : Mirror A)
      → IsUnique id_of records
      → s.file ≡ records
      → attempt.written ≡ true
      → InStep kind (settle_mirror id_of columns kind records attempt outcome s).1
  unfolding settle_mirror
  settle_mirror-InStep kind records attempt committed s u f w _ k =
      ap (Option.map columns) (find-sync_table k records s.table u)
      ∙ view-columns (find id_of k records)
      ∙ ap (λ l. view l k) (sym f)
  settle_mirror-InStep kind records attempt (raised reason rows) s u f w m k =
      ground (arith, m, stale-mark_stale kind reason attempt.written s w)

  guarded_mirror-InStep :
      (kind : String) (records : List A) (attempt : Attempt A) (s : Mirror A)
      → IsUnique id_of records
      → s.file ≡ records
      → attempt.enabled ≡ true
      → attempt.written ≡ true
      → InStep kind (guarded_mirror id_of columns kind records attempt s).1
  unfolding guarded_mirror
  guarded_mirror-InStep kind records attempt s u f e w =
      elim (Bool-cases (ltb attempt.now s.breaker_until)) [
        | inl hot ↦
            simp (e, hot)
              (λ m k. ground (arith, m, stale-mark_stale kind "breaker open" attempt.written s w))
        | inr cool ↦
            simp (e, cool) (settle_mirror-InStep kind records attempt attempt.outcome s u f w)
      ]

  -- A save: the records written to the file and what the mirroring meets.
  abbrev pub Save : Type 0
  Save = List A × Attempt A

  abbrev pub run_saves : String → List Save → Mirror A → Mirror A
  run_saves kind [] s = s
  run_saves kind ((records, attempt) ∷ rest) s =
      run_saves kind rest (save_all id_of columns kind records attempt s)

  -- The specification: a map from ids to records that each save replaces.
  abbrev pub specified : List Save → (String → Option A) → String → Option A
  specified [] m = m
  specified ((records, _) ∷ rest) m = specified rest (view records)

  -- the file has one record of an id, the mirror is on, the disk takes the mark
  abbrev pub Sound : Save → Type 0
  Sound (records, attempt) =
      IsUnique id_of records × attempt.enabled ≡ true × attempt.written ≡ true

  -- The query raised, or returned the table's rows in any order.
  abbrev pub Returned : Option (List A) → Mirror A → Type 0
  Returned none s = Unit
  Returned (some rows) s = (k : String) → view rows k ≡ view s.table k

  save_all-InStep :
      (kind : String) (records : List A) (attempt : Attempt A) (s : Mirror A)
      → Sound (records, attempt)
      → InStep kind (save_all id_of columns kind records attempt s)
  unfolding save_all
  save_all-InStep kind records attempt s (u, e, w) =
      guarded_mirror-InStep kind records attempt (record s { file = records }) u refl e w

  file-settle_mirror :
      (kind : String) (records : List A) (attempt : Attempt A) (outcome : Outcome A) (s : Mirror A)
      → (settle_mirror id_of columns kind records attempt outcome s).1.file ≡ s.file
  unfolding settle_mirror
  file-settle_mirror kind records attempt committed s = refl
  file-settle_mirror kind records attempt (raised reason rows) s = refl

  file-save_all :
      (kind : String) (records : List A) (attempt : Attempt A) (s : Mirror A)
      → (save_all id_of columns kind records attempt s).file ≡ records
  unfolding save_all guarded_mirror
  file-save_all kind records attempt s =
      ground (
        arith,
        file-settle_mirror kind records attempt attempt.outcome (record s { file = records }),
      )

  view-records_for_read :
      (kind : String) (on_pg : Bool) (rows : Option (List A)) (s : Mirror A) (k : String)
      → InStep kind s
      → Returned rows s
      → view (records_for_read kind on_pg rows s) k ≡ view s.file k
  unfolding records_for_read load_rows
  view-records_for_read kind on_pg none s k i r = ground arith
  view-records_for_read kind on_pg (some rows) s k i r = elim (Bool-cases (is_stale kind s.marks)) [
    | inl h ↦ ground (arith, h)
    | inr h ↦ ground (arith, h, r k, i h k)
  ]

  -- After any run of saves, of which any may meet an open breaker or a connection that raises and leaves
  -- the table with any rows, a read gives for every id what the table keeps of the record that the
  -- specification holds: each save replaces the whole map by its records. The conditions: the mirror and
  -- the file agree at the start or the store is marked; each saved file has one record of an id; the
  -- mirror is on and the disk takes the marks; a query returns the table's rows in any order, or raises.
  pub read_refines :
      (kind : String) (saves : List Save) (s : Mirror A) (on_pg : Bool) (rows : Option (List A))
      (k : String)
      → All Sound saves
      → InStep kind s
      → Returned rows (run_saves kind saves s)
      → view (records_for_read kind on_pg rows (run_saves kind saves s)) k
        ≡ specified saves (view s.file) k
  read_refines kind [] s on_pg rows k _ i r = view-records_for_read kind on_pg rows s k i r
  read_refines kind ((records, attempt) ∷ rest) s on_pg rows k (here, later) i r =
      subst
        (λ file.
          view (records_for_read kind on_pg rows (run_saves kind ((records, attempt) ∷ rest) s)) k
          ≡ specified rest (view file) k)
        (file-save_all kind records attempt s)
        (read_refines kind rest (save_all id_of columns kind records attempt s) on_pg rows k later
          (save_all-InStep kind records attempt s here) r)
