-- ===== src/Memory/Facts/Settle.antt =====
-- `save_and_mirror` on table and index, through the branches of `mirror_entries`.
use kyraan.Base.{
  String, Bool, true, false, Option, some, List, ◌≡◌, refl, sym, ◌⊎◌, inl, inr, str_in, All, map,
  arith, eq_iff, Bool-cases,
}
use mathlib.Core.Path.{subst}
use kyraan.Base.Table.{find, IsUnique, All-found, find-absent}
use kyraan.Mirror.{Marks, is_stale, mark_stale}
use kyraan.Mirror.Marks.{is_stale-mark_stale, is_stale-clear_stale}
use kyraan.Memory.{Entry, entry_id}
use kyraan.Memory.Facts.{
  Fact, fact_id, Memory, Sync, Outcome, committed, failed, failed_after, facts_store, upsert_all,
  seed_owner, sync_entries, resync, defer_sync, settle_sync,
}
use kyraan.Memory.Facts.Held.{
  Held, Stored, Held-upsert_all, Held-link_all, IsUnique-upsert_all, IsUnique-link_all,
}
use kyraan.Memory.Facts.Rows.{HasRow, HasRow-upsert_all, HasRow-link_all}
use kyraan.Memory.Facts.Tracks.{
  Filed, Matches, Present, Tracks, Filed-new_fact, Filed-merge_fact, Matches-new_fact,
  Matches-merge_fact,
}

-- What holds of the memory between the save of the index and the sync of the table: `due` are the ids
-- whose rows may be behind.
pub record Saved (due : String → Type 0) (s : Memory) : Type 0 where
  pub unique_entries : IsUnique entry_id s.entries
  pub unique_facts : IsUnique fact_id s.facts
  pub filed : (k : String) → Held Filed s.entries s.facts k
  pub in_step :
      is_stale facts_store s.marks ≡ false → (k : String) → due k ⊎ Held Matches s.entries s.facts k
  pub complete :
      is_stale facts_store s.marks ≡ false → (k : String) → due k ⊎ Present s.entries s.facts k

Matches-link :
    (e : Entry) (f : Fact) (l : Option String)
    → Matches e f
    → Matches e (record f { superseded_by = l })
Matches-link e f l m = record {
  same_content = m.same_content;
  same_active = m.same_active;
  same_kind = m.same_kind;
  same_flags = m.same_flags;
  same_importance = m.same_importance;
  same_term = m.same_term;
}

module _ (embed : String → Option String) (es : List Entry) (s : Memory) where
  IsUnique-sync_entries :
      IsUnique fact_id s.facts → IsUnique fact_id (sync_entries embed es s).facts
  unfolding sync_entries
  IsUnique-sync_entries u =
      IsUnique-link_all es (upsert_all (seed_owner s.persons) embed es s.facts)
        (IsUnique-upsert_all (seed_owner s.persons) embed es s.facts u)

  Filed-sync_entries :
      All (Stored s.entries) es
      → ((k : String) → Held Filed s.entries s.facts k)
      → (k : String) → Held Filed s.entries (sync_entries embed es s).facts k
  unfolding sync_entries
  Filed-sync_entries stored filed k =
      Held-link_all Filed (λ e f l h. h) s.entries es
        (upsert_all (seed_owner s.persons) embed es s.facts) k
        (Held-upsert_all Filed Filed Filed-new_fact Filed-new_fact Filed-merge_fact Filed-merge_fact
          (seed_owner s.persons) embed s.entries es s.facts stored filed k (inr (filed k)))

  Matches-sync_entries :
      All (Stored s.entries) es
      → ((k : String) → Held Filed s.entries s.facts k)
      → (k : String) → (str_in k (map entry_id es) ≡ true) ⊎ Held Matches s.entries s.facts k
      → Held Matches s.entries (sync_entries embed es s).facts k
  unfolding sync_entries
  Matches-sync_entries stored filed k either =
      Held-link_all Matches Matches-link s.entries es
        (upsert_all (seed_owner s.persons) embed es s.facts) k
        (Held-upsert_all Matches Filed Matches-new_fact Filed-new_fact Matches-merge_fact
          Filed-merge_fact (seed_owner s.persons) embed s.entries es s.facts stored filed k either)

  Present-sync_entries :
      (k : String)
      → (str_in k (map entry_id es) ≡ true) ⊎ Present s.entries s.facts k
      → Present s.entries (sync_entries embed es s).facts k
  unfolding sync_entries
  Present-sync_entries k either e h =
      HasRow-link_all es (upsert_all (seed_owner s.persons) embed es s.facts) k
        (HasRow-upsert_all (seed_owner s.persons) embed es s.facts k (row either))
    where
      row :
          (str_in k (map entry_id es) ≡ true) ⊎ Present s.entries s.facts k
          → (str_in k (map entry_id es) ≡ true) ⊎ HasRow s.facts k
      row (inl due) = inl due
      row (inr present) = inr (present e h)

-- A row whose id the index lacks does not exist.
due_or_none :
    (s : Memory) (k : String)
    → Held Filed s.entries s.facts k
    → (str_in k (map entry_id s.entries) ≡ true) ⊎ Held Matches s.entries s.facts k
due_or_none s k filed = elim (Bool-cases (str_in k (map entry_id s.entries))) [
  | inl known ↦ inl known
  | inr unknown ↦ inr (λ f h. let (e, a, _) = filed f h in absurd (contra e a unknown))
]
  where
    contra :
        (e : Entry)
        → find entry_id k s.entries ≡ some e
        → str_in k (map entry_id s.entries) ≡ false
        → ⊥
    contra e a unknown = ground (arith, a, unknown, find-absent entry_id k s.entries)

-- A full sync settles whatever was due.
full_sync :
    (embed : String → Option String) (s : Memory) (k : String)
    → IsUnique entry_id s.entries
    → ((j : String) → Held Filed s.entries s.facts j)
    → Held Matches s.entries (sync_entries embed s.entries s).facts k
full_sync embed s k u filed =
    Matches-sync_entries embed s.entries s (All-found entry_id s.entries u) filed k
      (due_or_none s k (filed k))

full_sync_complete :
    (embed : String → Option String) (s : Memory) (k : String)
    → Present s.entries (sync_entries embed s.entries s).facts k
full_sync_complete embed s k e h =
    Present-sync_entries embed s.entries s k
      (inl (ground (arith, h, find-absent entry_id k s.entries))) e h

resync-Saved :
    {due : String → Type 0} (sync : Sync) (s : Memory)
    → Saved due s
    → Saved due (resync sync s.entries s) × (resync sync s.entries s).entries ≡ s.entries
unfolding resync sync_entries
resync-Saved sync s v = elim (Bool-cases (is_stale facts_store s.marks)) [
  | inl stale ↦ simp stale (
    record {
      unique_entries = v.unique_entries;
      unique_facts = IsUnique-sync_entries sync.embed s.entries s v.unique_facts;
      filed =
          Filed-sync_entries sync.embed s.entries s (All-found entry_id s.entries v.unique_entries)
            v.filed;
      in_step = λ _ k. inr (full_sync sync.embed s k v.unique_entries v.filed);
      complete = λ _ k. inr (full_sync_complete sync.embed s k);
    },
    refl,
  )
  | inr fine ↦ simp fine (v, refl)
]

-- The increment settles the entries that changed.
increment :
    (embed : String → Option String) (changed : List Entry) (s : Memory)
    → All (Stored s.entries) changed
    → is_stale facts_store s.marks ≡ false
    → Saved (λ k. str_in k (map entry_id changed) ≡ true) s
    → Tracks (sync_entries embed changed s)
unfolding sync_entries
increment embed changed s stored fine v = record {
  unique_entries = v.unique_entries;
  unique_facts = IsUnique-sync_entries embed changed s v.unique_facts;
  filed = Filed-sync_entries embed changed s stored v.filed;
  in_step = λ m k. Matches-sync_entries embed changed s stored v.filed k (v.in_step m k);
  complete = λ m k. Present-sync_entries embed changed s k (v.complete m k);
}

-- While the store is marked, nothing is promised of the rows.
pub left_behind :
    {due : String → Type 0} (s s' : Memory)
    → Saved due s
    → s'.entries ≡ s.entries
    → s'.facts ≡ s.facts
    → is_stale facts_store s'.marks ≡ true
    → Tracks s'
left_behind s s' v e f m = record {
  unique_entries = subst (IsUnique entry_id) (sym e) v.unique_entries;
  unique_facts = subst (IsUnique fact_id) (sym f) v.unique_facts;
  filed = λ k.
      subst (λ l. Held Filed l s'.facts k) (sym e)
        (subst (λ l. Held Filed s.entries l k) (sym f) (v.filed k));
  in_step = λ fine. absurd (cc (m, fine));
  complete = λ fine. absurd (cc (m, fine));
}

pub marked :
    (reason : String) (written : Bool) (marks : Marks)
    → written ≡ true
    → is_stale facts_store (mark_stale facts_store reason written marks) ≡ true
marked reason written marks w = ground (
  arith,
  w,
  is_stale-mark_stale facts_store facts_store reason marks,
  eq_iff facts_store facts_store,
)

unmarked :
    (sync : Sync) (s : Memory)
    → sync.written ≡ true
    → is_stale facts_store (resync sync s.entries s).marks ≡ false
unfolding resync
unmarked sync s w = elim (Bool-cases (is_stale facts_store s.marks)) [
  | inl stale ↦ ground (
    arith,
    stale,
    w,
    is_stale-clear_stale facts_store facts_store s.marks,
    eq_iff facts_store facts_store,
  )
  | inr fine ↦ ground (arith, fine)
]

pub settle_sync-Tracks :
    (outcome : Outcome) (sync : Sync) (changed : List Entry) (s : Memory)
    → sync.written ≡ true
    → All (Stored s.entries) changed
    → Saved (λ k. str_in k (map entry_id changed) ≡ true) s
    → Tracks (settle_sync outcome sync changed s).1
unfolding settle_sync
settle_sync-Tracks committed sync changed s w stored v =
    let (v', e) = resync-Saved sync s v in
    increment sync.embed changed (resync sync s.entries s)
      (subst (λ l. All (Stored l) changed) (sym e) stored) (unmarked sync s w) v'
settle_sync-Tracks (failed reason) sync changed s w stored v =
    unfold defer_sync in
    left_behind s (defer_sync sync reason s) v refl refl (marked reason sync.written s.marks w)
settle_sync-Tracks (failed_after reason) sync changed s w stored v =
    let (v', e) = resync-Saved sync s v in
    unfold defer_sync in
    left_behind (resync sync s.entries s) (defer_sync sync reason (resync sync s.entries s)) v' refl
      refl (marked reason sync.written (resync sync s.entries s).marks w)
