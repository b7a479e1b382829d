-- ===== src/Memory/Facts/Saves.antt =====
-- A save of the index, with the mirroring behind it, on table and marks.
use kyraan.Base.{
  String, true, false, some, List, [], ◌∷◌, ◌≡◌, refl, sym, ◌∙◌, ap, ◌⊎◌, inl, inr, str_in, All,
  map, ltb, arith, Bool-cases, Option-cases,
}
use mathlib.Core.Path.{subst}
use kyraan.Base.Table.{find}
use kyraan.Mirror.{mark_stale}
use kyraan.Memory.{Entry, entry_id, is_empty}
use kyraan.Memory.Facts.{
  Fact, fact_id, Memory, Sync, Outcome, committed, failed, failed_after, facts_store, sync_entries,
  resync, defer_sync, settle_sync, mirror_entries, save_and_mirror,
}
use kyraan.Memory.Facts.Held.{Held, Stored}
use kyraan.Memory.Facts.Rows.{HasRow}
use kyraan.Memory.Facts.Tracks.{Filed, Matches, Present, Tracks, Follows}
use kyraan.Memory.Facts.Settle.{Saved, settle_sync-Tracks, left_behind, marked}

Filed-Follows :
    {old new changed : List Entry} (facts : List Fact) (k : String)
    → Follows old new changed
    → Held Filed old facts k
    → Held Filed new facts k
Filed-Follows facts k follows held f h =
    let (e, a, (t, owned)) = held f h in
    let (e', a', t', _) = follows.kept k e a in (e', a', (t ∙ sym t', owned))

Matches-Follows :
    {old new changed : List Entry} (facts : List Fact) (k : String)
    → Follows old new changed
    → Held Filed old facts k
    → Held Matches old facts k
    → (str_in k (map entry_id changed) ≡ true) ⊎ Held Matches new facts k
Matches-Follows {old} {new} {changed} facts k follows filed held =
    elim (Option-cases (find fact_id k facts)) [
      | inl missing ↦ inr (λ f h. absurd (cc (missing, h)))
      | inr (f, h) ↦ row f h (held f h)
    ]
  where
    row :
        (f : Fact)
        → find fact_id k facts ≡ some f
        → (e : Entry) × (find entry_id k old ≡ some e) × Matches e f
        → (str_in k (map entry_id changed) ≡ true) ⊎ Held Matches new facts k
    row f h (e, a, m) = settle (follows.kept k e a)
      where
        settle :
            (e' : Entry) × (find entry_id k new ≡ some e')
              × (e'.target ≡ e.target)
              × ((str_in k (map entry_id changed) ≡ true) ⊎ (e' ≡ e))
            → (str_in k (map entry_id changed) ≡ true) ⊎ Held Matches new facts k
        settle (e', a', _, inl due) = inl due
        settle (e', a', _, inr same) =
            inr (λ g h'. (e, a' ∙ ap some same, subst (Matches e) (cc (h, h')) m))

Present-Follows :
    {old new changed : List Entry} (facts : List Fact) (k : String)
    → Follows old new changed
    → Present old facts k
    → (str_in k (map entry_id changed) ≡ true) ⊎ Present new facts k
Present-Follows {old} {new} {changed} facts k follows present =
    elim (Bool-cases (str_in k (map entry_id changed))) [
      | inl due ↦ inl due
      | inr not_due ↦ inr (λ e h. row not_due (follows.origin k e h))
    ]
  where
    row :
        str_in k (map entry_id changed) ≡ false
        → (str_in k (map entry_id changed) ≡ true) ⊎ ((e : Entry) × (find entry_id k old ≡ some e))
        → HasRow facts k
    row not_due (inl due) = absurd (cc (not_due, due))
    row not_due (inr (e, h)) = present e h

saved :
    (new changed : List Entry) (s : Memory)
    → Follows s.entries new changed
    → Tracks s
    → Saved (λ k. str_in k (map entry_id changed) ≡ true) (record s { entries = new })
saved new changed s follows t = record {
  unique_entries = follows.unique;
  unique_facts = t.unique_facts;
  filed = λ k. Filed-Follows s.facts k follows (t.filed k);
  in_step = λ fine k. Matches-Follows s.facts k follows (t.filed k) (t.in_step fine k);
  complete = λ fine k. Present-Follows s.facts k follows (t.complete fine k);
}

-- Nothing changed: nothing was due.
nothing_due :
    (changed : List Entry) (s : Memory)
    → is_empty changed ≡ true
    → Saved (λ k. str_in k (map entry_id changed) ≡ true) s
    → Tracks s
unfolding is_empty str_in
nothing_due [] s e v = record {
  unique_entries = v.unique_entries;
  unique_facts = v.unique_facts;
  filed = v.filed;
  in_step = λ fine k. elim (v.in_step fine k) [ inl h ↦ absurd (cc h) | inr held ↦ held ];
  complete = λ fine k. elim (v.complete fine k) [ inl h ↦ absurd (cc h) | inr present ↦ present ];
}
nothing_due (x ∷ xs) s e v = absurd (cc e)

pub mirror_entries-Tracks :
    (sync : Sync) (changed : List Entry) (s : Memory)
    → sync.enabled ≡ true
    → sync.written ≡ true
    → All (Stored s.entries) changed
    → Saved (λ k. str_in k (map entry_id changed) ≡ true) s
    → Tracks (mirror_entries sync changed s).1
unfolding mirror_entries
mirror_entries-Tracks sync changed s on w stored v = elim (Bool-cases (is_empty changed)) [
  | inl empty ↦ simp (on, empty) (nothing_due changed s empty v)
  | inr some_changed ↦ elim (Bool-cases (ltb sync.now s.breaker_until)) [
    | inl hot ↦
        simp (on, some_changed, hot)
          (left_behind s
            (record s { marks = mark_stale facts_store "breaker open" sync.written s.marks }) v refl
            refl (marked "breaker open" sync.written s.marks w))
    | inr cool ↦
        simp (on, some_changed, cool) (settle_sync-Tracks sync.outcome sync changed s w stored v)
  ]
]

pub save_and_mirror-Tracks :
    (sync : Sync) (new changed : List Entry) (s : Memory)
    → sync.enabled ≡ true
    → sync.written ≡ true
    → Follows s.entries new changed
    → Tracks s
    → Tracks (save_and_mirror sync new changed s)
unfolding save_and_mirror
save_and_mirror-Tracks sync new changed s on w follows t =
    mirror_entries-Tracks sync changed (record s { entries = new }) on w follows.stored
      (saved new changed s follows t)

entries-settle_sync :
    (outcome : Outcome) (sync : Sync) (changed : List Entry) (s : Memory)
    → (settle_sync outcome sync changed s).1.entries ≡ s.entries
unfolding settle_sync resync defer_sync sync_entries
entries-settle_sync committed sync changed s = ground arith
entries-settle_sync (failed reason) sync changed s = refl
entries-settle_sync (failed_after reason) sync changed s = ground arith

-- The file holds what was saved, whatever the connection did.
pub entries-save_and_mirror :
    (sync : Sync) (new changed : List Entry) (s : Memory)
    → (save_and_mirror sync new changed s).entries ≡ new
unfolding save_and_mirror mirror_entries
entries-save_and_mirror sync new changed s =
    ground (arith, entries-settle_sync sync.outcome sync changed (record s { entries = new }))
