-- ===== src/Memory/Queue/Resolve.antt =====
-- What a reviewer's decision on a dispute leaves.
use kyraan.Base.{
  String, Bool, true, false, not, none, some, List, [], ◌∷◌, ◌≡◌, ◌≢◌, refl, ◌∙◌, ap, str_in, arith,
  eq_iff, if◌then◌else◌,
}
use mathlib.Core.Option
use mathlib.Core.Path.{subst}
use kyraan.Base.Table.{find, find-remove, remove}
use kyraan.Memory.{Entry, entry_id, Lexicon}
use kyraan.Memory.Facts.{Memory, Sync}
use kyraan.Memory.Index.{
  on_test, change_some, change_if_any, deactivate, forget, is_live, is_live_id, consolidate,
  is_duplicate, superseded_by_kept, clear_flag,
}
use kyraan.Memory.Queue.{Item, Review, dispute, path_of}
use kyraan.Memory.Queue.Decide.{close_dispute, forget_facts, resolve_matter, resolve_dispute}
use kyraan.Memory.Queue.Settled.{find-change_some, find-change_if_any, IsSettled, settled}

-- Both sides of the dispute that a notice is about, as they stand before the decision.
pub record InDispute (old new : Entry) (i : Item) (r : Review) : Type 0 where
  pub notice : i.matter ≡ dispute old.id new.id
  pub found_old : find entry_id old.id r.memory.entries ≡ some old
  pub found_new : find entry_id new.id r.memory.entries ≡ some new
  pub live_old : old.active ≡ true
  pub live_new : new.active ≡ true
  pub distinct : old.id ≢ new.id

-- The new entry and the old one after the decision, and that the notice is gone.
pub record IsResolved (old new : Entry) (i : Item) (keeps_new : Bool) (r : Review) : Type 0 where
  pub new_side : IsSettled new.id new.content keeps_new new.superseded_by r.memory
  pub old_side :
      IsSettled old.id old.content
        (not keeps_new)
        (if keeps_new then some new.id else old.superseded_by)
        r.memory
  pub no_notice : find path_of i.path r.pending ≡ none

module _ (old new : Entry) (i : Item) (r : Review) (d : InDispute old new i r)
    (sync sync' : Sync) where
  -- what the consolidation makes of the two
  merged_old :
      on_test (is_duplicate new.id (old.id ∷ [])) (superseded_by_kept new.id) old
      ≡ record old { active = false; superseded_by = some new.id }
  unfolding on_test superseded_by_kept str_in
  merged_old = ground (arith, d.live_old, d.distinct, eq_iff old.id new.id, eq_iff old.id old.id)

  merged_new : on_test (is_duplicate new.id (old.id ∷ [])) (superseded_by_kept new.id) new ≡ new
  unfolding on_test str_in
  merged_new = ground (arith, d.distinct, eq_iff old.id new.id, eq_iff new.id new.id)

  merged_memory : Memory
  merged_memory =
      change_if_any (is_duplicate new.id (old.id ∷ [])) (superseded_by_kept new.id) sync r.memory

  in_merged :
      (e e' : Entry)
      → find entry_id e.id r.memory.entries ≡ some e
      → on_test (is_duplicate new.id (old.id ∷ [])) (superseded_by_kept new.id) e ≡ e'
      → find entry_id e.id merged_memory.entries ≡ some e'
  unfolding merged_memory
  in_merged e e' h eq =
      find-change_if_any (is_duplicate new.id (old.id ∷ [])) (superseded_by_kept new.id) sync
        r.memory e.id (λ x. unfold superseded_by_kept in refl)
      ∙ ap (Option.map (on_test (is_duplicate new.id (old.id ∷ [])) (superseded_by_kept new.id))) h
      ∙ ap some eq

  named_old : str_in old.id (old.id ∷ new.id ∷ []) ≡ true
  unfolding str_in
  named_old = ground (arith, eq_iff old.id old.id)

  named_new : str_in new.id (old.id ∷ new.id ∷ []) ≡ true
  unfolding str_in
  named_new = ground (arith, eq_iff new.id new.id, eq_iff old.id new.id)

  gone : (items : List Item) → find path_of i.path (remove path_of i.path items) ≡ none
  gone items = ground (arith, find-remove path_of i.path i.path items, eq_iff i.path i.path)

  -- what the decision for the new claim leaves
  approved : Review
  approved = close_dispute sync' old.id new.id i (record r { memory = merged_memory })

  approved-IsResolved : IsResolved old new i true approved
  unfolding approved close_dispute
  approved-IsResolved =
      let o : IsSettled old.id old.content false (some new.id)
          (clear_flag sync' (old.id ∷ new.id ∷ []) "disputed" merged_memory) =
        settled sync' (old.id ∷ new.id ∷ []) merged_memory old.id
          (record old { active = false; superseded_by = some new.id })
          (in_merged old (record old { active = false; superseded_by = some new.id }) d.found_old
            merged_old)
          named_old in
      let n : IsSettled new.id new.content new.active new.superseded_by
          (clear_flag sync' (old.id ∷ new.id ∷ []) "disputed" merged_memory) =
        settled sync' (old.id ∷ new.id ∷ []) merged_memory new.id new
          (in_merged new new d.found_new merged_new) named_new in
      record {
        new_side =
            subst
              (λ b.
                IsSettled new.id new.content b new.superseded_by
                  (clear_flag sync' (old.id ∷ new.id ∷ []) "disputed" merged_memory))
              d.live_new n;
        old_side = o;
        no_notice = gone r.pending;
      }

  -- what the decision against the new claim leaves
  turned_down : (lex : Lexicon) (digest : String → String) → Review
  turned_down lex digest =
      close_dispute sync' old.id new.id i (forget_facts lex digest sync (new.id ∷ []) r).1

  memory-forget_facts :
      (lex : Lexicon) (digest : String → String)
      → (forget_facts lex digest sync (new.id ∷ []) r).1.memory
        ≡ change_some (is_live (new.id ∷ [])) deactivate sync r.memory
  unfolding forget_facts forget
  memory-forget_facts lex digest = ground arith

  in_forgotten :
      (lex : Lexicon) (digest : String → String) (e e' : Entry)
      → find entry_id e.id r.memory.entries ≡ some e
      → on_test (is_live (new.id ∷ [])) deactivate e ≡ e'
      → find entry_id e.id (forget_facts lex digest sync (new.id ∷ []) r).1.memory.entries ≡ some e'
  in_forgotten lex digest e e' h eq =
      ap (λ (m : Memory). find entry_id e.id m.entries) (memory-forget_facts lex digest)
      ∙ find-change_some (is_live (new.id ∷ [])) deactivate sync r.memory e.id
          (λ x. unfold deactivate in refl)
      ∙ ap (Option.map (on_test (is_live (new.id ∷ [])) deactivate)) h
      ∙ ap some eq

  dropped_new : on_test (is_live (new.id ∷ [])) deactivate new ≡ record new { active = false }
  unfolding on_test deactivate str_in
  dropped_new = ground (arith, d.live_new, eq_iff new.id new.id)

  spared_old : on_test (is_live (new.id ∷ [])) deactivate old ≡ old
  unfolding on_test str_in
  spared_old = ground (arith, d.distinct, eq_iff new.id old.id)

  turned_down-IsResolved :
      (lex : Lexicon) (digest : String → String)
      → IsResolved old new i false (turned_down lex digest)
  unfolding turned_down close_dispute
  turned_down-IsResolved lex digest =
      let m : Memory = (forget_facts lex digest sync (new.id ∷ []) r).1.memory in
      let o : IsSettled old.id old.content old.active old.superseded_by
          (clear_flag sync' (old.id ∷ new.id ∷ []) "disputed" m) =
        settled sync' (old.id ∷ new.id ∷ []) m old.id old
          (in_forgotten lex digest old old d.found_old spared_old) named_old in
      record {
        new_side =
            settled sync' (old.id ∷ new.id ∷ []) m new.id (record new { active = false })
              (in_forgotten lex digest new (record new { active = false }) d.found_new dropped_new)
              named_new;
        old_side =
            subst
              (λ b.
                IsSettled old.id old.content b old.superseded_by
                  (clear_flag sync' (old.id ∷ new.id ∷ []) "disputed" m))
              d.live_old o;
        no_notice = gone (forget_facts lex digest sync (new.id ∷ []) r).1.pending;
      }

  -- A decision on a dispute goes through: for the new claim it deactivates the old entry with the new one
  -- as its successor and leaves the new one active; against it the new entry is inactive and the old one
  -- stands. Either way both keep their contents, neither is flagged as disputed, and the notice leaves
  -- the queue, whatever the database did. The condition: both entries are in the index, different and
  -- active.
  pub resolve_dispute-IsResolved :
      (lex : Lexicon) (digest : String → String) (keep_new : Bool)
      → (r' : Review) × (resolve_dispute lex digest sync sync' keep_new i r ≡ some r')
        × IsResolved old new i keep_new r'
  unfolding resolve_dispute
  resolve_dispute-IsResolved lex digest true =
      let live : is_live_id new.id r.memory.entries ≡ true =
        unfold is_live_id in ground (arith, d.found_new, d.live_new) in
      (
        approved,
        ap (λ m. resolve_matter lex digest sync sync' true i m r) d.notice
            ∙ (unfold resolve_matter consolidate approved merged_memory in ground (arith, live)),
        approved-IsResolved,
      )
  resolve_dispute-IsResolved lex digest false = (
    turned_down lex digest,
    ap (λ m. resolve_matter lex digest sync sync' false i m r) d.notice
        ∙ (unfold resolve_matter turned_down in refl),
    turned_down-IsResolved lex digest,
  )
