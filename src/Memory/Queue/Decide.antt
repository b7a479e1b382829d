-- ===== src/Memory/Queue/Decide.antt =====
-- Forgetting a fact with what it does to the queue and the trust counters, and the decision on a dispute.
use kyraan.Base.{
  ℕ, ◌/◌, String, Bool, false, not, ◌&&◌, ◌||◌, Option, none, some, List, [], ◌∷◌, map, keep, any,
  length, ltb, leb, if◌then◌else◌,
}
use kyraan.Base.Table.{remove}
use kyraan.Reviews.{on_forgotten}
use kyraan.Memory.{Lexicon, is_empty, words, is_subset, shared, max}
use kyraan.Memory.Facts.{Memory, Sync}
use kyraan.Memory.Index.{forget, consolidate, clear_flag}
use kyraan.Memory.Queue.{Item, Review, Matter, fact, dispute, path_of}

-- one statement contains the other, or they share enough words
unfoldable pub is_restating : List String → List String → Bool
unfolding max
is_restating body forgotten =
    let smaller : ℕ =
      if ltb (length forgotten) (length body) then length forgotten else length body in
    (leb 3 smaller && (is_subset body forgotten || is_subset forgotten body))
    || leb (max 3 (smaller / 2)) (length (shared body forgotten))

-- a proposal that restates what was forgotten; a dispute notice never does
unfoldable pub is_purged : Lexicon → List String → Matter → Bool
unfolding is_restating
is_purged lex forgotten (dispute a b) = false
is_purged lex forgotten (fact content until meta) =
    not (is_empty (words lex (lex.bare content)))
    && any (λ w. not (is_empty w) && is_restating (words lex (lex.bare content)) w)
        (map (words lex) forgotten)

-- `forget`, with the trust counters and the queue
unfoldable pub forget_facts :
    Lexicon → (String → String) → Sync → List String → Review → List String × Review
unfolding is_purged
forget_facts lex digest sync ids r =
    let (forgotten, memory) : List String × Memory = forget sync ids r.memory in
    (
      forgotten,
      if is_empty forgotten then record r { memory = memory } else record {
        memory = memory;
        pending = keep (λ i. not (is_purged lex forgotten i.matter)) r.pending;
        stats = on_forgotten digest forgotten r.stats;
      },
    )

-- both flags are cleared and the notice is removed; `sync` is the mirroring of the flags
unfoldable pub close_dispute : Sync → String → String → Item → Review → Review
close_dispute sync old new i r = record r {
  memory = clear_flag sync (old ∷ new ∷ []) "disputed" r.memory;
  pending = remove path_of i.path r.pending;
}

kept_new : Option (List String × Memory) → Review → Option Review
kept_new none r = none
kept_new (some m) r = some (record r { memory = m.1 })

closed : Sync → String → String → Item → Option Review → Option Review
unfolding close_dispute
closed sync old new i none = none
closed sync old new i (some r) = some (close_dispute sync old new i r)

-- `resolve_dispute`; `none` is a ValueError: no dispute notice, or a new fact that is no longer active
unfoldable pub resolve_matter :
    Lexicon → (String → String) → Sync → Sync → Bool → Item → Matter → Review → Option Review
unfolding closed kept_new
resolve_matter lex digest sync sync' keep_new i (fact content until meta) r = none
resolve_matter lex digest sync sync' keep_new i (dispute old new) r = closed sync' old new i (
    if keep_new
    then kept_new (consolidate sync new (old ∷ []) r.memory) r
    else some (forget_facts lex digest sync (new ∷ []) r).1)

unfoldable pub resolve_dispute :
    Lexicon → (String → String) → Sync → Sync → Bool → Item → Review → Option Review
unfolding resolve_matter
resolve_dispute lex digest sync sync' keep_new i r =
    resolve_matter lex digest sync sync' keep_new i i.matter r
