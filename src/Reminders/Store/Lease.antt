-- ===== src/Reminders/Store/Lease.antt =====
-- The delivery lease: who may send a reminder, through any interleaving of the store's operations.
use kyraan.Base.{
  ℕ, ◌+◌, ◌≤◌, ◌<◌, String, ◌≡◌, ◌≢◌, refl, sym, ◌∙◌, ap, ◌⊎◌, inl, inr, Bool, true, false, not,
  ◌||◌, Option, none, some, List, [], ◌∷◌, arith, str_eq, eq_iff, str_eq_ne, All, Bool-cases,
  Option-cases,
}
use mathlib.Core.Option
use mathlib.Core.Path.{subst}
use kyraan.Base.Table.{find, update, find-update, find-remove, find-append}
use kyraan.Calendar.{Moment}
use kyraan.Schedule.{Rule}
use kyraan.Reminders.Defs.{Stamp, moment, Reminder}
use kyraan.Reminders.Store.{
  Records, id_of, add, get, mark_sent, lease_live, claim_record, claim_for_send, release_claim,
  cancel, roll_forward,
}

-- whether the record may be claimed now
pub claimable : ℕ → ℕ → Reminder → Bool
claimable lease now r = not (r.sent || lease_live lease now r.claimed_at)

abbrev pub claimable? : ℕ → ℕ → Option Reminder → Bool
claimable? lease now none = false
claimable? lease now (some r) = claimable lease now r

-- A claim is granted exactly if the record is there, unsent, and under no live lease.
pub claim_granted :
    (id : String) (lease now : ℕ) (rs : Records)
    → (claim_for_send id lease now rs).0 ≡ claimable? lease now (get id rs)
unfolding claim_for_send get find claimable
claim_granted id lease now [] = refl
claim_granted id lease now (r ∷ rs) = ground (arith, claim_granted id lease now rs)

pub claim_refused_same :
    (id : String) (lease now : ℕ) (rs : Records)
    → (claim_for_send id lease now rs).0 ≡ false
    → (claim_for_send id lease now rs).1 ≡ rs
unfolding claim_for_send
claim_refused_same id lease now [] h = refl
claim_refused_same id lease now (r ∷ rs) h = ground (arith, claim_refused_same id lease now rs)

pub get-claim :
    (id : String) (lease now : ℕ) (rs : Records) (r : Reminder)
    → get id rs ≡ some r
    → (claim_for_send id lease now rs).0 ≡ true
    → get id (claim_for_send id lease now rs).1 ≡ some (claim_record lease now r)
unfolding claim_for_send get find
get-claim id lease now [] r e h = cc
get-claim id lease now (x ∷ rs) r e h = ground (arith, eq_iff x.id id, get-claim id lease now rs r)

get-claim_ne :
    (id k : String) (lease now : ℕ) (rs : Records)
    → id ≢ k
    → get k (claim_for_send id lease now rs).1 ≡ get k rs
unfolding claim_for_send get find
get-claim_ne id k lease now [] h = refl
get-claim_ne id k lease now (x ∷ rs) h =
    ground (arith, eq_iff x.id id, eq_iff x.id k, get-claim_ne id k lease now rs h)

-- the operations of the store, by any process
pub data Op : Type 0 where
  claims : String → ℕ → Op
  releases marks_sent cancels : String → Op
  rolls : String → Stamp Moment → ℕ → Op
  adds : String → ℕ → String → Stamp Moment → Rule → Op

pub apply : ℕ → Op → Records → Records
apply lease (claims id now) rs = (claim_for_send id lease now rs).1
apply lease (releases id) rs = release_claim id rs
apply lease (marks_sent id) rs = mark_sent id rs
apply lease (cancels id) rs = (cancel id rs).1
apply lease (rolls id next_when now) rs = roll_forward id next_when now rs
apply lease (adds id chat_id text when_iso rule) rs = (add id chat_id text when_iso rule rs).1

pub run : ℕ → List Op → Records → Records
run lease [] rs = rs
run lease (op ∷ ops) rs = run lease ops (apply lease op rs)

-- The operation does not give up a claim of `k` made at `t`: no release, cancel or roll-forward of `k`,
-- and no claim of `k` under a clock that has gone back before `t`. Other reminders are not constrained.
abbrev pub Leaves : String → ℕ → Op → Type 0
Leaves k t (claims id now) = (id ≢ k) ⊎ (t ≤ now)
Leaves k t (releases id) = id ≢ k
Leaves k t (marks_sent id) = Unit
Leaves k t (cancels id) = id ≢ k
Leaves k t (rolls id _ _) = id ≢ k
Leaves k t (adds _ _ _ _ _) = Unit

-- The record of `k` is sent, or claimed at `t` or later.
record Held (k : String) (t : ℕ) (rs : Records) : Type 0 where
  holder : Reminder
  found : get k rs ≡ some holder
  claim : (holder.sent ≡ true) ⊎ ((t' : ℕ) × (holder.claimed_at ≡ moment t') × (t ≤ t'))

Held-same :
    (k : String) (t : ℕ) (rs rs' : Records) → get k rs' ≡ get k rs → Held k t rs → Held k t rs'
Held-same k t rs rs' e h = record { holder = h.holder; found = e ∙ h.found; claim = h.claim }

get-update_ne :
    (k id : String) (f : Reminder → Reminder) (rs : Records)
    → ((r : Reminder) → (f r).id ≡ r.id)
    → id ≢ k
    → get k (update id_of id f rs) ≡ get k rs
unfolding get
get-update_ne k id f rs h ne = find-update id_of id k f rs h ∙ rw (str_eq_ne id k ne) refl

str_ne : (s t : String) → str_eq s t ≡ false → s ≢ t
str_ne s t h e = ground (arith, eq_iff s t)

Held-claim :
    (k : String) (t lease now : ℕ) (rs : Records)
    → t ≤ now
    → Held k t rs
    → Held k t (claim_for_send k lease now rs).1
Held-claim k t lease now rs le h = elim (Bool-cases (claim_for_send k lease now rs).0) [
  | inl granted ↦ record {
    holder = claim_record lease now h.holder;
    found = get-claim k lease now rs h.holder h.found granted;
    claim = inr (now, refl, le);
  }
  | inr refused ↦ rw (claim_refused_same k lease now rs refused) h
]

get-mark_sent_self :
    (k id : String) (rs : Records) (r : Reminder)
    → str_eq id k ≡ true
    → get k rs ≡ some r
    → get k (mark_sent id rs) ≡ some (record r { sent = true })
unfolding get mark_sent
get-mark_sent_self k id rs r same e =
    find-update id_of id k (λ (x : Reminder). record x { sent = true }) rs (λ x. refl)
    ∙ rw same (ap (Option.map (λ (x : Reminder). record x { sent = true })) e)

get-cancel_ne : (k id : String) (rs : Records) → id ≢ k → get k (cancel id rs).1 ≡ get k rs
unfolding get cancel
get-cancel_ne k id rs ne = find-remove id_of id k rs ∙ rw (str_eq_ne id k ne) refl

get-add :
    (k id : String) (chat_id : ℕ) (text : String) (when_iso : Stamp Moment) (rule : Rule)
    (rs : Records) (r : Reminder)
    → get k rs ≡ some r
    → get k (add id chat_id text when_iso rule rs).1 ≡ some r
unfolding get add
get-add k id chat_id text when_iso rule rs r e = find-append id_of k rs _ ∙ rw e refl

Held-apply :
    (lease : ℕ) (k : String) (t : ℕ) (op : Op) (rs : Records)
    → Leaves k t op
    → Held k t rs
    → Held k t (apply lease op rs)
unfolding apply
Held-apply lease k t (claims id now) rs (inl other) h =
    Held-same k t rs _ (get-claim_ne id k lease now rs other) h
Held-apply lease k t (claims id now) rs (inr le) h = elim (Bool-cases (str_eq id k)) [
  | inl same ↦
      subst (λ x. Held k t (claim_for_send x lease now rs).1) (sym ((eq_iff id k).0 same))
        (Held-claim k t lease now rs le h)
  | inr other ↦ Held-same k t rs _ (get-claim_ne id k lease now rs (str_ne id k other)) h
]
Held-apply lease k t (releases id) rs l h =
    unfold release_claim in Held-same k t rs _ (get-update_ne k id _ rs (λ r. refl) l) h
Held-apply lease k t (marks_sent id) rs l h = elim (Bool-cases (str_eq id k)) [
  | inl same ↦ record {
    holder = record h.holder { sent = true };
    found = get-mark_sent_self k id rs h.holder same h.found;
    claim = inl refl;
  }
  | inr other ↦
      unfold mark_sent in
      Held-same k t rs _ (get-update_ne k id _ rs (λ r. refl) (str_ne id k other)) h
]
Held-apply lease k t (cancels id) rs l h = Held-same k t rs _ (get-cancel_ne k id rs l) h
Held-apply lease k t (rolls id next_when now) rs l h =
    unfold roll_forward in Held-same k t rs _ (get-update_ne k id _ rs (λ r. refl) l) h
Held-apply lease k t (adds id chat_id text when_iso rule) rs l h = record {
  holder = h.holder;
  found = get-add k id chat_id text when_iso rule rs h.holder h.found;
  claim = h.claim;
}

Held-run :
    (lease : ℕ) (k : String) (t : ℕ) (ops : List Op) (rs : Records)
    → All (Leaves k t) ops
    → Held k t rs
    → Held k t (run lease ops rs)
unfolding run
Held-run lease k t [] rs l h = h
Held-run lease k t (op ∷ ops) rs l h =
    Held-run lease k t ops (apply lease op rs) l.1 (Held-apply lease k t op rs l.0 h)

Held-granted :
    (k : String) (lease t : ℕ) (rs : Records)
    → (claim_for_send k lease t rs).0 ≡ true
    → Held k t (claim_for_send k lease t rs).1
Held-granted k lease t rs granted = elim (Option-cases (get k rs)) [
  | inl gone ↦ absurd (ground (arith, claim_granted k lease t rs))
  | inr (r, e) ↦ record {
    holder = claim_record lease t r;
    found = get-claim k lease t rs r e granted;
    claim = inr (t, refl, omega arith);
  }
]

not_claimable :
    (lease t now : ℕ) (r : Reminder)
    → now < t + lease
    → (r.sent ≡ true) ⊎ ((t' : ℕ) × (r.claimed_at ≡ moment t') × (t ≤ t'))
    → claimable lease now r ≡ false
unfolding claimable lease_live
not_claimable lease t now r lt (inl sent) = rw sent refl
not_claimable lease t now r lt (inr (t', e, le)) = ground arith

-- While a claim's lease runs no second claim of the reminder is granted, whatever other operations of
-- the store come in between, if none of them releases, cancels or rolls forward that reminder, or
-- claims that reminder under a clock before the claim's.
pub lease_exclusive :
    (k : String) (lease t now : ℕ) (rs : Records) (ops : List Op)
    → (claim_for_send k lease t rs).0 ≡ true
    → All (Leaves k t) ops
    → now < t + lease
    → (claim_for_send k lease now (run lease ops (claim_for_send k lease t rs).1)).0 ≡ false
lease_exclusive k lease t now rs ops granted leaves lt =
    let after = (claim_for_send k lease t rs).1 in
    let h = Held-run lease k t ops after leaves (Held-granted k lease t rs granted) in
    claim_granted k lease now (run lease ops after)
    ∙ ap (claimable? lease now) h.found
    ∙ not_claimable lease t now h.holder lt h.claim
