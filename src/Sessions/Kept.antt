-- ===== src/Sessions/Kept.antt =====
-- The entries of a conversation through the steps of a session whose Redis keeps answering, or is given
-- up: those in window, backlog, the chunk of a roll and the summaries.
use mathlib.Core.Path.{ap₂}
use mathlib.Core.List.{append_assoc, append-nil}
use kyraan.Base.{
  ltb, String, true, false, Option, none, some, List, [], ◌∷◌, ◌++◌, ◌≤◌, ◌≡◌, length, Bool-cases,
  inl, inr, drop, take, take-drop, refl, sym, ap, ◌∙◌, ◌<◌, str_eq,
}
use kyraan.Sessions.{
  Turn, Session, backlog, set_backlog, record_proactive, roll_begin, roll_end, shown, user,
  assistant, settle_roll, is_free,
}
use kyraan.Sessions.Window.{Step, exchange, proactive, begin, end, step, run}
use kyraan.Sessions.Steady.{
  Steady, seen, left, After, Steady-After, set_backlog-After, backlog-After,
}
use kyraan.Sessions.Grown.{Grown, append_window-Grown, record_exchange-Grown}

abbrev pub in_flight : Option (List Turn) → List Turn
in_flight none = []
in_flight (some chunk) = chunk

-- The part of the conversation that no summary holds yet, oldest first.
abbrev pub conversation : Session → List Turn
conversation s = in_flight s.rolling ++ left s ++ seen s

-- What a step of a steady session does to the conversation: `told` went into the summary, `more` was
-- recorded.
record Conserved (s' s : Session) (told more : List Turn) : Type 0 where
  live_same : s'.live ≡ s.live
  answers_same : s'.answers ≡ s.answers
  all_kept : told ++ conversation s' ≡ conversation s ++ more
  in_bounds : length (seen s') ≤ 40

Conserved-Grown : {s' s : Session} {more : List Turn} → Grown s' s more → Conserved s' s [] more
Conserved-Grown {s'} {s} {more} g = record {
  live_same = g.live_same;
  answers_same = g.answers_same;
  all_kept =
      ap (λ r. in_flight r ++ left s' ++ seen s') g.rolling_same
      ∙ append_assoc (in_flight s.rolling) (left s') (seen s')
      ∙ ap (λ l. in_flight s.rolling ++ l) g.all_kept
      ∙ sym (append_assoc (in_flight s.rolling) (left s ++ seen s) more)
      ∙ ap (λ l. l ++ more) (sym (append_assoc (in_flight s.rolling) (left s) (seen s)));
  in_bounds = g.in_bounds;
}

Conserved-After :
    {s' s : Session} → After s' s (seen s) (left s) → length (seen s) ≤ 40 → Conserved s' s [] []
Conserved-After {s'} {s} a bound = record {
  live_same = a.live_same;
  answers_same = a.answers_same;
  all_kept =
      ap (λ r. in_flight r ++ left s' ++ seen s') a.rolling_same
      ∙ ap₂ (λ l w. in_flight s.rolling ++ l ++ w) a.left_now a.seen_now
      ∙ sym (append-nil (conversation s));
  in_bounds = rw a.seen_now bound;
}

Conserved-same : (s : Session) → length (seen s) ≤ 40 → Conserved s s [] []
Conserved-same s bound = record {
  live_same = refl;
  answers_same = refl;
  all_kept = sym (append-nil (conversation s));
  in_bounds = bound;
}

in_flight-is_free : (o : Option (List Turn)) → is_free o ≡ true → in_flight o ≡ []
unfolding is_free
in_flight-is_free none h = refl
in_flight-is_free (some chunk) h = cc

-- the chunk leaves the backlog's front, and the row stays as it was
roll_taken :
    (s s₁ s₂ : Session) (waiting : List Turn)
    → length (seen s) ≤ 40
    → in_flight s.rolling ≡ []
    → waiting ≡ left s
    → After s₁ s (seen s) (left s)
    → After s₂ s₁ (seen s₁) (drop 10 waiting)
    → Conserved (record s₂ { rolling = some (take 10 waiting) }) s [] []
roll_taken s s₁ s₂ waiting bound none_flying w a b =
    let there : seen s₂ ≡ seen s = b.seen_now ∙ a.seen_now in
    record {
      live_same = b.live_same ∙ a.live_same;
      answers_same = b.answers_same ∙ a.answers_same;
      all_kept =
          ap₂ (λ l v. take 10 waiting ++ l ++ v) b.left_now there
          ∙ ap (λ l. l ++ seen s) (take-drop 10 waiting ∙ w)
          ∙ ap (λ l. l ++ left s ++ seen s) (sym none_flying)
          ∙ sym (append-nil (conversation s));
      in_bounds = rw there bound;
    }

roll_begin-Conserved :
    (s : Session) → Steady s → length (seen s) ≤ 40 → Conserved (roll_begin s) s [] []
unfolding roll_begin
roll_begin-Conserved s h bound =
    let (w, a) : ((backlog s).0 ≡ left s) × After (backlog s).1 s (seen s) (left s) =
      backlog-After s h in
    elim (Bool-cases (is_free s.rolling)) [
      | inl free ↦ elim (Bool-cases (ltb (length (backlog s).0) 10)) [
        | inl few ↦ simp (free, few) (Conserved-After a bound)
        | inr many ↦
            simp (free, many)
              (roll_taken s (backlog s).1 (set_backlog (drop 10 (backlog s).0) (backlog s).1)
                (backlog s).0 bound (in_flight-is_free s.rolling free) w a
                (set_backlog-After (drop 10 (backlog s).0) (backlog s).1 (Steady-After a h)))
      ]
      | inr busy ↦ simp busy (Conserved-same s bound)
    ]

-- what a roll's answer puts into the summary
abbrev pub told_by : Option (List Turn) → Option String → List Turn
told_by (some chunk) (some summary) = chunk
told_by _ _ = []

-- the model failed, or answered with words
abbrev pub IsAnswer : Option String → Type 0
IsAnswer none = Unit
IsAnswer (some summary) = str_eq summary "" ≡ false

-- a failed roll puts its chunk back in front
roll_restored :
    (s s₁ s₂ : Session) (chunk waiting : List Turn)
    → length (seen s) ≤ 40
    → s.rolling ≡ some chunk
    → waiting ≡ left s
    → After s₁ s (seen s) (left s)
    → After s₂ s₁ (seen s₁) (chunk ++ waiting)
    → Conserved (record s₂ { rolling = none }) s [] []
roll_restored s s₁ s₂ chunk waiting bound r w a b =
    let there : seen s₂ ≡ seen s = b.seen_now ∙ a.seen_now in
    record {
      live_same = b.live_same ∙ a.live_same;
      answers_same = b.answers_same ∙ a.answers_same;
      all_kept =
          ap₂ (λ l v. l ++ v) b.left_now there
          ∙ ap (λ l. chunk ++ l ++ seen s) w
          ∙ ap (λ o. in_flight o ++ left s ++ seen s) (sym r)
          ∙ sym (append-nil (conversation s));
      in_bounds = rw there bound;
    }

settle_roll-Conserved :
    (chunk : Option (List Turn)) (answer : Option String) (s : Session)
    → Steady s
    → length (seen s) ≤ 40
    → s.rolling ≡ chunk
    → IsAnswer answer
    → Conserved (settle_roll chunk answer s) s (told_by chunk answer) []
unfolding settle_roll
settle_roll-Conserved none none s h bound r i = Conserved-same s bound
settle_roll-Conserved none (some summary) s h bound r i = Conserved-same s bound
settle_roll-Conserved (some chunk) none s h bound r i =
    let (w, a) : ((backlog s).0 ≡ left s) × After (backlog s).1 s (seen s) (left s) =
      backlog-After s h in
    roll_restored s (backlog s).1 (set_backlog (chunk ++ (backlog s).0) (backlog s).1) chunk
      (backlog s).0 bound r w a
      (set_backlog-After (chunk ++ (backlog s).0) (backlog s).1 (Steady-After a h))
settle_roll-Conserved (some chunk) (some summary) s h bound r i = simp i (record {
  live_same = refl;
  answers_same = refl;
  all_kept =
      sym (append_assoc chunk (left s) (seen s))
      ∙ ap (λ o. in_flight o ++ left s ++ seen s) (sym r)
      ∙ sym (append-nil (conversation s));
  in_bounds = bound;
})

-- what a step records, and what it tells the summary
abbrev pub recorded_by : Step → List Turn
recorded_by (exchange private user_text assistant_text) =
    record { role = user; text = shown private user_text }
    ∷ record { role = assistant; text = shown private assistant_text }
    ∷ []
recorded_by (proactive text) = record { role = assistant; text = text } ∷ []
recorded_by _ = []

abbrev pub told_at : Step → Session → List Turn
told_at (end answer) s = told_by s.rolling answer
told_at _ s = []

-- A proactive message finds room in the window, and a roll's answer is not blank.
abbrev pub IsCareful : Step → Session → Type 0
IsCareful (proactive text) s = length (seen s) < 40
IsCareful (end answer) s = IsAnswer answer
IsCareful _ s = Unit

step-Conserved :
    (x : Step) (s : Session)
    → Steady s
    → length (seen s) ≤ 40
    → IsCareful x s
    → Conserved (step x s) s (told_at x s) (recorded_by x)
unfolding step record_proactive roll_end
step-Conserved (exchange private user_text assistant_text) s h bound c =
    Conserved-Grown (record_exchange-Grown private user_text assistant_text s h bound)
step-Conserved (proactive text) s h bound c =
    Conserved-Grown (append_window-Grown (record { role = assistant; text = text }) s h c)
step-Conserved begin s h bound c = roll_begin-Conserved s h bound
step-Conserved (end answer) s h bound c = settle_roll-Conserved s.rolling answer s h bound refl c

Steady-Conserved :
    {s' s : Session} {told more : List Turn} → Conserved s' s told more → Steady s → Steady s'
Steady-Conserved k (inl off) = inl (k.live_same ∙ off)
Steady-Conserved k (inr ok) = inr (λ n. ap (λ f. f n) k.answers_same ∙ ok n)

abbrev pub recorded : List Step → List Turn
recorded [] = []
recorded (x ∷ xs) = recorded_by x ++ recorded xs

abbrev pub told : List Step → Session → List Turn
told [] s = []
told (x ∷ xs) s = told_at x s ++ told xs (step x s)

abbrev pub IsCarefulRun : List Step → Session → Type 0
IsCarefulRun [] s = Unit
IsCarefulRun (x ∷ xs) s = IsCareful x s × IsCarefulRun xs (step x s)

-- However exchanges, proactive messages and the two halves of rolls follow one another, what the
-- summaries were told, followed by the chunk in flight, the backlog and the window, is the conversation
-- of the start followed by everything recorded since, entry by entry and in order. The conditions:
-- Redis answers every command or is given up, the window starts with at most forty entries, each
-- proactive message finds room in it, and no roll is answered with a blank summary.
pub conversation_kept :
    (xs : List Step) (s : Session)
    → Steady s
    → length (seen s) ≤ 40
    → IsCarefulRun xs s
    → told xs s ++ conversation (run xs s) ≡ conversation s ++ recorded xs
conversation_kept [] s h bound c = sym (append-nil (conversation s))
conversation_kept (x ∷ xs) s h bound (here, later) =
    let k : Conserved (step x s) s (told_at x s) (recorded_by x) =
      step-Conserved x s h bound here in
    append_assoc (told_at x s) (told xs (step x s)) (conversation (run xs (step x s)))
    ∙ ap (λ l. told_at x s ++ l)
        (conversation_kept xs (step x s) (Steady-Conserved k h) k.in_bounds later)
    ∙ sym (append_assoc (told_at x s) (conversation (step x s)) (recorded xs))
    ∙ ap (λ l. l ++ recorded xs) k.all_kept
    ∙ append_assoc (conversation s) (recorded_by x) (recorded xs)
