-- ===== src/Sessions/Shown.antt =====
-- The window after any steps of a steady session.
use mathlib.Core.List.{append_assoc, append-nil}
use kyraan.Base.{
  ◌≤◌, String, Option, none, some, List, [], ◌∷◌, ◌++◌, length, last, length-last, drop, ltb,
  str_eq, ◌≡◌, refl, ap, sym, ◌∙◌, Bool-cases, inl, inr,
}
use kyraan.Sessions.{
  assistant, Turn, Session, record_proactive, roll_begin, roll_end, backlog, is_free, settle_roll,
  append_window, extend_window,
}
use kyraan.Sessions.Window.{Step, exchange, proactive, begin, end, step, run}
use kyraan.Sessions.Steady.{
  Steady, seen, left, After, Steady-After, append_window-After, last-append, last-short,
  After-trans, backlog-After, set_backlog-After,
}
use kyraan.Sessions.Kept.{recorded_by, recorded}
use kyraan.Sessions.Grown.{record_exchange-Grown}

-- A session after a step that recorded `more`, as far as the window goes.
pub record Shown (s' s : Session) (more : List Turn) : Type 0 where
  pub live_same : s'.live ≡ s.live
  pub answers_same : s'.answers ≡ s.answers
  pub seen_now : seen s' ≡ last 40 (seen s ++ more)

pub Steady-Shown : {s' s : Session} {more : List Turn} → Shown s' s more → Steady s → Steady s'
Steady-Shown k (inl off) = inl (k.live_same ∙ off)
Steady-Shown k (inr ok) = inr (λ n. ap (λ f. f n) k.answers_same ∙ ok n)

Shown-After :
    {s' s : Session} {left' : List Turn}
    → After s' s (seen s) left'
    → length (seen s) ≤ 40
    → Shown s' s []
Shown-After {s'} {s} a bound = record {
  live_same = a.live_same;
  answers_same = a.answers_same;
  seen_now =
      a.seen_now ∙ sym (last-short (seen s) bound) ∙ ap (last 40) (sym (append-nil (seen s)));
}

Shown-same : (s : Session) → length (seen s) ≤ 40 → Shown s s []
Shown-same s bound = record {
  live_same = refl;
  answers_same = refl;
  seen_now = sym (last-short (seen s) bound) ∙ ap (last 40) (sym (append-nil (seen s)));
}

-- two changes of the backlog
Shown-trans :
    {s'' s' s : Session} {l'' l' : List Turn}
    → After s'' s' (seen s') l''
    → After s' s (seen s) l'
    → length (seen s) ≤ 40
    → Shown s'' s []
Shown-trans {s = s} {l'' = l''} b a bound =
    Shown-After {left' = l''} (After-trans b a a.seen_now refl) bound

roll_begin-Shown : (s : Session) → Steady s → length (seen s) ≤ 40 → Shown (roll_begin s) s []
unfolding roll_begin
roll_begin-Shown s h bound =
    let a = (backlog-After s h).1 in
    let b = set_backlog-After (drop 10 (backlog s).0) (backlog s).1 (Steady-After a h) in
    let k = Shown-trans b a bound in
    elim (Bool-cases (is_free s.rolling)) [
      | inl free ↦ elim (Bool-cases (ltb (length (backlog s).0) 10)) [
        | inl few ↦ simp (free, few) (Shown-After a bound)
        | inr many ↦
            simp (free, many)
              (record {
                live_same = k.live_same;
                answers_same = k.answers_same;
                seen_now = k.seen_now;
              })
      ]
      | inr busy ↦ simp busy (Shown-same s bound)
    ]

-- whatever the answer, a roll's end leaves the window alone
settle_roll-Shown :
    (chunk : Option (List Turn)) (answer : Option String) (s : Session)
    → Steady s
    → length (seen s) ≤ 40
    → Shown (settle_roll chunk answer s) s []
unfolding settle_roll
settle_roll-Shown none answer s h bound = Shown-same s bound
settle_roll-Shown (some chunk) none s h bound =
    let a = (backlog-After s h).1 in
    let b = set_backlog-After (chunk ++ (backlog s).0) (backlog s).1 (Steady-After a h) in
    let k = Shown-trans b a bound in
    record { live_same = k.live_same; answers_same = k.answers_same; seen_now = k.seen_now }
settle_roll-Shown (some chunk) (some summary) s h bound =
    let k = Shown-same s bound in
    elim (Bool-cases (str_eq summary "")) [
      | inl blank ↦
          simp blank (record {
            live_same = k.live_same;
            answers_same = k.answers_same;
            seen_now = k.seen_now;
          })
      | inr words ↦
          simp words (record {
            live_same = k.live_same;
            answers_same = k.answers_same;
            seen_now = k.seen_now;
          })
    ]

pub step-Shown :
    (x : Step) (s : Session) → Steady s → length (seen s) ≤ 40 → Shown (step x s) s (recorded_by x)
unfolding step record_proactive roll_end
step-Shown (exchange private user_text assistant_text) s h bound =
    let g = record_exchange-Grown private user_text assistant_text s h bound in
    record { live_same = g.live_same; answers_same = g.answers_same; seen_now = g.seen_now }
step-Shown (proactive text) s h bound =
    let a = append_window-After (record { role = assistant; text = text }) s h in
    record { live_same = a.live_same; answers_same = a.answers_same; seen_now = a.seen_now }
step-Shown begin s h bound = roll_begin-Shown s h bound
step-Shown (end answer) s h bound = settle_roll-Shown s.rolling answer s h bound

-- the window holds the last forty entries of all
pub seen-run :
    (xs : List Step) (s : Session)
    → Steady s
    → length (seen s) ≤ 40
    → seen (run xs s) ≡ last 40 (seen s ++ recorded xs)
seen-run [] s h bound = (Shown-same s bound).seen_now
seen-run (x ∷ xs) s h bound =
    let k = step-Shown x s h bound in
    seen-run xs (step x s) (Steady-Shown k h)
      (rw k.seen_now (length-last 40 (seen s ++ recorded_by x)))
    ∙ ap (λ l. last 40 (l ++ recorded xs)) k.seen_now
    ∙ last-append (seen s ++ recorded_by x) (recorded xs)
    ∙ ap (last 40) (append_assoc (seen s) (recorded_by x) (recorded xs))

-- appending turns one by one
pub extend_window_lem :
    (es : List Turn) (s : Session)
    → Steady s
    → length (seen s) ≤ 40
    → seen (extend_window es s) ≡ last 40 (seen s ++ es)
unfolding extend_window
extend_window_lem [] s h bound =
    sym (last-short (seen s) bound) ∙ ap (last 40) (sym (append-nil (seen s)))
extend_window_lem (e ∷ es) s h bound =
    let a : After (append_window e s) s (last 40 (seen s ++ e ∷ [])) (left s) =
      append_window-After e s h in
    extend_window_lem es (append_window e s) (Steady-After a h)
      (rw a.seen_now (length-last 40 (seen s ++ e ∷ [])))
    ∙ ap (λ l. last 40 (l ++ es)) a.seen_now
    ∙ last-append (seen s ++ e ∷ []) es
    ∙ ap (last 40) (append_assoc (seen s) (e ∷ []) es)
