-- ===== src/Sessions/Steady.antt =====
-- The lists of a session whose Redis keeps answering, or is given up: what each list operation of
-- session.py makes of them.
use mathlib.Core.List.{append_assoc, append-nil}
use kyraan.Base.{
  length, drop, ◌≤◌, arith, last-last, length-last, ◌-◌, sym, ℕ, suc, true, false, List, [], ◌∷◌,
  ◌++◌, ◌≡◌, arith, last, if◌then◌else◌, inl, inr, ◌⊎◌, refl, ap, ◌∙◌,
}
use kyraan.Sessions.{
  Turn, Session, command, window, backlog, append_window, append_backlog, set_backlog,
}

-- Redis is given up, or answers every command.
abbrev pub Steady : Session → Type 0
Steady s = (s.live ≡ false) ⊎ ((n : ℕ) → s.answers n ≡ true)

-- the lists that reads return
abbrev pub seen : Session → List Turn
seen s = if s.live then s.redis_history else s.mem_history

abbrev pub left : Session → List Turn
left s = if s.live then s.redis_backlog else s.mem_backlog

-- A session after a step, as far as the lists go: as steady, with this window and this backlog.
pub record After (s' s : Session) (seen' left' : List Turn) : Type 0 where
  pub live_same : s'.live ≡ s.live
  pub answers_same : s'.answers ≡ s.answers
  pub seen_now : seen s' ≡ seen'
  pub left_now : left s' ≡ left'
  pub rolling_same : s'.rolling ≡ s.rolling

-- the session after a command that did not fail
abbrev asked_of : Session → Session
asked_of s = record s { asked = if s.live then suc s.asked else s.asked }

pub command_lem : (s : Session) → Steady s → command s ≡ (s.live, asked_of s)
unfolding command
command_lem s (inl off) = ground (arith, off)
command_lem s (inr ok) = ground (arith, ok s.asked)

-- what a step keeps keeps a session steady
pub Steady-After :
    {s s' : Session} {seen' left' : List Turn} → After s' s seen' left' → Steady s → Steady s'
Steady-After a (inl off) = inl (a.live_same ∙ off)
Steady-After a (inr ok) = inr (λ n. ap (λ f. f n) a.answers_same ∙ ok n)

pub append_window-After :
    (e : Turn) (s : Session)
    → Steady s
    → After (append_window e s) s (last 40 (seen s ++ e ∷ [])) (left s)
unfolding append_window
append_window-After e s h = rw (command_lem s h) (record {
  live_same = ground arith;
  answers_same = ground arith;
  seen_now = ground arith;
  left_now = ground arith;
  rolling_same = ground arith;
})

pub append_backlog-After :
    (e : Turn) (s : Session) → Steady s → After (append_backlog e s) s (seen s) (left s ++ e ∷ [])
unfolding append_backlog
append_backlog-After e s h = rw (command_lem s h) (record {
  live_same = ground arith;
  answers_same = ground arith;
  seen_now = ground arith;
  left_now = ground arith;
  rolling_same = ground arith;
})

pub set_backlog-After :
    (entries : List Turn) (s : Session)
    → Steady s
    → After (set_backlog entries s) s (seen s) entries
unfolding set_backlog
set_backlog-After entries s h = rw (command_lem s h) (record {
  live_same = ground arith;
  answers_same = ground arith;
  seen_now = ground arith;
  left_now = ground arith;
  rolling_same = ground arith;
})

pub window-After :
    (s : Session) → Steady s → ((window s).0 ≡ seen s) × After (window s).1 s (seen s) (left s)
unfolding window
window-After s h = rw (command_lem s h) (
  refl,
  record {
    live_same = refl;
    answers_same = refl;
    seen_now = refl;
    left_now = refl;
    rolling_same = refl;
  },
)

pub backlog-After :
    (s : Session) → Steady s → ((backlog s).0 ≡ left s) × After (backlog s).1 s (seen s) (left s)
unfolding backlog
backlog-After s h = rw (command_lem s h) (
  refl,
  record {
    live_same = refl;
    answers_same = refl;
    seen_now = refl;
    left_now = refl;
    rolling_same = refl;
  },
)

-- One step after another, with the lists in their final form.
pub After-trans :
    {s'' s' s : Session} {seen'' left'' seen' left' seen_end left_end : List Turn}
    → After s'' s' seen'' left''
    → After s' s seen' left'
    → seen'' ≡ seen_end
    → left'' ≡ left_end
    → After s'' s seen_end left_end
After-trans a b w l = record {
  live_same = a.live_same ∙ b.live_same;
  answers_same = a.answers_same ∙ b.answers_same;
  seen_now = a.seen_now ∙ w;
  left_now = a.left_now ∙ l;
  rolling_same = a.rolling_same ∙ b.rolling_same;
}

-- keeping the last forty now and then keeps the last forty of all
pub last_idem : (xs : List Turn) → last 40 (last 40 xs) ≡ last 40 xs
last_idem xs =
    let none_over : length (last 40 xs) - 40 ≡ 0 = omega (arith, length-last 40 xs) in
    ap (λ n. drop n (last 40 xs)) none_over

pub last-append : (xs ys : List Turn) → last 40 (last 40 xs ++ ys) ≡ last 40 (xs ++ ys)
last-append xs [] =
    ap (last 40) (append-nil (last 40 xs)) ∙ last_idem xs ∙ ap (last 40) (sym (append-nil xs))
last-append xs (y ∷ ys) =
    ap (last 40) (sym (append_assoc (last 40 xs) (y ∷ []) ys))
    ∙ sym (last-append (last 40 xs ++ y ∷ []) ys)
    ∙ ap (λ l. last 40 (l ++ ys)) (last-last 39 xs y)
    ∙ last-append (xs ++ y ∷ []) ys
    ∙ ap (last 40) (append_assoc xs (y ∷ []) ys)

pub last-short : (xs : List Turn) → length xs ≤ 40 → last 40 xs ≡ xs
last-short xs h =
    let none_over : length xs - 40 ≡ 0 = omega (arith, h) in ap (λ n. drop n xs) none_over
