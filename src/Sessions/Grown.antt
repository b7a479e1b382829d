-- ===== src/Sessions/Grown.antt =====
-- An exchange on a steady session.
use mathlib.Core.Path.{ap₂}
use mathlib.Core.List.{append_assoc}
use kyraan.Base.{
  ◌-◌, String, Bool, true, List, [], ◌∷◌, ◌++◌, ◌≤◌, ◌≡◌, arith, length, last, length-last, ◌==◌,
  Bool-cases, inl, inr, drop, refl, sym, ap, ◌∙◌, ◌<◌, length-append,
}
use kyraan.Sessions.{
  Turn, Session, window, append_window, append_backlog, record_entry, record_exchange, shown, user,
  assistant, finish, spill,
}
use kyraan.Sessions.Steady.{
  last-append, Steady, seen, left, After, Steady-After, append_window-After, append_backlog-After,
  window-After, After-trans,
}

-- a window of at most forty, with room or without, after one more entry
last-room : (e : Turn) (xs : List Turn) → length xs < 40 → last 40 (xs ++ e ∷ []) ≡ xs ++ e ∷ []
last-room e xs h =
    let none_over : length (xs ++ e ∷ []) - 40 ≡ 0 = omega (arith, length-append xs (e ∷ [])) in
    ap (λ n. drop n (xs ++ e ∷ [])) none_over

last-full :
    (e x : Turn) (xs : List Turn)
    → length (x ∷ xs) ≡ 40
    → last 40 ((x ∷ xs) ++ e ∷ []) ≡ xs ++ e ∷ []
last-full e x xs h =
    let one_over : length ((x ∷ xs) ++ e ∷ []) - 40 ≡ 1 =
      omega (arith, length-append xs (e ∷ [])) in
    ap (λ n. drop n ((x ∷ xs) ++ e ∷ [])) one_over

-- The conversation after a step that recorded `more`: the backlog and the window in a row.
pub record Grown (s' s : Session) (more : List Turn) : Type 0 where
  pub live_same : s'.live ≡ s.live
  pub answers_same : s'.answers ≡ s.answers
  pub rolling_same : s'.rolling ≡ s.rolling
  pub all_kept : left s' ++ seen s' ≡ left s ++ seen s ++ more
  pub in_bounds : length (seen s') ≤ 40
  pub seen_now : seen s' ≡ last 40 (seen s ++ more)

pub Steady-Grown : {s s' : Session} {more : List Turn} → Grown s' s more → Steady s → Steady s'
Steady-Grown g (inl off) = inl (g.live_same ∙ off)
Steady-Grown g (inr ok) = inr (λ n. ap (λ f. f n) g.answers_same ∙ ok n)

pub append_window-Grown :
    (e : Turn) (s : Session)
    → Steady s
    → length (seen s) < 40
    → Grown (append_window e s) s (e ∷ [])
append_window-Grown e s h room =
    let a : After (append_window e s) s (last 40 (seen s ++ e ∷ [])) (left s) =
      append_window-After e s h in
    record {
      live_same = a.live_same;
      answers_same = a.answers_same;
      rolling_same = a.rolling_same;
      all_kept =
          ap₂ (λ l w. l ++ w) a.left_now (a.seen_now ∙ last-room e (seen s) room)
          ∙ sym (append_assoc (left s) (seen s) (e ∷ []));
      in_bounds = rw a.seen_now (length-last 40 (seen s ++ e ∷ []));
      seen_now = a.seen_now;
    }

pub finish-spill-Grown :
    (e : Turn) (again : List Turn) (s : Session)
    → Steady s
    → seen s ≡ again
    → length again ≡ 40
    → ((finish e (spill again s)).0 ≡ true) × Grown (finish e (spill again s)).1 s (e ∷ [])
unfolding finish spill
finish-spill-Grown e [] s h w full = absurd (omega (arith, full))
finish-spill-Grown e (x ∷ xs) s h w full =
    let a : After (append_backlog x s) s (seen s) (left s ++ x ∷ []) = append_backlog-After x s h in
    let b : After (append_window e (append_backlog x s)) (append_backlog x s)
        (last 40 (seen (append_backlog x s) ++ e ∷ [])) (left (append_backlog x s)) =
      append_window-After e (append_backlog x s) (Steady-After a h) in
    (
      refl,
      record {
        live_same = b.live_same ∙ a.live_same;
        answers_same = b.answers_same ∙ a.answers_same;
        rolling_same = b.rolling_same ∙ a.rolling_same;
        all_kept =
            ap₂ (λ l v. l ++ v) (b.left_now ∙ a.left_now)
              (b.seen_now
                ∙ ap (λ v. last 40 (v ++ e ∷ [])) (a.seen_now ∙ w)
                ∙ last-full e x xs full)
            ∙ append_assoc (left s) (x ∷ []) (xs ++ e ∷ [])
            ∙ ap (λ v. left s ++ (v ++ e ∷ [])) (sym w)
            ∙ sym (append_assoc (left s) (seen s) (e ∷ []));
        in_bounds = rw b.seen_now (length-last 40 (seen (append_backlog x s) ++ e ∷ []));
        seen_now = b.seen_now ∙ ap (λ v. last 40 (v ++ e ∷ [])) a.seen_now;
      },
    )

pub Grown-After :
    {s'' s' s : Session} {more : List Turn}
    → Grown s'' s' more
    → After s' s (seen s) (left s)
    → Grown s'' s more
Grown-After {more = more} g a = record {
  live_same = g.live_same ∙ a.live_same;
  answers_same = g.answers_same ∙ a.answers_same;
  rolling_same = g.rolling_same ∙ a.rolling_same;
  all_kept = g.all_kept ∙ ap₂ (λ l v. l ++ v ++ more) a.left_now a.seen_now;
  in_bounds = g.in_bounds;
  seen_now = g.seen_now ∙ ap (λ v. last 40 (v ++ more)) a.seen_now;
}

pub record_entry-Grown :
    (e : Turn) (s : Session)
    → Steady s
    → length (seen s) ≤ 40
    → ((record_entry e s).0 ≡ true) × Grown (record_entry e s).1 s (e ∷ [])
unfolding record_entry
record_entry-Grown e s h bound =
    let s₁ : Session = (window s).1 in
    let (first, a₁) : ((window s).0 ≡ seen s) × After (window s).1 s (seen s) (left s) =
      window-After s h in
    let (second, a₂) : ((window s₁).0 ≡ seen s₁) × After (window s₁).1 s₁ (seen s₁) (left s₁) =
      window-After s₁ (Steady-After a₁ h) in
    let same : length (seen s₁) ≡ length (window s).0 = ap length (a₁.seen_now ∙ sym first) in
    elim (Bool-cases (length (window s).0 == 40)) [
      | inl full ↦ simp full (
          let (ok, g) =
            finish-spill-Grown e (window s₁).0 (window s₁).1 (Steady-After a₂ (Steady-After a₁ h))
              (a₂.seen_now ∙ sym second) (ground (arith, full, ap length second, same)) in
          (ok, Grown-After g (After-trans a₂ a₁ a₁.seen_now a₁.left_now)))
      | inr room ↦ simp room (
        refl,
        Grown-After
            (append_window-Grown e s₁ (Steady-After a₁ h)
              (ground (arith, room, same, ap length first)))
            a₁,
      )
    ]

pub record_exchange-Grown :
    (private : Bool) (user_text assistant_text : String) (s : Session)
    → Steady s
    → length (seen s) ≤ 40
    → Grown (record_exchange private user_text assistant_text s).1 s (
        record { role = user; text = shown private user_text }
        ∷ record { role = assistant; text = shown private assistant_text }
        ∷ [])
unfolding record_exchange
record_exchange-Grown private user_text assistant_text s h bound =
    let first : Turn = record { role = user; text = shown private user_text } in
    let second : Turn = record { role = assistant; text = shown private assistant_text } in
    let (ok, g) : ((record_entry first s).0 ≡ true)
        × Grown (record_entry first s).1 s (first ∷ []) =
      record_entry-Grown first s h bound in
    let k : Grown (record_entry second (record_entry first s).1).1 (record_entry first s).1
        (second ∷ []) =
      (record_entry-Grown second (record_entry first s).1 (Steady-Grown g h) g.in_bounds).1 in
    simp ok (record {
      live_same = k.live_same ∙ g.live_same;
      answers_same = k.answers_same ∙ g.answers_same;
      rolling_same = k.rolling_same ∙ g.rolling_same;
      all_kept =
          k.all_kept
          ∙ ap (λ l. l ++ second ∷ []) g.all_kept
          ∙ append_assoc (left s ++ seen s) (first ∷ []) (second ∷ []);
      in_bounds = k.in_bounds;
      seen_now =
          k.seen_now
          ∙ ap (λ v. last 40 (v ++ second ∷ [])) g.seen_now
          ∙ last-append (seen s ++ first ∷ []) (second ∷ [])
          ∙ ap (last 40) (append_assoc (seen s) (first ∷ []) (second ∷ []));
    })
