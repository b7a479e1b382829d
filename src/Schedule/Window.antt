-- ===== src/Schedule/Window.antt =====
-- Interval series with a daily window, by either way to the next slot.
use mathlib.Core.Path.{subst}
use mathlib.Core.Option.{some-injective}
use kyraan.Base.{ℕ, ◌*◌, ◌≤◌, ◌<◌, ◌≡◌, ap, sym, ◌∙◌, ◌⊎◌, some, arith}
use kyraan.Calendar.{Moment, add_seconds}
use kyraan.Schedule.{interval, Rule, step_s, window, snap, snap_to, advance_for}
use kyraan.Schedule.Later.{advance_for-interval}

-- The time of day lies in the window: between its ends, or outside the daytime gap of a window that
-- crosses midnight.
abbrev pub InWindow : ℕ → ℕ → Moment → Type 0
InWindow start end t =
    (start ≤ end → (start * 60 ≤ t.second) × (t.second ≤ end * 60))
    × (end < start → (t.second ≤ end * 60) ⊎ (start * 60 ≤ t.second))

snap-InWindow : (start end : ℕ) (t : Moment) → InWindow start end (snap start end t)
unfolding snap
snap-InWindow start end t = ground arith

-- Whatever slot an interval series with a daily window advances to, it lies in the window.
pub advance_for-InWindow :
    (r : Rule) (start end : ℕ) (t u : Moment)
    → r.repeat ≡ interval
    → window r ≡ some (start, end)
    → advance_for r t ≡ some u
    → InWindow start end u
unfolding snap_to
advance_for-InWindow r start end t u series w e =
    let slot = add_seconds t (step_s r) in
    let snapped : advance_for r t ≡ some (snap start end slot) =
      advance_for-interval r t series ∙ ap (λ x. some (snap_to x slot)) w in
    subst (InWindow start end) (some-injective _ _ (sym snapped ∙ e)) (snap-InWindow start end slot)
