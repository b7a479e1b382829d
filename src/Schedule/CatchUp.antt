-- ===== src/Schedule/CatchUp.antt =====
-- The catch-up of a series after downtime.
use mathlib.Core.Option
use kyraan.Base.{
  ℕ, zero, suc, ◌+◌, ◌-◌, ◌*◌, ◌/◌, ◌<◌, ◌≡◌, refl, ap, not, ◌&&◌, Option, none, some, arith, ltb,
  leb, Bool-cases, inl, inr,
}
use kyraan.Calendar.{Moment, seconds, next_day, add_seconds, MomentIsValid}
use kyraan.Calendar.Ordinals.{next_day-IsValid, add_seconds-IsValid}
use kyraan.Schedule.{
  Rule, step_s, window, is_interval, grid_anchor, grid_next, grid_end, grid_slot, jump, jumped,
  catch_up, settled, advance_past_now,
}
use kyraan.Schedule.Later.{
  IsLater, RuleIsValid, WindowIsValid, at_minute-IsValid, advance_for-IsLater,
}

-- a valid moment, and no raise
abbrev Valid : Option Moment → Type 0
Valid o = (u : Moment) × (o ≡ some u) × MomentIsValid u

Valid-catch_up :
    (rounds : ℕ) (r : Rule) (now next : Moment)
    → RuleIsValid r
    → MomentIsValid next
    → Valid (catch_up rounds r now next)
unfolding catch_up
Valid-catch_up zero r now next rv v = (next, refl, v)
Valid-catch_up (suc rounds) r now next rv v = elim (Bool-cases (ltb (seconds now) (seconds next))) [
  | inl future ↦ rw future (next, refl, v)
  | inr past ↦
      let (t, e, l) = advance_for-IsLater r next rv v in
      rw past (rw e (Valid-catch_up rounds r now t rv l.valid))
]

-- the outcome that the series waits for
abbrev Future : Moment → Option Moment → Type 0
Future now o = (u : Moment) × (o ≡ some u) × IsLater now u

Future-settled :
    (r : Rule) (now next : Moment)
    → RuleIsValid r
    → MomentIsValid now
    → MomentIsValid next
    → Future now (settled r now next)
unfolding settled
Future-settled r now next rv vn v = elim (Bool-cases (ltb (seconds now) (seconds next))) [
  | inl future ↦ rw future (next, refl, record { valid = v; later = ground arith })
  | inr past ↦ rw past (advance_for-IsLater r now rv vn)
]

module _ (start end : ℕ) (now : Moment) (start_lt : start < 1440) (vn : MomentIsValid now) where
  grid_anchor-IsValid :
      (base : Moment) → MomentIsValid base → MomentIsValid (grid_anchor start base now)
  unfolding grid_anchor
  grid_anchor-IsValid base v = ground (arith, v, at_minute-IsValid now.date start vn.date start_lt)

  grid_next-IsValid :
      (step : ℕ) (anchor : Moment)
      → MomentIsValid anchor
      → MomentIsValid (grid_next step anchor now).0
  unfolding grid_next
  grid_next-IsValid step anchor v = elim (Bool-cases (ltb (seconds now) (seconds anchor))) [
    | inl ahead ↦ rw ahead v
    | inr passed ↦ rw passed (add_seconds-IsValid anchor _ v)
  ]

  grid_end-IsValid :
      (slot : Moment × ℕ) → MomentIsValid slot.0 → MomentIsValid (grid_end start end now slot).0
  unfolding grid_end
  grid_end-IsValid (slot, skipped) v = ground (
    arith,
    at_minute-IsValid (next_day now.date) start (next_day-IsValid now.date vn.date) start_lt,
  )

  grid_slot-IsValid :
      (step : ℕ) (base : Moment)
      → MomentIsValid base
      → MomentIsValid (grid_slot step start end base now).0
  unfolding grid_slot
  grid_slot-IsValid step base v =
      grid_end-IsValid _ (grid_next-IsValid step _ (grid_anchor-IsValid base v))

Valid-jump :
    (r : Rule) (base next now : Moment) (w : Option (ℕ × ℕ))
    → RuleIsValid r
    → WindowIsValid w
    → MomentIsValid base
    → MomentIsValid next
    → MomentIsValid now
    → (js : Moment × ℕ) × (jump r base next now w ≡ some js) × MomentIsValid js.0
unfolding jump
Valid-jump r base next now none rv wv vb v vn =
    let k = (seconds now - seconds next) / step_s r + 1 in
    let last = add_seconds next (step_s r * (k - 1)) in
    let (t, e, l) = advance_for-IsLater r last rv (add_seconds-IsValid next _ v) in
    ((t, k), ap (Option.map (λ u. (u, k))) e, l.valid)
Valid-jump r base next now (some (start, end)) rv wv vb v vn =
    elim (Bool-cases (leb start end && leb (step_s r) ((end - start) * 60))) [
      | inl grid ↦ rw grid (_, refl, grid_slot-IsValid start end now wv.0 vn (step_s r) base vb)
      | inr coarse ↦ rw coarse ((next, 0), refl, v)
    ]

Valid-jumped :
    (r : Rule) (base next now : Moment)
    → RuleIsValid r
    → MomentIsValid base
    → MomentIsValid next
    → MomentIsValid now
    → (js : Moment × ℕ) × (jumped r base next now ≡ some js) × MomentIsValid js.0
unfolding jumped
Valid-jumped r base next now rv vb v vn =
    elim (Bool-cases (is_interval r.repeat && not (ltb (seconds now) (seconds next)))) [
      | inl missed ↦ rw missed (Valid-jump r base next now (window r) rv rv.window_valid vb v vn)
      | inr on_time ↦ rw on_time ((next, 0), refl, v)
    ]

-- However long the downtime, `advance_past_now` raises nothing and comes to a valid moment after now.
pub advance_past_now-IsLater :
    (r : Rule) (base now : Moment)
    → RuleIsValid r
    → MomentIsValid base
    → MomentIsValid now
    → (u : Moment) × (advance_past_now r base now ≡ some u) × IsLater now u
unfolding advance_past_now
advance_past_now-IsLater r base now rv vb vn =
    let (next, e, l) = advance_for-IsLater r base rv vb in
    let (js, e2, v2) = Valid-jumped r base next now rv vb l.valid vn in
    let (t, e3, v3) = Valid-catch_up (5000 - js.1) r now js.0 rv v2 in
    rw e (rw e2 (rw e3 (Future-settled r now t rv vn v3)))
