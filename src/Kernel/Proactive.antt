-- ===== src/Kernel/Proactive.antt =====
-- Quiet hours (src/kyraan/control_plane/dnd.py) and `can_send_proactively` of kernel.py. A time of day
-- is a number of seconds after midnight in the configured zone; a person's own window is in "HH:MM"
-- texts, compared as texts.
use Prim.Native.String.{compare}
use text.Mathlib.Text.{is_lt, is_le}
use kyraan.Base.{
  ℕ, ◌+◌, ◌-◌, ◌%◌, ◌<◌, String, ◌≡◌, ◌↔◌, Bool, true, false, not, ◌&&◌, ◌||◌, Option, none, some,
  List, [], ◌∷◌, arith, ◌⊎◌, length, ltb, leb, if◌then◌else◌,
}
use kyraan.Kernel.Context.{Event, blocked_kill_switch, blocked_dnd}

abbrev pub day_s : ℕ
day_s = 86400

-- what the gate reads: the kill switch, the configured window, the clock, the stored windows
pub record Gate : Type 0 where
  pub engaged : Bool
  pub quiet_start : ℕ
  pub quiet_end : ℕ
  pub now : ℕ
  pub clock : String
  pub window : ℕ → Option (String × String)

-- the end of `in_quiet_hours`
unfoldable pub in_quiet_hours : ℕ → ℕ → ℕ → Bool
in_quiet_hours start end current =
    if leb start end
    then leb start current && ltb current end
    else leb start current || ltb current end

-- `_in_person_window`
unfoldable pub in_person_window : String → String → String → Bool
in_person_window start end now =
    if is_le (compare start end)
    then is_le (compare start now) && is_lt (compare now end)
    else is_le (compare start now) || is_lt (compare now end)

-- whether the recipient has a window that holds now
unfoldable pub person_is_quiet : Gate → Option ℕ → Bool
unfolding in_person_window
person_is_quiet g none = false
person_is_quiet g (some chat_id) = elim (g.window chat_id) [
  | none ↦ false
  | some (start, end) ↦ in_person_window start end g.clock
]

-- `can_send_proactively(force, chat_id)`, with the event that a refusal logs
unfoldable pub can_send_proactively : Gate → Bool → Option ℕ → Bool × List Event
can_send_proactively g force chat_id =
    if g.engaged
    then (false, blocked_kill_switch "proactive_send" ∷ [])
    else if not force && in_quiet_hours g.quiet_start g.quiet_end g.now
    then (false, blocked_dnd ∷ [])
    else if not force && person_is_quiet g chat_id
    then (false, blocked_dnd ∷ [])
    else (true, [])

-- The two branches of the test are one arc of the clock: now is quiet if it is less far after the
-- start than the end is, modulo a day, whether or not the window crosses midnight.
pub quiet_hours_arc :
    (start end now : ℕ)
    → start < day_s
    → end < day_s
    → now < day_s
    → (in_quiet_hours start end now ≡ true)
      ↔ ((now + day_s - start) % day_s < (end + day_s - start) % day_s)
unfolding in_quiet_hours
quiet_hours_arc start end now hs he hn = (λ h. ground arith, λ h. ground arith)

-- A proactive message goes out exactly if the kill switch is off and it is forced, or neither window
-- is open; every refusal logs one event, and a message that goes out logs none.
pub can_send_exactly :
    (g : Gate) (force : Bool) (chat_id : Option ℕ)
    → let (sends, events) = can_send_proactively g force chat_id in
      ((sends ≡ true) ↔ (
        (g.engaged ≡ false)
        × ((force ≡ true)
            ⊎ ((in_quiet_hours g.quiet_start g.quiet_end g.now ≡ false)
                × (person_is_quiet g chat_id ≡ false)))))
      × (length events ≡ (if sends then 0 else 1))
unfolding can_send_proactively
can_send_exactly g force chat_id = (((λ h. ground arith), (λ h. ground arith)), ground arith)
