-- ===== src/Kernel/Tool/Rails.antt =====
-- The step rail of kernel.py: the metered calls of a skill.
use kyraan.Base.{
  ℕ, zero, suc, ◌≤◌, ◌≡◌, refl, Bool, true, false, Option, none, some, List, [], ◌∷◌, arith, length,
  leb, Bool-cases, inl, inr,
}
use kyraan.Registry.{OnFailure, silent, fallback, ToolSpec, is_read}
use kyraan.Registry.Load.{get}
use kyraan.Kernel.Context.{
  Args, Answer, result, timed_out, transient_error, tool_error, other_exception, tool_call,
  tool_result, tool_fallback, ToolCall, Exit, Context, Signature, State, logged,
}
use kyraan.Kernel.Tool.{
  max_tool_steps, sig_in, settle, attempts, gate, rail, metered, continue, checked_attempts,
  conclude, run_found, tried, policy, run_fallback, run_tool,
}

abbrev pub NoRepeat : List Signature → Type 0
NoRepeat [] = Unit
NoRepeat (x ∷ xs) = (sig_in x xs ≡ false) × NoRepeat xs

-- The step list of a skill's run; `none` is a call outside every skill.
abbrev pub IsMetered : Option (List Signature) → Type 0
IsMetered none = Unit
IsMetered (some steps) = (length steps ≤ max_tool_steps) × NoRepeat steps

steps-settle :
    (spec : ToolSpec) (retry : Option Exit × State) (s : State) (a : Answer)
    → retry.1.steps ≡ s.steps
    → (settle spec retry s a).1.steps ≡ s.steps
unfolding settle
steps-settle spec retry s (result v) h = refl
steps-settle spec retry s timed_out h = ground arith
steps-settle spec retry s transient_error h = h
steps-settle spec retry s tool_error h = refl
steps-settle spec retry s (other_exception e) h = refl

steps-attempts :
    (c : Context) (spec : ToolSpec) (args : Args) (left attempt : ℕ) (s : State)
    → (attempts c spec args left attempt s).1.steps ≡ s.steps
unfolding attempts
steps-attempts c spec args zero attempt s = refl
steps-attempts c spec args (suc left) attempt s =
    steps-settle spec _ (record s { sent = (spec.name, args) ∷ s.sent })
      (c.dispatch spec args attempt) (steps-attempts c spec args left _ _)

-- The guards of the rail are what keeps the list short and free of repeats.
metered-IsMetered :
    (c : Context) (spec : ToolSpec) (call : ToolCall) (meta : Bool) (s : State)
    (steps : Option (List Signature))
    → s.steps ≡ steps
    → IsMetered steps
    → IsMetered (metered c spec call meta s steps).1.steps
unfolding metered
metered-IsMetered c spec call meta s none e h = rw e tt
metered-IsMetered c spec call true s (some steps) e h = rw e h
metered-IsMetered c spec call false s (some steps) e h =
    elim (Bool-cases (sig_in (spec.name, c.dumps call.args) steps)) [
      | inl again ↦ rw again (rw e h)
      | inr fresh ↦ elim (Bool-cases (leb max_tool_steps (length steps))) [
        | inl full ↦ rw fresh (rw full (rw e h))
        | inr room ↦ rw fresh (rw room ((ground arith), (fresh, h.1)))
      ]
    ]

module _ (c : Context) where
  -- what is asked of each part of a run
  abbrev Meters : State → State → Type 0
  Meters s s' = IsMetered s.steps → IsMetered s'.steps

  Meters-same : (s s' : State) → s'.steps ≡ s.steps → Meters s s'
  Meters-same s s' e h = rw e h

  steps-gate :
      (spec : ToolSpec) (call : ToolCall) (s : State) → (gate c spec call s).1.steps ≡ s.steps
  unfolding gate
  steps-gate spec call s = ground arith

  steps-checked_attempts :
      (spec : ToolSpec) (call : ToolCall) (s : State)
      → (checked_attempts c spec call s).1.steps ≡ s.steps
  unfolding checked_attempts
  steps-checked_attempts spec call s =
      ground (
        arith,
        steps-attempts c spec call.args (suc spec.retries) 0 (logged (tool_call spec.name) s),
      )

  Meters-continue :
      (s : State) (m : Option Exit × State) (rest : State → Option Exit × State)
      → Meters s m.1
      → ((s' : State) → Meters s' (rest s').1)
      → Meters s (continue m rest).1
  unfolding continue
  Meters-continue s (some e, s') rest h k p = h p
  Meters-continue s (none, s') rest h k p = k s' (h p)

  Meters-tried :
      (spec : ToolSpec) (call : ToolCall) (meta : Bool) (s : State)
      → Meters s (tried c spec call meta s).1
  unfolding tried rail
  Meters-tried spec call meta s =
      Meters-continue s _ _ (Meters-same s (gate c spec call s).1 (steps-gate spec call s)) λ s1.
        Meters-continue s1 _ _ (metered-IsMetered c spec call _ s1 s1.steps refl) λ s2.
          Meters-same s2 (checked_attempts c spec call s2).1 (steps-checked_attempts spec call s2)

  abbrev HopMeters : Option (ToolCall → State → Exit × State) → Type 0
  HopMeters none = Unit
  HopMeters (some run) = (call : ToolCall) (s : State) → Meters s (run call s).1

  Meters-policy :
      (hop : Option (ToolCall → State → Exit × State)) (spec : ToolSpec) (call : ToolCall)
      (s : State) (p : OnFailure)
      → HopMeters hop
      → Meters s (policy hop spec call s p).1
  unfolding policy
  Meters-policy none spec call s silent k h = h
  Meters-policy (some run) spec call s silent k h = h
  Meters-policy none spec call s (fallback name) k h = h
  Meters-policy (some run) spec call s (fallback name) k h =
      k (record { tool_name = name; args = call.args; confirmed = call.confirmed })
        (logged (tool_fallback spec.name) s) h
  Meters-policy hop spec call s _ k h = h

  Meters-conclude :
      (hop : Option (ToolCall → State → Exit × State)) (spec : ToolSpec) (call : ToolCall)
      (s : State) (t : Option Exit × State)
      → HopMeters hop
      → Meters s t.1
      → Meters s (conclude hop spec call t).1
  unfolding conclude
  Meters-conclude hop spec call s (some e, s') k m h = m h
  Meters-conclude hop spec call s (none, s') k m h =
      Meters-policy hop spec call (logged (tool_result spec.name false) s') spec.on_failure k (m h)

  Meters-run_found :
      (hop : Option (ToolCall → State → Exit × State)) (call : ToolCall) (meta : Bool) (s : State)
      (found : Option ToolSpec)
      → HopMeters hop
      → Meters s (run_found hop c call meta s found).1
  unfolding run_found
  Meters-run_found hop call meta s none k h = h
  Meters-run_found hop call meta s (some spec) k h =
      Meters-conclude hop spec call s (tried c spec call meta s) k (Meters-tried spec call meta s) h

  Meters-run_fallback : (call : ToolCall) (s : State) → Meters s (run_fallback c call s).1
  unfolding run_fallback
  Meters-run_fallback call s h = Meters-run_found none call false s _ tt h

  -- Within a skill the metered calls stay at most eight, and no two have the same tool and arguments.
  pub run_tool-IsMetered :
      (call : ToolCall) (meta : Bool) (s : State)
      → IsMetered s.steps
      → IsMetered (run_tool c call meta s).1.steps
  unfolding run_tool
  run_tool-IsMetered call meta s h =
      Meters-run_found (some (run_fallback c)) call meta s _ Meters-run_fallback h

-- The exemption of machinery reads is for reads: on any other tool the flag changes nothing.
pub meta_only_reads :
    (c : Context) (call : ToolCall) (s : State) (spec : ToolSpec)
    → get call.tool_name c.tools ≡ some spec
    → is_read spec.side_effects ≡ false
    → run_tool c call true s ≡ run_tool c call false s
unfolding run_tool tried
meta_only_reads c call s spec e h = rw e (rw h)
