-- ===== src/Kernel/Tool/Fallback.antt =====
-- The fallback of `run_tool` in a registry that `load` accepted.
use kyraan.Base.{
  ℕ, zero, suc, ◌+◌, String, ◌≡◌, ◌≢◌, ap, refl, ◌∙◌, Bool, false, Option, none, some, arith, All,
}
use kyraan.Registry.{confirm, OnFailure, silent, fallback, ToolSpec}
use kyraan.Registry.Load.{get, get-name}
use kyraan.Registry.Load.Safety.{FallbackIsSafe}
use kyraan.Kernel.Context.{
  Args, Answer, result, timed_out, transient_error, tool_error, other_exception, tool_call,
  tool_result, ToolCall, Exit, confirmation_required, Context, State, logged,
}
use kyraan.Kernel.Tool.{
  settle, attempts, gate, rail, metered, continue, checked_attempts, conclude, run_found, tried,
  policy, run_fallback, run_tool,
}
use kyraan.Kernel.Tool.Audit.{All-get}

module _ (n : String) (a : Args) where
  -- the part of the run that ended has asked for a yes to `n` with `a`
  abbrev Asks : Option Exit × State → Type 0
  Asks t = t.0 ≡ some (confirmation_required n a)

  settle-silent :
      (spec : ToolSpec) (retry : Option Exit × State) (s : State) (x : Answer)
      → ¬ Asks retry
      → ¬ Asks (settle spec retry s x)
  unfolding settle
  settle-silent spec retry s (result v) k h = cc
  settle-silent spec retry s timed_out k h = ground arith
  settle-silent spec retry s transient_error k h = k h
  settle-silent spec retry s tool_error k h = cc
  settle-silent spec retry s (other_exception e) k h = cc

  attempts-silent :
      (c : Context) (spec : ToolSpec) (args : Args) (left attempt : ℕ) (s : State)
      → ¬ Asks (attempts c spec args left attempt s)
  unfolding attempts
  attempts-silent c spec args zero attempt s h = cc
  attempts-silent c spec args (suc left) attempt s h =
      settle-silent spec _ _ (c.dispatch spec args attempt)
        (attempts-silent c spec args left (attempt + 1) _) h

  module _ (c : Context) (spec : ToolSpec) (call : ToolCall) where
    checked_attempts-silent : (s : State) → ¬ Asks (checked_attempts c spec call s)
    unfolding checked_attempts
    checked_attempts-silent s h = ground (
      arith,
      attempts-silent c spec call.args (suc spec.retries) 0 (logged (tool_call spec.name) s),
    )

    rail-silent : (meta : Bool) (s : State) → ¬ Asks (rail c spec call meta s)
    unfolding rail metered
    rail-silent meta s h = ground arith

    gate-Asks :
        (s : State) → Asks (gate c spec call s) → (n ≡ spec.name) × (spec.permission ≡ confirm)
    unfolding gate
    gate-Asks s h = ground arith

    continue_asks :
        {P : Type 0} (m : Option Exit × State) (rest : State → Option Exit × State)
        → (Asks m → P)
        → ((s : State) → Asks (rest s) → P)
        → Asks (continue m rest)
        → P
    unfolding continue
    continue_asks (some e, s) rest f k h = f h
    continue_asks (none, s) rest f k h = k s h

    tried-Asks :
        (meta : Bool) (s : State)
        → Asks (tried c spec call meta s)
        → (n ≡ spec.name) × (spec.permission ≡ confirm)
    unfolding tried
    tried-Asks meta s = continue_asks _ _ (gate-Asks s) λ s1.
        continue_asks _ _ (λ h. absurd (rail-silent _ s1 h))
          λ s2 h. absurd (checked_attempts-silent s2 h)

module _ (c : Context) (safe : All (FallbackIsSafe c.tools) c.tools) (n : String) (a : Args) where
  conclude_asks :
      {P : Type 0} (hop : Option (ToolCall → State → Exit × State)) (spec : ToolSpec)
      (call : ToolCall) (t : Option Exit × State)
      → (Asks n a t → P)
      → ((s : State) → (policy hop spec call s spec.on_failure).0 ≡ confirmation_required n a → P)
      → (conclude hop spec call t).0 ≡ confirmation_required n a
      → P
  unfolding conclude
  conclude_asks hop spec call (some e, s) f k h = f (ap some h)
  conclude_asks hop spec call (none, s) f k h = k (logged (tool_result spec.name false) s) h

  policy-none-silent :
      (spec : ToolSpec) (call : ToolCall) (s : State) (p : OnFailure)
      → ¬ ((policy none spec call s p).0 ≡ confirmation_required n a)
  unfolding policy
  policy-none-silent spec call s silent h = cc
  policy-none-silent spec call s (fallback name) h = cc
  policy-none-silent spec call s _ h = cc

  -- a fallback that is not confirm-gated asks for nothing
  run_fallback-silent :
      (call : ToolCall) (s : State) (t : ToolSpec)
      → get call.tool_name c.tools ≡ some t
      → t.permission ≢ confirm
      → ¬ ((run_fallback c call s).0 ≡ confirmation_required n a)
  unfolding run_fallback run_found
  run_fallback-silent call s t e free h =
      conclude_asks none t call (tried c t call false s)
        (λ asks. free (tried-Asks n a c t call false s asks).1)
        (λ s' asks. policy-none-silent t call s' t.on_failure asks) (rw e at h)

  policy-silent :
      (spec : ToolSpec) (call : ToolCall) (s : State) (p : OnFailure)
      → FallbackIsSafe c.tools spec
      → spec.on_failure ≡ p
      → ¬ ((policy (some (run_fallback c)) spec call s p).0 ≡ confirmation_required n a)
  unfolding policy
  policy-silent spec call s silent ok e h = cc
  policy-silent spec call s (fallback name) ok e h =
      let (_, (t, found, free)) = ok name e in
      run_fallback-silent
        (record { tool_name = name; args = call.args; confirmed = call.confirmed }) _ t found free h
  policy-silent spec call s _ ok e h = cc

  run_found_asks :
      (call : ToolCall) (meta : Bool) (s : State) (found : Option ToolSpec)
      → get call.tool_name c.tools ≡ found
      → (run_found (some (run_fallback c)) c call meta s found).0 ≡ confirmation_required n a
      → n ≡ call.tool_name
  unfolding run_found
  run_found_asks call meta s none e h = cc
  run_found_asks call meta s (some spec) e h =
      conclude_asks (some (run_fallback c)) spec call (tried c spec call meta s)
        (λ asks.
          (tried-Asks n a c spec call meta s asks).0 ∙ get-name call.tool_name spec c.tools e)
        (λ s' asks. absurd (
          policy-silent spec call s' spec.on_failure
            (All-get (FallbackIsSafe c.tools) c.tools call.tool_name spec safe e) refl asks))
        h

  -- In a registry with safe fallbacks, a `run_tool` that asks for a yes asks for the tool it was given.
  pub run_tool_asks_for_itself :
      (call : ToolCall) (meta : Bool) (s : State)
      → (run_tool c call meta s).0 ≡ confirmation_required n a
      → n ≡ call.tool_name
  unfolding run_tool
  run_tool_asks_for_itself call meta s h = run_found_asks call meta s _ refl h
