-- ===== src/Kernel/Tool/Audit.antt =====
-- The calls of adapters that one `run_tool` of kernel.py makes, its fallback included.
use kyraan.Base.{
  ℕ, suc, ◌+◌, ◌*◌, ◌≤◌, String, ◌≡◌, refl, Bool, false, Option, none, some, List, [], ◌∷◌, arith,
  inl, inr, Bool-cases, str_eq, sym, length, All-again, length-again, All, All-map,
}
use kyraan.Registry.{OnFailure, silent, fallback, ToolSpec}
use kyraan.Registry.Load.{get, get-name}
use mathlib.Core.Path.{subst}
use kyraan.Base.Table.{find}
use kyraan.Kernel.Context.{Args, tool_result, tool_fallback, ToolCall, Exit, Context, State, logged}
use kyraan.Kernel.Tool.{conclude, run_found, tried, policy, run_fallback, run_tool}
use kyraan.Kernel.Tool.Sends.{Sends, IsAuthorized, tried-Sends}

-- A call of the log, with the tool that the registry has under its name
abbrev pub IsAuthorizedCall : Context → Bool → String × Args → Type 0
IsAuthorizedCall c confirmed (name, args) =
    (spec : ToolSpec) × (get name c.tools ≡ some spec) × IsAuthorized c spec confirmed args

-- What a run does to the list of calls: it adds at most `n`, each with the property.
record Ran (n : ℕ) (Q : String × Args → Type 0) (xs ys : List (String × Args)) : Type 0 where
  kept : All Q xs → All Q ys
  few : length ys ≤ length xs + n

Ran-Sends :
    (n : ℕ) (P : Type 0) (Q : String × Args → Type 0) (x : String × Args)
    (xs ys : List (String × Args))
    → (P → Q x)
    → Sends n P x xs ys
    → Ran n Q xs ys
Ran-Sends n P Q x xs ys f h = record {
  kept = λ all. rw h.added (All-again Q h.calls x xs (λ pos. f (h.allowed pos)) all);
  few = rw h.added (omega (arith, length-again h.calls x xs, h.bound));
}

Ran-trans :
    (n m : ℕ) (Q : String × Args → Type 0) (xs ys zs : List (String × Args))
    → Ran n Q xs ys
    → Ran m Q ys zs
    → Ran (n + m) Q xs zs
Ran-trans n m Q xs ys zs h k = record {
  kept = λ all. k.kept (h.kept all);
  few = omega (arith, h.few, k.few);
}

Ran-le :
    (n m : ℕ) (Q : String × Args → Type 0) (xs ys : List (String × Args))
    → n ≤ m
    → Ran n Q xs ys
    → Ran m Q xs ys
Ran-le n m Q xs ys le h = record { kept = h.kept; few = omega (arith, h.few) }

Ran-refl : (n : ℕ) (Q : String × Args → Type 0) (xs : List (String × Args)) → Ran n Q xs xs
Ran-refl n Q xs = record { kept = λ h. h; few = omega arith }

pub All-get :
    (P : ToolSpec → Type 0) (tools : List ToolSpec) (k : String) (t : ToolSpec)
    → All P tools
    → get k tools ≡ some t
    → P t
unfolding get find
All-get P [] k t h e = cc
All-get P (x ∷ xs) k t h e = elim (Bool-cases (str_eq x.name k)) [
  | inl this ↦ subst P (ground arith) h.0
  | inr other ↦ All-get P xs k t h.1 (ground arith)
]

module _ (c : Context) (r : ℕ) (few : All (λ t. t.retries ≤ r) c.tools) where
  Ran-tried :
      (name : String) (spec : ToolSpec) (call : ToolCall) (meta : Bool) (s : State)
      → get name c.tools ≡ some spec
      → Ran (r + 1) (IsAuthorizedCall c call.confirmed) s.sent (tried c spec call meta s).1.sent
  Ran-tried name spec call meta s e =
      let registered =
        subst (λ n. get n c.tools ≡ some spec) (sym (get-name name spec c.tools e)) e in
      Ran-le (suc spec.retries) (r + 1) _ _ _
        (omega (arith, All-get (λ t. t.retries ≤ r) c.tools name spec few e))
        (Ran-Sends _ _ (IsAuthorizedCall c call.confirmed) (spec.name, call.args) _ _
          (λ h. (spec, registered, h)) (tried-Sends c spec call meta s))

  -- what is asked of the function that runs the fallback
  abbrev HopRan : ℕ → Option (ToolCall → State → Exit × State) → Type 0
  HopRan m none = Unit
  HopRan m (some run) =
      (call : ToolCall) (s : State)
      → Ran m (IsAuthorizedCall c call.confirmed) s.sent (run call s).1.sent

  Ran-policy :
      (m : ℕ) (hop : Option (ToolCall → State → Exit × State)) (spec : ToolSpec) (call : ToolCall)
      (s : State) (p : OnFailure)
      → HopRan m hop
      → Ran m (IsAuthorizedCall c call.confirmed) s.sent (policy hop spec call s p).1.sent
  unfolding policy
  Ran-policy m none spec call s silent h = Ran-refl m _ s.sent
  Ran-policy m (some run) spec call s silent h = Ran-refl m _ s.sent
  Ran-policy m none spec call s (fallback name) h = Ran-refl m _ s.sent
  Ran-policy m (some run) spec call s (fallback name) h =
      h (record { tool_name = name; args = call.args; confirmed = call.confirmed })
        (logged (tool_fallback spec.name) s)
  Ran-policy m hop spec call s _ h = Ran-refl m _ s.sent

  Ran-conclude :
      (m : ℕ) (hop : Option (ToolCall → State → Exit × State)) (spec : ToolSpec) (call : ToolCall)
      (xs : List (String × Args)) (t : Option Exit × State)
      → HopRan m hop
      → Ran (r + 1) (IsAuthorizedCall c call.confirmed) xs t.1.sent
      → Ran (r + 1 + m) (IsAuthorizedCall c call.confirmed) xs (conclude hop spec call t).1.sent
  unfolding conclude
  Ran-conclude m hop spec call xs (some e, s) h k =
      Ran-le (r + 1) (r + 1 + m) _ xs s.sent (omega arith) k
  Ran-conclude m hop spec call xs (none, s) h k =
      Ran-trans (r + 1) m _ xs s.sent _ k
        (Ran-policy m hop spec call (logged (tool_result spec.name false) s) spec.on_failure h)

  Ran-run_found :
      (m : ℕ) (hop : Option (ToolCall → State → Exit × State)) (call : ToolCall) (meta : Bool)
      (s : State) (found : Option ToolSpec)
      → get call.tool_name c.tools ≡ found
      → HopRan m hop
      → Ran
          (r + 1 + m)
          (IsAuthorizedCall c call.confirmed)
          s.sent
          (run_found hop c call meta s found).1.sent
  unfolding run_found
  Ran-run_found m hop call meta s none e h = Ran-refl _ _ s.sent
  Ran-run_found m hop call meta s (some spec) e h =
      Ran-conclude m hop spec call s.sent (tried c spec call meta s) h
        (Ran-tried call.tool_name spec call meta s e)

  Ran-run_fallback :
      (call : ToolCall) (s : State)
      → Ran (r + 1) (IsAuthorizedCall c call.confirmed) s.sent (run_fallback c call s).1.sent
  unfolding run_fallback
  Ran-run_fallback call s =
      Ran-le (r + 1 + 0) (r + 1) _ _ _ (omega arith) (Ran-run_found 0 none call false s _ refl tt)

  Ran-run_tool :
      (call : ToolCall) (meta : Bool) (s : State)
      → Ran
          (r + 1 + (r + 1))
          (IsAuthorizedCall c call.confirmed)
          s.sent
          (run_tool c call meta s).1.sent
  unfolding run_tool
  Ran-run_tool call meta s =
      Ran-run_found (r + 1) (some (run_fallback c)) call meta s _ refl Ran-run_fallback

  -- Where no tool has more than `r` retries, one `run_tool` makes at most 2 (r + 1) calls of adapters,
  -- those of its fallback included.
  pub run_tool_calls-le :
      (call : ToolCall) (meta : Bool) (s : State)
      → length (run_tool c call meta s).1.sent ≤ length s.sent + 2 * (r + 1)
  run_tool_calls-le call meta s = omega (arith, (Ran-run_tool call meta s).few)

-- a bound on the `retries` of a registry
max_retries : List ToolSpec → ℕ
max_retries [] = 0
max_retries (t ∷ ts) = t.retries + max_retries ts

retries-le-max :
    (m : ℕ) (tools : List ToolSpec) → All (λ t. t.retries ≤ m + max_retries tools) tools
unfolding max_retries
retries-le-max m [] = tt
retries-le-max m (t ∷ ts) =
    (omega arith, All-map ts (λ x le. omega arith) (retries-le-max (m + t.retries) ts))

-- If every call of an adapter so far was authorized, so is every call that `run_tool` makes, retries
-- and the fallback included: the kill switch is off, the viewer's stage has the tool, the tool is not
-- disabled, a confirm-gated one was confirmed, and the arguments are those that the tool declares.
pub run_tool-authorized :
    (c : Context) (call : ToolCall) (meta : Bool) (s : State)
    → All (IsAuthorizedCall c call.confirmed) s.sent
    → All (IsAuthorizedCall c call.confirmed) (run_tool c call meta s).1.sent
run_tool-authorized c call meta s h =
    (Ran-run_tool c (0 + max_retries c.tools) (retries-le-max 0 c.tools) call meta s).kept h
