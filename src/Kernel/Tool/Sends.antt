-- ===== src/Kernel/Tool/Sends.antt =====
-- The calls of adapters that the attempts of one tool make, behind its gates.
use kyraan.Base.{
  ℕ, zero, suc, ◌+◌, ◌≤◌, String, ◌≡◌, ◌≢◌, refl, Bool, true, false, Option, none, some, List, ◌∷◌,
  arith, ◌∙◌, inl, inr, ◌⊎◌, ◌<◌, Bool-cases, again, again-cons,
}
use kyraan.Registry.{confirm, disabled, ToolSpec, is_write}
use kyraan.Kernel.Context.{
  Args, Answer, result, timed_out, transient_error, tool_error, other_exception, tool_call,
  ToolCall, Exit, Context, State, logged, tool_retry,
}
use kyraan.Kernel.Viewer.{stage_allows}
use kyraan.Kernel.Tool.{
  validate_args, settle, attempts, gate, rail, metered, continue, checked_attempts, tried,
}

-- What a part of the run has added to the calls: at most `n`, all the same, and only if `P`.
pub record Sends (n : ℕ) (P : Type 0) (x : String × Args) (xs ys : List (String × Args))
    : Type 0 where
  pub calls : ℕ
  pub bound : calls ≤ n
  pub added : ys ≡ again calls x xs
  pub allowed : 0 < calls → P

module _ (x : String × Args) (xs : List (String × Args)) where
  Sends-none : (n : ℕ) (P : Type 0) (ys : List (String × Args)) → ys ≡ xs → Sends n P x xs ys
  Sends-none n P ys e = record {
    calls = 0;
    bound = omega arith;
    added = e;
    allowed = λ h. absurd (omega arith);
  }

  Sends-one : (n : ℕ) → Sends (suc n) (Unit {0}) x xs (x ∷ xs)
  Sends-one n = record { calls = 1; bound = omega arith; added = refl; allowed = λ _. tt }

  Sends-suc :
      (n : ℕ) (ys : List (String × Args))
      → Sends n (Unit {0}) x (x ∷ xs) ys
      → Sends (suc n) (Unit {0}) x xs ys
  Sends-suc n ys h = record {
    calls = suc h.calls;
    bound = omega (arith, h.bound);
    added = h.added ∙ again-cons h.calls x xs;
    allowed = λ _. tt;
  }

  Sends-if :
      (n : ℕ) (P : Type 0) (ys : List (String × Args))
      → P
      → Sends n (Unit {0}) x xs ys
      → Sends n P x xs ys
  Sends-if n P ys p h = record {
    calls = h.calls;
    bound = h.bound;
    added = h.added;
    allowed = λ _. p;
  }

module _ (spec : ToolSpec) (args : Args) where
  -- the state after one more call
  abbrev sent_once : State → State
  sent_once s = record s { sent = (spec.name, args) ∷ s.sent }

  settle-Sends :
      (n : ℕ) (retry : Option Exit × State) (s : State) (a : Answer)
      → Sends n (Unit {0}) (spec.name, args) (sent_once s).sent retry.1.sent
      → Sends (suc n) (Unit {0}) (spec.name, args) s.sent (settle spec retry (sent_once s) a).1.sent
  unfolding settle
  settle-Sends n retry s (result v) h = Sends-one (spec.name, args) s.sent n
  settle-Sends n retry s timed_out h = elim (Bool-cases (is_write spec.side_effects)) [
    | inl writes ↦ rw writes (Sends-one (spec.name, args) s.sent n)
    | inr reads ↦ rw reads (Sends-suc (spec.name, args) s.sent n retry.1.sent h)
  ]
  settle-Sends n retry s transient_error h = Sends-suc (spec.name, args) s.sent n retry.1.sent h
  settle-Sends n retry s tool_error h = Sends-one (spec.name, args) s.sent n
  settle-Sends n retry s (other_exception _) h = Sends-one (spec.name, args) s.sent n

  attempts-Sends :
      (c : Context) (left attempt : ℕ) (s : State)
      → Sends left (Unit {0}) (spec.name, args) s.sent (attempts c spec args left attempt s).1.sent
  unfolding attempts
  attempts-Sends c zero attempt s = Sends-none (spec.name, args) s.sent 0 (Unit {0}) s.sent refl
  attempts-Sends c (suc left) attempt s =
      settle-Sends left _ s (c.dispatch spec args attempt)
        (attempts-Sends c left (attempt + 1) (logged (tool_retry spec.name attempt) (sent_once s)))

-- Why a call may reach an adapter.
pub record IsAuthorized (c : Context) (spec : ToolSpec) (confirmed : Bool) (args : Args)
    : Type 0 where
  pub not_halted : c.engaged ≡ false
  pub in_scope : stage_allows c spec.name none ≡ true
  pub is_on : spec.permission ≢ disabled
  pub is_approved : spec.permission ≡ confirm → (confirmed ≡ true) ⊎ (c.skill_confirmed ≡ true)
  pub arguments_fit : validate_args c.parses_as_datetime spec args ≡ true

module _ (c : Context) (spec : ToolSpec) (call : ToolCall) where
  sent-gate : (s : State) → (gate c spec call s).1.sent ≡ s.sent
  unfolding gate
  sent-gate s = ground arith

  gate_passed :
      (s : State)
      → (gate c spec call s).0 ≡ none
      → (c.engaged ≡ false)
        × (stage_allows c spec.name none ≡ true)
        × (spec.permission ≢ disabled)
        × (spec.permission ≡ confirm → (call.confirmed ≡ true) ⊎ (c.skill_confirmed ≡ true))
  unfolding gate
  gate_passed s h = (ground arith, ground arith, ground arith, ground arith)

  sent-rail : (meta : Bool) (s : State) → (rail c spec call meta s).1.sent ≡ s.sent
  unfolding rail metered
  sent-rail meta s = ground arith

  Sends-continue :
      (n : ℕ) (P : Type 0) (xs : List (String × Args)) (m : Option Exit × State)
      (rest : State → Option Exit × State)
      → m.1.sent ≡ xs
      → ((s : State)
          → m.0 ≡ none
          → s.sent ≡ xs
          → Sends n P (spec.name, call.args) xs (rest s).1.sent)
      → Sends n P (spec.name, call.args) xs (continue m rest).1.sent
  unfolding continue
  Sends-continue n P xs (some e, s) rest same h =
      Sends-none (spec.name, call.args) xs n P s.sent same
  Sends-continue n P xs (none, s) rest same h = h s refl same

  checked_attempts-Sends :
      (P : Type 0) (s : State)
      → (validate_args c.parses_as_datetime spec call.args ≡ true → P)
      → Sends
          (suc spec.retries)
          P
          (spec.name, call.args)
          s.sent
          (checked_attempts c spec call s).1.sent
  unfolding checked_attempts
  checked_attempts-Sends P s p =
      elim (Bool-cases (validate_args c.parses_as_datetime spec call.args)) [
        | inl fit ↦ rw fit (
            Sends-if (spec.name, call.args) s.sent (suc spec.retries) P _ (p fit)
              (attempts-Sends spec call.args c (suc spec.retries) 0
                (logged (tool_call spec.name) s)))
        | inr wrong ↦
            rw wrong (Sends-none (spec.name, call.args) s.sent (suc spec.retries) P s.sent refl)
      ]

  pub tried-Sends :
      (meta : Bool) (s : State)
      → Sends
          (suc spec.retries)
          (IsAuthorized c spec call.confirmed call.args)
          (spec.name, call.args)
          s.sent
          (tried c spec call meta s).1.sent
  unfolding tried
  tried-Sends meta s = Sends-continue _ _ s.sent _ _ (sent-gate s) λ s1 passed same.
      Sends-continue _ _ s.sent _ _ (sent-rail _ s1 ∙ same) λ s2 _ same2.
        let (running, scope, on, approved) = gate_passed s passed in
        rw (← same2) (
          checked_attempts-Sends _ s2 (λ fit. record {
            not_halted = running;
            in_scope = scope;
            is_on = on;
            is_approved = approved;
            arguments_fit = fit;
          }))
