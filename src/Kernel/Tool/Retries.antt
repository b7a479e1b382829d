-- ===== src/Kernel/Tool/Retries.antt =====
-- What the retry loop of `run_tool` in kernel.py sends again.
use kyraan.Base.{
  false, ℕ, zero, suc, ◌+◌, ◌≤◌, ◌<◌, String, ◌≡◌, refl, ◌∙◌, ◌⊎◌, inl, inr, Option, List, ◌∷◌,
  arith, again, again-cons, Bool-cases,
}
use mathlib.Core.Path.{subst}
use kyraan.Registry.{ToolSpec, is_write}
use kyraan.Kernel.Context.{
  Args, Answer, result, timed_out, transient_error, tool_error, other_exception, Exit, Context,
  State, logged, tool_retry,
}
use kyraan.Kernel.Tool.{settle, attempts}

-- An answer after which the call may be sent again: a transient error, or the timeout of a tool that
-- does not write.
abbrev pub MayResend : ToolSpec → Answer → Type 0
MayResend spec a = (a ≡ transient_error) ⊎ ((a ≡ timed_out) × (is_write spec.side_effects ≡ false))

-- What the loop has sent, and what the tool answered to all of it but the last.
pub record Resends (c : Context) (spec : ToolSpec) (args : Args) (attempt left : ℕ)
    (xs ys : List (String × Args)) : Type 0 where
  pub calls : ℕ
  pub bound : calls ≤ left
  pub added : ys ≡ again calls (spec.name, args) xs
  pub after_error : (i : ℕ) → suc i < calls → MayResend spec (c.dispatch spec args (attempt + i))

module _ (c : Context) (spec : ToolSpec) (args : Args) where
  abbrev sent_once : State → State
  sent_once s = record s { sent = (spec.name, args) ∷ s.sent }

  Resends-one :
      (attempt left : ℕ) (s : State)
      → Resends c spec args attempt (suc left) s.sent (sent_once s).sent
  Resends-one attempt left s = record {
    calls = 1;
    bound = omega arith;
    added = refl;
    after_error = λ i h. absurd (omega arith);
  }

  after_first :
      (attempt k : ℕ)
      → MayResend spec (c.dispatch spec args attempt)
      → ((i : ℕ) → suc i < k → MayResend spec (c.dispatch spec args (attempt + 1 + i)))
      → (i : ℕ) → suc i < suc k
      → MayResend spec (c.dispatch spec args (attempt + i))
  after_first attempt k p h zero lt =
      subst (λ n. MayResend spec (c.dispatch spec args n)) (omega arith) p
  after_first attempt k p h (suc i) lt =
      subst (λ n. MayResend spec (c.dispatch spec args n)) (omega arith) (h i (omega arith))

  Resends-suc :
      (attempt left : ℕ) (s : State) (ys : List (String × Args))
      → MayResend spec (c.dispatch spec args attempt)
      → Resends c spec args (attempt + 1) left (sent_once s).sent ys
      → Resends c spec args attempt (suc left) s.sent ys
  Resends-suc attempt left s ys p h = record {
    calls = suc h.calls;
    bound = omega (arith, h.bound);
    added = h.added ∙ again-cons h.calls (spec.name, args) s.sent;
    after_error = after_first attempt h.calls p h.after_error;
  }

  settle-Resends :
      (attempt left : ℕ) (retry : Option Exit × State) (s : State) (a : Answer)
      → c.dispatch spec args attempt ≡ a
      → Resends c spec args (attempt + 1) left (sent_once s).sent retry.1.sent
      → Resends c spec args attempt (suc left) s.sent (settle spec retry (sent_once s) a).1.sent
  unfolding settle
  settle-Resends attempt left retry s (result v) e h = Resends-one attempt left s
  settle-Resends attempt left retry s timed_out e h =
      elim (Bool-cases (is_write spec.side_effects)) [
        | inl writes ↦ rw writes (Resends-one attempt left s)
        | inr reads ↦ rw reads (Resends-suc attempt left s retry.1.sent (inr (e, reads)) h)
      ]
  settle-Resends attempt left retry s transient_error e h =
      Resends-suc attempt left s retry.1.sent (inl e) h
  settle-Resends attempt left retry s tool_error e h = Resends-one attempt left s
  settle-Resends attempt left retry s (other_exception x) e h = Resends-one attempt left s

  -- The attempts send the same call, at most as often as attempts are left, and each time but the last
  -- the tool answered with a transient error, or with a timeout of a tool that does not write. So a
  -- write is never sent again after a timeout, and nothing is after any other answer.
  pub attempts-Resends :
      (left attempt : ℕ) (s : State)
      → Resends c spec args attempt left s.sent (attempts c spec args left attempt s).1.sent
  unfolding attempts
  attempts-Resends zero attempt s = record {
    calls = 0;
    bound = omega arith;
    added = refl;
    after_error = λ i h. absurd (omega arith);
  }
  attempts-Resends (suc left) attempt s =
      settle-Resends attempt left _ s (c.dispatch spec args attempt) refl
        (attempts-Resends left (attempt + 1) (logged (tool_retry spec.name attempt) (sent_once s)))
