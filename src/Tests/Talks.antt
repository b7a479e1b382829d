-- ===== src/Tests/Talks.antt =====
-- Runs of a chat's session.
use mathlib.Core.Path.{subst}
use kyraan.Base.{
  Option, String, All, starts_with, Bool-cases, map, inl, ◌≡◌, refl, true, false, none, some, List,
  [], ◌∷◌, ◌++◌, ◌≤◌, again, length, inr, ◌==◌, arith,
}
use kyraan.Sessions.{window, command, Turn, Session, user, assistant}
use kyraan.Sessions.Window.{proactive, Step, exchange, begin, end, run, run-IsBounded}
use kyraan.Sessions.Steady.{seen}
use kyraan.Sessions.Secrets.{redact_recent}
use kyraan.Sessions.Secrets.Lines.{IsNeutral, IsHidden}
use kyraan.Sessions.Secrets.Covered.{secret_covered}
use kyraan.Sessions.Log.{
  Line, log_line, by_user, by_assistant, turns, apply_redactions, Words, seed_history_from_log,
  legacy_cloud_placeholder, log_exchange, log_proactive,
}
use kyraan.Sessions.Seed.{log_of, seed_restores}
use kyraan.Sessions.Kept.{conversation_kept, told, conversation, recorded}

abbrev hello : Turn
hello = record { role = user; text = "hello" }

abbrev old : Turn
old = record { role = assistant; text = "noted" }

-- a full window and nine entries waiting
abbrev long_chat : Session
long_chat = record {
  live = true;
  answers = λ _. true;
  asked = 0;
  redis_history = again 40 hello [];
  redis_backlog = again 9 old [];
  mem_history = [];
  mem_backlog = [];
  rolling = none;
  summary = "";
}

-- the exchange pushes two entries out; a first roll fails, a second one succeeds
abbrev day : List Step
day =
    exchange false "hi" "hello"
    ∷ begin
    ∷ end none
    ∷ begin
    ∷ exchange true "my pin" "noted"
    ∷ end (some "greetings")
    ∷ []

conversation_kept_example :
    told day long_chat ++ conversation (run day long_chat) ≡ conversation long_chat ++ recorded day
conversation_kept_example =
    conversation_kept day long_chat (inr (λ _. refl)) (omega arith)
      (tt, (tt, (tt, (tt, (tt, (refl, tt))))))

-- Redis dies at the second command
abbrev dying : Session
dying = record long_chat { answers = λ n. n == 0 }

run-IsBounded_example :
    (length (run day dying).redis_history ≤ 40) × (length (run day dying).mem_history ≤ 40)
run-IsBounded_example = run-IsBounded day dying (omega arith, omega arith)

abbrev words : Words
words = record {
  has = λ _ _. false;
  has_lower = λ _ _. false;
  first_line = λ t. t;
  counts_unread = λ _. false;
  html_mark = "<html>";
  untagged = λ t. t;
}

abbrev new_chat : Session
new_chat = record long_chat { redis_history = []; redis_backlog = [] }

abbrev restarted : Session
restarted = record new_chat { live = false }

abbrev morning : List Step
morning =
    exchange false "hi" "hello" ∷ proactive "a glass of water" ∷ exchange true "my pin" "kept" ∷ []

seed_restores_example :
    seen (seed_history_from_log words 40 7 (map some (log_of words 7 morning)) restarted)
    ≡ seen (run morning new_chat)
unfolding legacy_cloud_placeholder log_exchange log_proactive
seed_restores_example =
    seed_restores words 7 morning new_chat restarted (inr (λ _. refl)) refl (inl refl) refl
      (
        ((refl, refl, refl), (refl, refl, refl)),
        ((refl, refl, refl), (((refl, refl, refl), (refl, refl, refl)), tt)),
      )
      (omega arith)

-- words that a text begins with, for the tests
abbrev whispers : Words
whispers = record words { has_lower = λ text needle. starts_with text needle }

-- a replaced text does not begin so
abbrev Other : Option String → Type 0
Other none = Unit
Other (some shown) = starts_with shown "my pin" ≡ false

Other_lem : (text : String) → Other (legacy_cloud_placeholder whispers text)
unfolding legacy_cloud_placeholder
Other_lem text = elim (Bool-cases (starts_with text "Facts awaiting your review:")) [
  | inl h ↦ simp h refl
  | inr h ↦ elim (Bool-cases (starts_with text "✅ Saved to memory:")) [
    | inl g ↦ simp (h, g) refl
    | inr g ↦ elim (Bool-cases (starts_with text "🗑 Rejected:")) [
      | inl k ↦ simp (h, g, k) refl
      | inr k ↦ simp (h, g, k) tt
    ]
  ]
]

whispers-IsNeutral : IsNeutral whispers "my pin"
whispers-IsNeutral = (refl, λ text shown e. subst Other e (Other_lem text))

abbrev confided : Session
confided = record restarted {
  mem_history =
      hello
      ∷ record { role = user; text = "my pin is 4711" }
      ∷ record { role = assistant; text = "ok" }
      ∷ [];
}

abbrev confided_log : List Line
confided_log =
    log_line whispers by_user 7 "my pin is 4711" none
    ∷ log_line whispers by_assistant 7 "ok" none
    ∷ []

secret_covered_example :
    All (IsHidden whispers "my pin") (seen (redact_recent whispers 7 4 "my pin" confided).1)
    × All (IsHidden whispers "my pin") (
        turns whispers 7 (
          apply_redactions whispers
            (confided_log ++ (redact_recent whispers 7 4 "my pin" confided).2)))
unfolding redact_recent window command
secret_covered_example =
    secret_covered whispers 7 4 "my pin" confided confided_log refl whispers-IsNeutral (inl refl)
      (λ e. ground (arith, e))
