-- ===== src/Tests/Facts.antt =====
-- Runs of the memory: its index, its table and its block in a prompt.
use kyraan.Base.{
  String, ◌≡◌, ◌≢◌, refl, true, false, none, some, List, [], ◌∷◌, All, arith, eq_iff, str_eq,
  str_in,
}
use kyraan.Base.Table.{find}
use kyraan.Kernel.Context.{Context}
use kyraan.Tests.House.{house}
use kyraan.Kernel.Viewer.{effective_reviewer}
use kyraan.Memory.{Entry, Lexicon, owner, entry_id, is_empty}
use kyraan.Memory.Facts.{
  Fact, fact_id, Memory, Sync, committed, failed, save_and_mirror, mirror_entries, settle_sync,
}
use kyraan.Memory.Facts.Tracks.{Tracks}
use kyraan.Memory.Index.{
  NewFact, add_fact, add_unknown, find_same, new_entry, forget, unforget, author_of,
}
use kyraan.Memory.Index.Runs.{Op, adding, forgetting, step, run, Sound}
use kyraan.Memory.Index.Forget.{unforget-forget}
use kyraan.Memory.Index.Authors.{Statement, add_all, others_cannot_supersede}
use kyraan.Memory.Index.Retry.{add_fact_again}
use kyraan.Memory.Context.{Search, is_vital, build_context}
use kyraan.Memory.Context.Shown.{IsLive, context_shows-IsLive}
use kyraan.Memory.Context.Private.{IsForViewer, context_keeps_private}
use kyraan.Memory.Context.Vital.{Shows, IsVital, vital_facts_shown}

-- one word to a text
abbrev pub whole : Lexicon
whole = record {
  split = λ t. t ∷ [];
  clean = λ w. w;
  is_possessive = λ _. false;
  cut_two = λ w. w;
  size = λ _. 6;
  lower = λ w. w;
  bare = λ t. t;
}

abbrev pub reaching : Sync
reaching = record {
  enabled = true;
  now = 100;
  later = 100;
  outcome = committed;
  embed = λ _. none;
  written = true;
}

abbrev pub cut_off : Sync
cut_off = record reaching { outcome = failed "no route" }

abbrev pub nothing_known : Memory
nothing_known = record { entries = []; facts = []; persons = []; marks = []; breaker_until = 0 }

abbrev pub allergy : NewFact
allergy = record {
  content = "peanuts";
  target = record { category = "people"; name = "owner" };
  source = "told";
  kind = "other";
  term = "long";
  importance = "normal";
  flags = "health" ∷ [];
  supersedes = none;
  era = "current";
  sphere = "personal";
}

abbrev pub peanuts : Entry
peanuts = record {
  id = "a1";
  content = "peanuts";
  target = record { category = "people"; name = "owner" };
  kind = "other";
  term = "long";
  importance = "normal";
  flags = "health" ∷ [];
  era = "current";
  sphere = "personal";
  created = "t1";
  source = "told";
  author = "owner";
  active = true;
  superseded_by = none;
}

abbrev asked : Search
asked = record {
  read_time = λ _. none;
  now = 500;
  text_matches = λ _. false;
  near = λ _. false;
  newest = λ _. true;
  similarity = λ _. none;
  row_before = λ _ _. false;
  raises = false;
}

abbrev pub ruma : Context
ruma = record house { person = "ruma" }

-- the fact reaches the database, and its removal does not
abbrev told_and_forgotten : List (Sync × Op)
told_and_forgotten =
    (reaching, adding house "a1" "t1" allergy) ∷ (cut_off, forgetting ("a1" ∷ [])) ∷ []

nothing-Tracks : Tracks nothing_known
unfolding find
nothing-Tracks = record {
  unique_entries = tt;
  unique_facts = tt;
  filed = λ k f h. absurd (cc h);
  in_step = λ _ k f h. absurd (cc h);
  complete = λ _ k e h. absurd (cc h);
}

told_and_forgotten-Sound : Sound whole told_and_forgotten nothing_known
unfolding find
told_and_forgotten-Sound = (refl, refl, refl, (refl, refl, tt, tt))

context_shows-IsLive_example :
    All
      (IsLive
        (build_context whole
          (λ _ _. false)
          true
          asked
          reaching
          house
          "nuts?"
          3500
          (run whole told_and_forgotten nothing_known)).1)
      (build_context whole
        (λ _ _. false)
        true
        asked
        reaching
        house
        "nuts?"
        3500
        (run whole told_and_forgotten nothing_known)).0
context_shows-IsLive_example =
    context_shows-IsLive whole told_and_forgotten nothing_known (λ _ _. false) true asked reaching
      house "nuts?" 3500 nothing-Tracks told_and_forgotten-Sound refl refl

ruma_is_not_owner : ◌≢◌ {A = String} "ruma" owner
ruma_is_not_owner = ground (arith, eq_iff "ruma" "owner")

context_keeps_private_example :
    All
      (IsForViewer "ruma" (run whole told_and_forgotten nothing_known))
      (build_context whole
        (λ _ _. false)
        true
        asked
        reaching
        ruma
        "nuts?"
        3500
        (run whole told_and_forgotten nothing_known)).0
context_keeps_private_example =
    context_keeps_private whole told_and_forgotten nothing_known (λ _ _. false) true asked reaching
      ruma "nuts?" 3500 nothing-Tracks told_and_forgotten-Sound ruma_is_not_owner

-- the fact is told while the database is away
abbrev told : List (Sync × Op)
told = (cut_off, adding house "a1" "t1" allergy) ∷ []

told-Sound : Sound whole told nothing_known
unfolding find
told-Sound = (refl, refl, refl, tt)

told-entries : find entry_id "a1" (run whole told nothing_known).entries ≡ some peanuts
unfolding find step add_fact add_unknown find_same save_and_mirror mirror_entries is_empty
    settle_sync new_entry str_in author_of effective_reviewer
told-entries = refl

told_no_row :
    (f : Fact)
    → find fact_id "a1" (run whole told nothing_known).facts ≡ some f
    → str_eq f.visibility "subject_only" ≡ false
unfolding find step add_fact add_unknown find_same save_and_mirror mirror_entries is_empty
    settle_sync new_entry str_in author_of effective_reviewer
told_no_row f h = absurd (cc h)

peanuts-IsVital : IsVital peanuts
unfolding is_vital str_in
peanuts-IsVital = refl

vital_facts_shown_example :
    Shows "peanuts"
      (build_context whole
        (λ _ _. false)
        true
        asked
        reaching
        house
        "weather?"
        0
        (run whole told nothing_known)).0
vital_facts_shown_example =
    vital_facts_shown whole told nothing_known (λ _ _. false) true asked reaching house "weather?" 0
      "a1" peanuts nothing-Tracks told-Sound refl told-entries refl peanuts-IsVital refl told_no_row

abbrev pub knowing : Memory
knowing = record nothing_known { entries = peanuts ∷ [] }

unforget-forget_example :
    ((unforget reaching ("a1" ∷ []) (forget cut_off ("a1" ∷ []) knowing).1).1.entries
      ≡ peanuts ∷ [])
    × ((unforget reaching ("a1" ∷ []) (forget cut_off ("a1" ∷ []) knowing).1).0
        ≡ (forget cut_off ("a1" ∷ []) knowing).0)
unforget-forget_example = unforget-forget cut_off reaching ("a1" ∷ []) knowing ((λ _. refl), tt)

-- somebody else says that the fact is no longer so
abbrev denial : Statement
denial = record {
  sync = reaching;
  context = ruma;
  id = "b1";
  created = "t2";
  fact = record allergy { content = "no allergy"; supersedes = some "peanuts" };
}

ruma_writes_as_herself : author_of ruma ≢ owner
unfolding author_of effective_reviewer
ruma_writes_as_herself = ruma_is_not_owner

others_cannot_supersede_example :
    (e' : Entry) × (find entry_id "a1" (add_all whole (denial ∷ []) knowing).entries ≡ some e')
    × (e' ≡ record peanuts { flags = e'.flags })
unfolding find
others_cannot_supersede_example =
    others_cannot_supersede whole (denial ∷ []) knowing "a1" peanuts refl
      (ruma_writes_as_herself, tt)

add_fact_again_example :
    add_fact whole cut_off ruma "c1" "t3" allergy
      (add_fact whole reaching house "a1" "t1" allergy nothing_known).2
    ≡ (
      (add_fact whole reaching house "a1" "t1" allergy nothing_known).0,
      [],
      (add_fact whole reaching house "a1" "t1" allergy nothing_known).2,
    )
add_fact_again_example =
    add_fact_again whole reaching cut_off house ruma "a1" "c1" "t1" "t3" allergy nothing_known
