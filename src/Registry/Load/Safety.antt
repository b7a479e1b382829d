-- ===== src/Registry/Load/Safety.antt =====
-- What a registry that `load` accepts can be relied on for.
use kyraan.Base.{
  String, ◌≡◌, ◌≢◌, refl, true, false, some, List, [], ◌∷◌, arith, str_eq, str_in, eq_iff, All,
  All-map_both, Bool-cases, inl, inr,
}
use kyraan.Base.Table.{find}
use kyraan.Registry.Defs.{auto, confirm, read, notify, silent, fallback, ToolSpec}
use kyraan.Registry.Load.{
  Checked, ok, err, Entry, Server, media_auto_exempt, validate, spec_of, load, get,
  springs_confirmation, ◌>>=◌, check_failure, check_servers, server_names, entry_names, build,
  check_fallbacks,
}

-- A tool that may do more than read asks first, unless it is one of the exempt media tools; a tool
-- that fails silently is a notification.
pub record IsGuarded (s : ToolSpec) : Type 0 where
  pub asks_first :
      s.side_effects ≢ read → s.permission ≡ auto → str_in s.name media_auto_exempt ≡ true
  pub silent_notifies : s.on_failure ≡ silent → s.side_effects ≡ notify

-- A fallback names another tool of the registry, and one that does not ask.
abbrev pub FallbackIsSafe : List ToolSpec → ToolSpec → Type 0
FallbackIsSafe specs s =
    (target : String)
    → s.on_failure ≡ fallback target
    → (target ≢ s.name) × ((t : ToolSpec) × (get target specs ≡ some t) × (t.permission ≢ confirm))

-- Code that was accepted was accepted at its first step.
first_step :
    {V W : Type 0} (outcome : Checked V) (rest : V → Checked W) (w : W)
    → (outcome >>= rest) ≡ ok w
    → (v : V) × (outcome ≡ ok v) × (rest v ≡ ok w)
first_step (ok v) rest w h = (v, refl, h)
first_step (err fault) rest w h = cc

-- The two tests of `_validate` that a guarded tool passes.
validate-asks_first :
    (s : ToolSpec) (names servers : List String)
    → validate s names servers ≡ ok tt
    → s.side_effects ≢ read
    → s.permission ≡ auto
    → str_in s.name media_auto_exempt ≡ true
unfolding validate
validate-asks_first s names servers h effect permission = ground arith

validate-check_failure :
    (s : ToolSpec) (names servers : List String)
    → validate s names servers ≡ ok tt
    → check_failure s names s.on_failure ≡ ok tt
unfolding validate
validate-check_failure s names servers h = ground arith

validate-IsGuarded :
    (s : ToolSpec) (names servers : List String) → validate s names servers ≡ ok tt → IsGuarded s
unfolding check_failure
validate-IsGuarded s names servers h = record {
  asks_first = validate-asks_first s names servers h;
  silent_notifies = λ e. ground (arith, validate-check_failure s names servers h);
}

-- One step of the loop that builds the registry, taken apart.
build-cons :
    (names servers : List String) (name : String) (e : Entry) (es : List (String × Entry))
    (specs : List ToolSpec)
    → build names servers ((name, e) ∷ es) ≡ ok specs
    → (rest : List ToolSpec) × (validate (spec_of name e) names servers ≡ ok tt)
      × (build names servers es ≡ ok rest)
      × (specs ≡ spec_of name e ∷ rest)
unfolding build
build-cons names servers name e es specs h =
    let (u, valid, h') = first_step (validate (spec_of name e) names servers) _ specs h in
    let (rest, built, h'') = first_step (build names servers es) _ specs h' in
    (rest, valid, built, cc)

-- The registry holds a tool under each name of the configuration.
get-build :
    (names servers : List String) (tools : List (String × Entry)) (specs : List ToolSpec)
    (k : String)
    → build names servers tools ≡ ok specs
    → str_in k (entry_names tools) ≡ true
    → (t : ToolSpec) × (get k specs ≡ some t)
unfolding entry_names get find str_in spec_of
get-build names servers [] specs k h e = cc
get-build names servers ((name, e) ∷ es) specs k h m =
    let (rest, valid, built, same) = build-cons names servers name e es specs h in
    elim (Bool-cases (str_eq name k)) [
      | inl this ↦ (spec_of name e, rw (same, this))
      | inr other ↦
          let (t, found) = get-build names servers es rest k built (ground arith) in
          (t, rw (same, other) found)
    ]

build-nil :
    (names servers : List String) (specs : List ToolSpec)
    → build names servers [] ≡ ok specs
    → specs ≡ []
unfolding build
build-nil names servers specs h = cc

build-All-valid :
    (names servers : List String) (tools : List (String × Entry)) (specs : List ToolSpec)
    → build names servers tools ≡ ok specs
    → All (λ s. validate s names servers ≡ ok tt) specs
build-All-valid names servers [] specs h = rw (build-nil names servers specs h) tt
build-All-valid names servers ((name, e) ∷ es) specs h =
    let (rest, valid, built, same) = build-cons names servers name e es specs h in
    rw same (valid, build-All-valid names servers es rest built)

check_fallbacks-All :
    (specs ss : List ToolSpec)
    → check_fallbacks specs ss ≡ ok tt
    → All (λ s. springs_confirmation specs s.on_failure ≡ false) ss
unfolding check_fallbacks
check_fallbacks-All specs [] h = tt
check_fallbacks-All specs (s ∷ ss) h = elim (Bool-cases (springs_confirmation specs s.on_failure)) [
  | inl springs ↦ ground arith
  | inr fine ↦ (fine, check_fallbacks-All specs ss (ground arith))
]

FallbackIsSafe-intro :
    (tools : List (String × Entry)) (servers : List String) (specs : List ToolSpec) (s : ToolSpec)
    → build (entry_names tools) servers tools ≡ ok specs
    → validate s (entry_names tools) servers ≡ ok tt
    → springs_confirmation specs s.on_failure ≡ false
    → FallbackIsSafe specs s
unfolding check_failure get
FallbackIsSafe-intro tools servers specs s built valid fine target e =
    let checked = validate-check_failure s (entry_names tools) servers valid in
    let (t, found) =
      get-build (entry_names tools) servers tools specs target built (ground arith) in
    (ground (arith, eq_iff target s.name), (t, found, ground arith))

-- A registry that `load` accepts: every tool is guarded, and every fallback is safe.
pub load-IsSafe :
    (tools : List (String × Entry)) (servers : List Server) (specs : List ToolSpec)
    → load tools servers ≡ ok specs
    → All (λ s. IsGuarded s × FallbackIsSafe specs s) specs
unfolding load
load-IsSafe tools servers specs h =
    let names = entry_names tools in
    let hosts = server_names servers in
    let (_, _, h2) = first_step (check_servers servers) _ specs h in
    let (built_specs, built, h3) = first_step (build names hosts tools) _ specs h2 in
    let (_, checked, h4) = first_step (check_fallbacks built_specs built_specs) _ specs h3 in
    let same : built_specs ≡ specs = cc in
    let built' : build names hosts tools ≡ ok specs = rw (← same) built in
    All-map_both specs
      (λ s valid fine. (
        validate-IsGuarded s names hosts valid,
        FallbackIsSafe-intro tools hosts specs s built' valid fine,
      ))
      (build-All-valid names hosts tools specs built')
      (rw (← same) (check_fallbacks-All built_specs built_specs checked))
