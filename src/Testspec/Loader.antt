-- ===== src/Testspec/Loader.antt =====
-- pkg/testspec: the defaults, the validation and the loading of test files.
use vcltest.Base.{
  Bool, true, false, not, ◌&&◌, ◌||◌, Option, none, some, List, [], ◌∷◌, ◌++◌, ℕ, ◌+◌, ◌==◌,
  if◌then◌else◌,
}
use vcltest.Base.Int.{ℤ, int_eq, pos}
use vcltest.Base.Map.{Map}
use vcltest.Base.Text.{Text, text_eq, codes, is_empty}
use vcltest.Testspec.{RequestSpec, BackendSpec, ExpectationsSpec, ScenarioStep, TestSpec}

abbrev pub or_status : ℤ → ℤ → ℤ
or_status d s = if s == pos 0 then d else s

abbrev pub with_method : RequestSpec → RequestSpec
with_method r = if is_empty r.method then record r { method = codes "GET" } else r

abbrev pub with_headers : Option (Map Text Text) → Option (Map Text Text)
with_headers none = some []
with_headers (some h) = some h

abbrev pub with_status : BackendSpec → BackendSpec
with_status b = record b { status = or_status (pos 404) b.status; headers = with_headers b.headers }

-- The loop over a map of backends, each written back under its own name.
abbrev pub with_statuses : Map Text BackendSpec → Map Text BackendSpec
with_statuses [] = []
with_statuses ((name, spec) ∷ m) = (name, with_status spec) ∷ with_statuses m

abbrev pub with_response_status : ExpectationsSpec → ExpectationsSpec
with_response_status e = record e {
  response = record e.response { status = or_status (pos 200) e.response.status };
}

abbrev pub step_defaults : ScenarioStep → ScenarioStep
step_defaults s = record s {
  request = with_method s.request;
  backends = with_statuses s.backends;
  expectations = with_response_status s.expectations;
}

abbrev pub all_step_defaults : List ScenarioStep → List ScenarioStep
all_step_defaults [] = []
all_step_defaults (s ∷ ss) = step_defaults s ∷ all_step_defaults ss

-- `IsScenario`
abbrev pub is_scenario : TestSpec → Bool
is_scenario t = elim t.scenario [ [] ↦ false | s ∷ ss ↦ true ]

-- The two branches of `ApplyDefaults`.
abbrev pub single_defaults : TestSpec → TestSpec
single_defaults t = record t {
  request = with_method t.request;
  backends = with_statuses t.backends;
  expectations = with_response_status t.expectations;
}

abbrev pub scenario_defaults : TestSpec → TestSpec
scenario_defaults t = record t { scenario = all_step_defaults t.scenario }

-- `ApplyDefaults`
unfoldable pub apply_defaults : TestSpec → TestSpec
apply_defaults t = if is_scenario t then scenario_defaults t else single_defaults t

-- The messages of `validate`, with the step's number.
pub data Invalid : Type 0 where
  name_required both_kinds no_kind status_required : Invalid
  bad_failure_mode : Text → Text → Invalid
  at_required url_required step_status_required : ℕ → Invalid
  bad_step_failure_mode : ℕ → Text → Text → Invalid

-- `validateBackendSpec`
abbrev pub is_failure_mode : Text → Bool
is_failure_mode m = is_empty m || (m == codes "failed" || m == codes "frozen")

-- The loop over the backends: the first bad one and its mode.
abbrev pub bad_backend : Map Text BackendSpec → Option (Text × Text)
bad_backend [] = none
bad_backend ((name, spec) ∷ m) =
    let rest = bad_backend m in
    if is_failure_mode spec.failure_mode then rest else some (name, spec.failure_mode)

unfoldable pub validate_step : ℕ → ScenarioStep → Option Invalid
validate_step i s =
    if is_empty s.at
    then some (at_required i)
    else if is_empty s.request.url
    then some (url_required i)
    else if s.expectations.response.status == pos 0
    then some (step_status_required i)
    else elim (bad_backend s.backends) [
      | none ↦ none
      | some (name, mode) ↦ some (bad_step_failure_mode i name mode)
    ]

-- The loop over the steps; `i` is the number of the first.
unfoldable pub validate_steps : ℕ → List ScenarioStep → Option Invalid
unfolding validate_step
validate_steps i [] = none
validate_steps i (s ∷ ss) = elim (validate_step i s) [
  | none ↦ validate_steps (i + 1) ss
  | some e ↦ some e
]

unfoldable pub validate_single : TestSpec → Option Invalid
validate_single t =
    if t.expectations.response.status == pos 0
    then some status_required
    else elim (bad_backend t.backends) [
      | none ↦ none
      | some (name, mode) ↦ some (bad_failure_mode name mode)
    ]

-- `validate`; `none` is success.
unfoldable pub validate : TestSpec → Option Invalid
unfolding validate_single validate_steps
validate t =
    if is_empty t.name
    then some name_required
    else if is_scenario t && not (is_empty t.request.url)
    then some both_kinds
    else if not (is_scenario t) && is_empty t.request.url
    then some no_kind
    else if is_scenario t
    then validate_steps 1 t.scenario
    else validate_single t

-- What the YAML decoder returns for the documents of a file, one after another, until the end of the
-- file or its first error.
pub data Decoded : Type 0 where
  document : TestSpec → Decoded
  failed : Decoded

pub data LoadError : Type 0 where
  unreadable no_documents : LoadError
  parse_error : ℕ → LoadError
  invalid : ℕ → Invalid → LoadError

pub data Loaded : Type 0 where
  loaded : List TestSpec → Loaded
  load_error : LoadError → Loaded

-- The loop of `Load`, with the number of documents and the tests so far.
unfoldable pub load_documents : ℕ → List TestSpec → List Decoded → Loaded
unfolding validate apply_defaults
load_documents n tests [] = elim tests [ [] ↦ load_error no_documents | t ∷ ts ↦ loaded (t ∷ ts) ]
load_documents n tests (failed ∷ ds) = load_error (parse_error (n + 1))
load_documents n tests (document t ∷ ds) = elim (validate t) [
  | some e ↦ load_error (invalid (n + 1) e)
  | none ↦ load_documents (n + 1) (tests ++ apply_defaults t ∷ []) ds
]

-- `Load`: `none` stands for a file that cannot be read.
unfoldable pub load : Option (List Decoded) → Loaded
unfolding load_documents
load none = load_error unreadable
load (some ds) = load_documents 0 [] ds

-- `ResolveVCL`: the path from the flag, and the path beside the test file, which is
-- `filepath`'s; `exists` is `os.Stat`.
unfoldable pub resolve_vcl : (Text → Bool) → Text → Text → Option Text
resolve_vcl exists beside cli =
    if not (is_empty cli)
    then if exists cli then some cli else none
    else if exists beside
    then some beside
    else none
