-- ===== src/Testspec/Samples.antt =====
-- Runs of pkg/testspec on one test of each kind.
use vcltest.Base.{
  false, ◌≡◌, ◌≢◌, refl, ◌↔◌, inl, inr, none, some, List, [], ◌∷◌, ◌++◌, All, map, length, ◌+◌,
}
use vcltest.Base.Int.{ℤ, pos}
use vcltest.Base.Text.{codes}
use vcltest.Testspec.{RequestSpec, BackendSpec, ExpectationsSpec, ScenarioStep, TestSpec}
use vcltest.Testspec.Loader.{
  apply_defaults, validate, Invalid, no_kind, document, failed, loaded, load_error, parse_error,
  invalid, load, validate_single,
}
use vcltest.Testspec.Loading.{IsTest, validate_iff}
use vcltest.Testspec.Files.{documents, load-documents, load_first_error}

abbrev pub a_request : RequestSpec
a_request = record { method = []; url = codes "/"; headers = []; body = [] }

abbrev pub no_request : RequestSpec
no_request = record { method = []; url = []; headers = []; body = [] }

abbrev pub expect : ℤ → ExpectationsSpec
expect status = record {
  response = record { status = status; headers = []; body_contains = [] };
  backend = none;
  cache = none;
  cookies = [];
}

abbrev pub an_api : BackendSpec
an_api = record {
  status = pos 0;
  headers = none;
  body = codes "hi";
  failure_mode = [];
  routes = [];
  echo_request = false;
}

abbrev pub single_test : TestSpec
single_test = record {
  name = codes "one";
  request = a_request;
  backends = (codes "api", an_api) ∷ [];
  expectations = expect (pos 200);
  scenario = [];
}

abbrev pub a_step : ScenarioStep
a_step = record {
  at = codes "30s";
  request = a_request;
  backends = [];
  expectations = expect (pos 200);
}

abbrev pub scenario_test : TestSpec
scenario_test = record {
  name = codes "two";
  request = no_request;
  backends = [];
  expectations = expect (pos 0);
  scenario = a_step ∷ [];
}

abbrev bad_test : TestSpec
bad_test = record single_test { request = no_request }

validate_sample : validate bad_test ≡ some no_kind
unfolding validate
validate_sample = refl

bad_statuses : validate (record single_test { expectations = expect (pos 0) }) ≢ none
unfolding validate validate_single
bad_statuses e = cc

single_IsTest : IsTest single_test
single_IsTest = ((λ e. cc), inl (refl, (λ e. cc), (λ e. cc), (inl refl, tt)))

scenario_IsTest : IsTest scenario_test
scenario_IsTest = ((λ e. cc), inr ((λ e. cc), refl, (((λ e. cc), (λ e. cc), (λ e. cc), tt), tt)))

abbrev two_tests : List TestSpec
two_tests = single_test ∷ scenario_test ∷ []

two_tests-All : All IsTest two_tests
two_tests-All = (single_IsTest, (scenario_IsTest, tt))

validate_iff_example : (validate scenario_test ≡ none) ↔ IsTest scenario_test
validate_iff_example = validate_iff scenario_test

loaded_two : load (some (documents two_tests)) ≡ loaded (map apply_defaults two_tests)
loaded_two = load-documents two_tests (λ e. cc) two_tests-All

load_first_error_example :
    (load (some (documents two_tests ++ failed ∷ []))
      ≡ load_error (parse_error (length two_tests + 1)))
    × ((t : TestSpec) (e : Invalid)
        → validate t ≡ some e
        → load (some (documents two_tests ++ document t ∷ []))
          ≡ load_error (invalid (length two_tests + 1) e))
load_first_error_example = load_first_error two_tests [] two_tests-All
