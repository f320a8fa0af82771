-- ===== src/Harness/Samples.antt =====
-- Runs of a test file with two tests.
use vcltest.Base.{false, ◌≡◌, refl, Option, none, some, List, [], ◌∷◌, ℕ, ◌+◌, length, map}
use vcltest.Base.Int.{pos}
use vcltest.Base.Map.{Map, lookup}
use vcltest.Base.Text.{Text, codes, text_eq}
use vcltest.Testspec.{BackendSpec, TestSpec}
use vcltest.Backend.{MockBackend, new}
use vcltest.Runner.Shared.{RunError, State}
use vcltest.Runner.Samples.{outside, runner, test_for, recorded, host}
use vcltest.Harness.{config_of, configure_backends, parse_address}
use vcltest.Harness.Run.{run_tests}
use vcltest.Harness.{Started, started, start_all_backends}
use vcltest.Harness.Starts.{Serves, start_all_backends-Serves}
use vcltest.Base.Text.{text_beq, split, atoi}
use vcltest.Base.Map.{insert}
use vcltest.Backend.{start}
use vcltest.Harness.Totals.{names, passed_results, run_tests-results}
use vcltest.Harness.Backends.{configured, configure_backends-lookup}
use vcltest.Base.{true, ◌++◌}
use vcltest.Testspec.Loader.{document}
use vcltest.Harness.Lifecycle.{Config, Services, answering, run}
use vcltest.Runner.Effects.{Event, launched, context_cancelled, log_started, log_stopped}
use vcltest.Varnishadm.{respond}
use vcltest.Runner.Shared.{done, error, Outcome}

abbrev two_tests : List TestSpec
two_tests = test_for (pos 200) ∷ test_for (pos 404) ∷ []

abbrev no_ban : ℕ → Option Text × ℕ
no_ban n = (none, n)

abbrev unnamed : RunError → Text
unnamed e = codes "error"

abbrev nothing_started : State ℕ
nothing_started = ([], 0)

run_tests_sample : (run_tests outside no_ban unnamed runner two_tests nothing_started).0.failed ≡ 1
unfolding run_tests
run_tests_sample = refl

parse_address_sample :
    parse_address (codes "127.0.0.1:8080")
    ≡ some (record { host = codes "127.0.0.1"; port = codes "8080" })
unfolding parse_address
parse_address_sample = refl

run_tests-results_example :
    let result = (run_tests outside no_ban unnamed runner two_tests nothing_started).0 in
    (names result.results ≡ map (λ (t : TestSpec). t.name) two_tests)
    × (result.total ≡ length two_tests)
    × (result.total ≡ result.passed + result.failed)
    × (length (passed_results result.results) ≡ result.passed)
run_tests-results_example =
    run_tests-results outside no_ban unnamed runner two_tests nothing_started

abbrev api_spec : Text → BackendSpec
api_spec body = record {
  status = pos 0;
  headers = none;
  body = body;
  failure_mode = [];
  routes = [];
  echo_request = false;
}

abbrev with_api : Text → TestSpec
with_api body = record (test_for (pos 200)) { backends = (codes "api", api_spec body) ∷ [] }

abbrev two_bodies : List TestSpec
two_bodies = with_api (codes "a") ∷ with_api (codes "b") ∷ []

abbrev all_started : Started
unfolding new config_of start
all_started = record {
  addresses = (codes "api", record { host = codes "127.0.0.1"; port = codes "8080" }) ∷ [];
  mocks =
      (
        codes "api",
        (start (some (codes "127.0.0.1:8080")) (new (config_of (api_spec (codes "a"))))).1,
      )
      ∷ [];
}

two_bodies_sample :
    start_all_backends (λ name. some (codes "127.0.0.1:8080")) two_bodies ≡ started all_started
unfolding start_all_backends lookup text_beq insert split atoi
two_bodies_sample = refl

start_all_backends-Serves_example :
    Serves (λ name. some (codes "127.0.0.1:8080")) (codes "api") (api_spec (codes "a")) all_started
unfolding lookup text_beq
start_all_backends-Serves_example =
    start_all_backends-Serves (λ name. some (codes "127.0.0.1:8080")) two_bodies all_started
      (codes "api") (api_spec (codes "a")) two_bodies_sample refl

abbrev mocks : Map Text MockBackend
unfolding new config_of
mocks = (codes "api", new (config_of (api_spec (codes "a")))) ∷ []

configure_backends-lookup_example :
    lookup (codes "api") (configure_backends ((codes "api", api_spec (codes "b")) ∷ []) mocks)
    ≡ configured
        (lookup (codes "api") ((codes "api", api_spec (codes "b")) ∷ []))
        (lookup (codes "api") mocks)
configure_backends-lookup_example =
    configure_backends-lookup ((codes "api", api_spec (codes "b")) ∷ []) mocks (codes "api")
      ((λ h. h), tt)

-- Varnish starts and answers.
abbrev services : Services (List Event)
services = record {
  exists = λ p w. true;
  documents = λ w. some (document (with_api (codes "a")) ∷ []);
  listening = λ w name. some (codes "127.0.0.1:8080");
  launch = λ c w. w ++ launched ∷ [];
  cancel = λ w. w ++ context_cancelled ∷ [];
  crashed_early = λ w. (false, w);
  wait = λ w. (answering, w);
  exec = λ c w. (some (respond 200 (codes "a0 0.0.0.0 8080")), w);
  open_transcript = λ w. w;
  close_transcript = λ w. w;
  found_varnishlog = λ w. true;
  log_path = λ dir. dir;
  start_varnishlog =
      λ w. (record { removed = true; created = true; started = true }, w ++ log_started ∷ []);
  stop_varnishlog =
      λ w. (record { signalled = true; in_time = true; killed = true }, w ++ log_stopped ∷ []);
  dump = λ w. w;
  ban_error = codes "lost";
}

abbrev config : Config
config = record { vcl_path = codes "main.vcl"; beside = []; debug_dump = false }

abbrev has_result : {A : Type 0} → Outcome A → vcltest.Base.Bool
has_result (done a) = true
has_result (error e) = false

run_sample : has_result (run recorded host services unnamed config []).0 ≡ true
unfolding run vcltest.Runner.Host.◌>>=◌ vcltest.Vclmod.Includes.process_vcl_with_includes
run_sample = refl
