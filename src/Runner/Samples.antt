-- ===== src/Runner/Samples.antt =====
-- Runs of tests with a Varnish that answers every request with one response.
use vcltest.Base.{true, false, ◌≡◌, refl, ◌↔◌, Option, none, some, List, [], ◌∷◌, ◌++◌, ℕ}
use vcltest.Base.Int.{ℤ, pos}
use vcltest.Base.Text.{Text, codes, text_beq}
use vcltest.Testspec.{RequestSpec, ExpectationsSpec, ScenarioStep, TestSpec}
use vcltest.Assertion.{Response, Result}
use vcltest.Runner.{Outside, Runner, TestResult, TestError}
use vcltest.Runner.Shared.{done, State, run_steps, run_test}
use vcltest.Runner.Verdicts.{IsResult, run_test-IsResult}
use vcltest.Runner.Steps.{Steps, errors_of, AllPassed, run_steps_correct}
use vcltest.Varnishadm.{VarnishResponse}
use vcltest.Vclmod.{backend}
use vcltest.Vclmod.Includes.{Files}
use vcltest.Runner.Host.{Host, ◌>>=◌}
use vcltest.Runner.Load.{load_vcl}
use vcltest.Runner.Own.{sanitize_vcl_name, run_own}
use vcltest.Runner.Effects.{
  Event, loaded, used, discarded, showed, made_temp, made_dirs, removed, wrote, Records, Runs,
}
use vcltest.Runner.Loading.{Loads, load_vcl-Loads}
use vcltest.Runner.Begun.{Begun}
use vcltest.Base.Map.{lookup}
use vcltest.Vclloader.{parse_address}

abbrev ok_response : Response
ok_response = record { status = pos 200; headers = []; body = [] }

-- The state outside counts the requests.
abbrev pub outside : Outside ℕ
outside = record {
  make_request = λ jar req mocks n. (some ok_response, (mocks, n));
  advance_time = λ offset n. (true, n);
  flush = λ n. n;
  log = λ n. some [];
  cookies = λ n url. [];
  new_jar = λ n. n;
  parse_duration = λ s. some (pos 30);
  parse_url = λ s. some s;
  parse_vcl = λ source path. none;
}

abbrev pub runner : Runner
runner = record {
  varnish_url = codes "http://127.0.0.1";
  has_recorder = true;
  has_time = true;
  loaded_vcl_name = codes "boot";
  vcl_show_result = none;
}

abbrev request_to : Text → RequestSpec
request_to url = record { method = codes "GET"; url = url; headers = []; body = [] }

abbrev expecting : ℤ → ExpectationsSpec
expecting status = record {
  response = record { status = status; headers = []; body_contains = [] };
  backend = none;
  cache = none;
  cookies = [];
}

abbrev pub test_for : ℤ → TestSpec
test_for status = record {
  name = codes "get";
  request = request_to (codes "/");
  backends = [];
  expectations = expecting status;
  scenario = [];
}

abbrev step_for : ScenarioStep
step_for = record {
  at = codes "30s";
  request = request_to (codes "/");
  backends = [];
  expectations = expecting (pos 200);
}

abbrev passing : TestResult
passing = record { test_name = codes "get"; passed = true; errors = []; vcl_trace = none }

abbrev start_state : State ℕ
start_state = ([], 0)

run_test_sample : (run_test outside runner (test_for (pos 200)) start_state).0 ≡ done passing
unfolding run_test
run_test_sample = refl

run_steps_sample :
    run_steps outside runner 1 (step_for ∷ step_for ∷ []) [] start_state ≡ (done [], start_state)
unfolding run_steps
run_steps_sample = refl

run_test-IsResult_example : IsResult outside runner (test_for (pos 200)) passing
run_test-IsResult_example =
    run_test-IsResult outside runner (test_for (pos 200)) start_state passing run_test_sample

run_steps_correct_example :
    (vs : List Result) × Steps outside runner 1
      (step_for ∷ step_for ∷ [])
      start_state
      vs
      start_state
    × ([] ≡ errors_of outside runner 1 (step_for ∷ step_for ∷ []) vs)
    × ((◌≡◌ {A = List TestError} [] []) ↔ AllPassed outside runner vs)
run_steps_correct_example =
    run_steps_correct outside runner (step_for ∷ step_for ∷ []) [] start_state start_state
      run_steps_sample

-- The same outside with a state that records the events.
abbrev pub recorded : Outside (List Event)
recorded = record {
  make_request = λ jar req mocks w. (some ok_response, (mocks, w));
  advance_time = λ offset w. (true, w);
  flush = λ w. w;
  log = λ w. some [];
  cookies = λ w url. [];
  new_jar = λ w. w;
  parse_duration = λ s. some (pos 30);
  parse_url = λ s. some s;
  parse_vcl = λ source path. none;
}

abbrev disk : Files
disk = record {
  absolute = λ p. some p;
  read = λ p. some (codes "vcl 4.1;");
  parse = λ content p. some (backend (record { name = codes "api"; properties = [] }) ∷ []);
  resolve = λ p q. q;
  relative = λ p. codes "main.vcl";
  render = λ ds. codes "vcl 4.1;";
}

abbrev pub accepted : Option VarnishResponse
accepted = some (record { status_code = 200; payload = [] })

abbrev pub host : Host (List Event)
host = record {
  vcl_load = λ n p w. (accepted, w ++ loaded n p ∷ []);
  vcl_use = λ n w. (accepted, w ++ used n ∷ []);
  vcl_discard = λ n w. (accepted, w ++ discarded n ∷ []);
  vcl_show =
      λ n w. (some (record { entries = []; config_map = []; vcl_source = [] }), w ++ showed n ∷ []);
  make_temp_dir = λ w. (some (codes "/tmp/v"), w ++ made_temp (codes "/tmp/v") ∷ []);
  make_dirs = λ p w. (true, w ++ made_dirs p ∷ []);
  write_file = λ p c w. (true, w ++ wrote p c ∷ []);
  remove_all = λ p w. w ++ removed p ∷ [];
  join = λ p q. p ++ codes "/" ++ q;
  dir = λ p. p;
  files = λ w. disk;
  listen = λ n w. (some (codes "127.0.0.1:8080"), w);
}

pub recorded-Records : Records recorded host (λ w. w)
recorded-Records = record {
  vcl_load = λ n p w. refl;
  vcl_use = λ n w. refl;
  vcl_discard = λ n w. refl;
  vcl_show = λ n w. refl;
  make_temp_dir = λ w. refl;
  make_dirs = λ p w. refl;
  write_file = λ p c w. refl;
  remove_all = λ p w. refl;
  listen = λ n w. refl;
  make_request = λ jar q ms w. refl;
  advance_time = λ t w. refl;
  flush = λ w. refl;
  new_jar = λ w. refl;
}

sanitize_vcl_name_sample :
    sanitize_vcl_name (codes " Cache: hit & miss!") ≡ codes "test-cache-hit-miss"
unfolding sanitize_vcl_name
sanitize_vcl_name_sample = refl

run_own_sample :
    (run_own recorded host runner (test_for (pos 200)) (codes "main.vcl") []).0 ≡ done passing
unfolding run_own ◌>>=◌ vcltest.Vclmod.Includes.process_vcl_with_includes
run_own_sample = refl

-- A test with the backend that its VCL declares.
abbrev backed : TestSpec
backed = record (test_for (pos 200)) {
  backends =
      (
        codes "api",
        record {
          status = pos 200;
          headers = none;
          body = [];
          failure_mode = [];
          routes = [];
          echo_request = false;
        },
      )
      ∷ [];
}

backed_sample : (run_own recorded host runner backed (codes "main.vcl") []).0 ≡ done passing
unfolding run_own ◌>>=◌ vcltest.Vclmod.Includes.process_vcl_with_includes parse_address lookup
    text_beq
backed_sample = refl

load_vcl-Loads_example :
    Runs
      (λ (w : List Event). w)
      (load_vcl host (codes "/work") (codes "main.vcl") [] runner)
      (Loads recorded host (λ w. w) recorded-Records (codes "/work/vcl") (codes "main.vcl") [])
load_vcl-Loads_example =
    load_vcl-Loads recorded host (λ w. w) recorded-Records (codes "/work") (codes "main.vcl") []
      runner
