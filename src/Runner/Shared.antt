-- ===== src/Runner/Shared.antt =====
-- `RunTestWithSharedVCL` with its two kinds of tests.
use vcltest.Base.{
  Bool, true, false, Option, none, some, List, [], ◌∷◌, ◌++◌, ℕ, ◌+◌, length, map, if◌then◌else◌,
}
use vcltest.Base.Map.{Map}
use vcltest.Base.Text.{Text, is_empty}
use vcltest.Testspec.{TestSpec, ScenarioStep}
use vcltest.Testspec.Loader.{is_scenario}
use vcltest.Assertion.{check, Result, Response}
use vcltest.Backend.{MockBackend}
use vcltest.Harness.{configure_backends}
use vcltest.Vclmod.Includes.{WalkError}
use vcltest.Runner.{
  Outside, Runner, TestResult, TestError, failure, at_step, reset_call_counts, get_call_counts,
}
use vcltest.Runner.Trace.{attach_trace}

-- What keeps a VCL from being loaded, with the path or Varnish's message where there is one.
pub data LoadError : Type 0 where
  unprocessed : WalkError → LoadError
  no_temp_dir load_failed use_failed show_failed : LoadError
  -- With the mock backend of that name, which has been started and which nothing stops.
  bad_address : Text → MockBackend → LoadError
  no_backend no_directory unwritten not_compiled not_activated : Text → LoadError

-- What keeps the tests of a file from being run.
pub data StartError : Type 0 where
  no_vcl_file no_tests no_work_dir no_varnish_dir no_backends no_manager varnish_crashed cancelled
        no_http_port no_recorder not_recording :
      StartError

-- What ends a test without a result, with the number of the step, or the run of all tests.
pub data RunError : Type 0 where
  not_loaded : LoadError → RunError
  not_started : StartError → RunError
  no_vcl no_time_controller request_failed : RunError
  bad_offset time_failed step_request_failed : ℕ → RunError

pub data Outcome (A : Type 0) : Type 0 where
  done : A → Outcome A
  error : RunError → Outcome A

-- The mock backends and what lies outside.
abbrev pub State : Type 0 → Type 0
State W = Map Text MockBackend × W

abbrev pub no_errors : List TestError → Bool
no_errors [] = true
no_errors (e ∷ es) = false

module _ {W : Type 0} (out : Outside W) where
  abbrev flush_if : Runner → W → W
  flush_if r w = if r.has_recorder then out.flush w else w

  -- `MarkPosition`, where an error leaves the offset at 0.
  abbrev pub mark_if : Runner → W → ℕ
  mark_if r w = if r.has_recorder then elim (out.log w) [ none ↦ 0 | some t ↦ length t ] else 0

  -- `runSingleRequestTestWithSharedVCL` behind its request.
  unfoldable pub finish_single :
      Runner → TestSpec → ℕ → Option Response × State W → Outcome TestResult × State W
  unfolding get_call_counts check attach_trace
  finish_single r test offset (none, s) = (error request_failed, s)
  finish_single r test offset (some response, (mocks, w)) =
      let flushed = flush_if r w in
      let verdict = check test.expectations response (get_call_counts mocks) none none in
      (
        done (record {
          test_name = test.name;
          passed = verdict.passed;
          errors = map (λ e. failure e) verdict.errors;
          vcl_trace = attach_trace out r verdict.passed offset flushed;
        }),
        (mocks, flushed),
      )

  -- `runSingleRequestTestWithSharedVCL`
  unfoldable pub run_single : Runner → TestSpec → State W → Outcome TestResult × State W
  unfolding reset_call_counts finish_single
  run_single r test (mocks, w) =
      finish_single r test (mark_if r w)
        (out.make_request false test.request (reset_call_counts mocks) w)

  -- A step behind its request.
  unfoldable pub finish_step :
      Runner → ℕ → ScenarioStep → Option Response × State W → Outcome Result × State W
  unfolding get_call_counts check
  finish_step r n step (none, s) = (error (step_request_failed n), s)
  finish_step r n step (some response, (mocks, w)) =
      let flushed = flush_if r w in
      (
        done (
            check step.expectations response (get_call_counts mocks) (some (out.cookies flushed))
              (out.parse_url (r.varnish_url ++ step.request.url))),
        (mocks, flushed),
      )

  -- A step behind the advance of the clock: the backends are configured, then their counts reset.
  unfoldable pub request_step :
      Runner → ℕ → ScenarioStep → Map Text MockBackend → Bool × W → Outcome Result × State W
  unfolding configure_backends reset_call_counts finish_step
  request_step r n step mocks (false, w) = (error (time_failed n), (mocks, w))
  request_step r n step mocks (true, w) = finish_step r n step (
      out.make_request true step.request
        (reset_call_counts (configure_backends step.backends mocks)) w)

  -- One step of a scenario, with its number: the verdict of its check.
  unfoldable pub run_step : Runner → ℕ → ScenarioStep → State W → Outcome Result × State W
  unfolding request_step
  run_step r n step (mocks, w) = elim (out.parse_duration step.at) [
    | none ↦ (error (bad_offset n), (mocks, w))
    | some offset ↦ request_step r n step mocks (out.advance_time offset w)
  ]

  -- The errors of a step, each with the step's number and time.
  abbrev pub step_errors : ℕ → ScenarioStep → Result → List TestError
  step_errors n step verdict =
      if verdict.passed then [] else map (λ e. at_step n step.at e) verdict.errors

  -- The loop over the steps, with the number of the next one and the errors so far.
  unfoldable pub run_steps :
      Runner → ℕ → List ScenarioStep → List TestError → State W → Outcome (List TestError) × State W
  unfolding run_step
  run_steps r n [] errors s = (done errors, s)
  run_steps r n (step ∷ steps) errors s =
      let (result, s') = run_step r n step s in
      elim result [
        | error e ↦ (error e, s')
        | done verdict ↦ run_steps r (n + 1) steps (errors ++ step_errors n step verdict) s'
      ]

  -- The end of `runScenarioTestWithSharedVCL`; its trace is read from the whole log.
  unfoldable pub finish_scenario :
      Runner → TestSpec → Outcome (List TestError) × State W → Outcome TestResult × State W
  unfolding attach_trace
  finish_scenario r test (error e, s) = (error e, s)
  finish_scenario r test (done errors, (mocks, w)) = (
    done (record {
      test_name = test.name;
      passed = no_errors errors;
      errors = errors;
      vcl_trace = attach_trace out r (no_errors errors) 0 w;
    }),
    (mocks, w),
  )

  -- `runScenarioTestWithSharedVCL`
  unfoldable pub run_scenario : Runner → TestSpec → State W → Outcome TestResult × State W
  unfolding run_steps finish_scenario
  run_scenario r test (mocks, w) =
      if r.has_time
      then finish_scenario r test (run_steps r 1 test.scenario [] (mocks, out.new_jar w))
      else (error no_time_controller, (mocks, w))

  -- `RunTestWithSharedVCL`
  unfoldable pub run_test : Runner → TestSpec → State W → Outcome TestResult × State W
  unfolding run_single run_scenario
  run_test r test s =
      if is_empty r.loaded_vcl_name
      then (error no_vcl, s)
      else if is_scenario test
      then run_scenario r test s
      else run_single r test s
