-- ===== src/Runner/Own.antt =====
-- `RunTest` with its two kinds of tests: the test starts backends of its own and loads its own VCL.
use vcltest.Base.{
  Bool, true, false, not, Option, none, some, List, [], ◌∷◌, ◌++◌, ℕ, ◌+◌, ◌&&◌, ◌||◌,
  if◌then◌else◌, leb,
}
use vcltest.Base.Map.{Map, insert}
use vcltest.Base.Text.{Text, text_eq, codes, to_lower}
use vcltest.Testspec.{TestSpec, ScenarioStep, BackendSpec}
use vcltest.Testspec.Loader.{is_scenario}
use vcltest.Assertion.{Result}
use vcltest.Backend.{MockBackend, new, start, stop}
use vcltest.Harness.{BackendAddress, config_of}
use vcltest.Runner.{Outside, Runner, TestResult, TestError}
use vcltest.Runner.Shared.{
  Outcome, done, error, not_loaded, no_temp_dir, no_backend, bad_address, no_time_controller,
  bad_offset, time_failed, State, mark_if, finish_single, finish_step, step_errors, finish_scenario,
}
use vcltest.Runner.Host.{Host, Action, ◌>>=◌, ◌>>◌, return, outside, or_throw, finally}
use vcltest.Runner.Load.{process, write_files, load_and_use, discard_vcl}
use vcltest.Vclloader.{parse_address}

abbrev pub is_alphanumeric : ℕ → Bool
is_alphanumeric c =
    (leb b'a' c && leb c b'z') || ((leb b'A' c && leb c b'Z') || (leb b'0' c && leb c b'9'))

-- `nonAlphanumeric.ReplaceAllString(name, "-")`: a run of other bytes becomes one hyphen. `within` tells
-- whether such a run is being read.
unfoldable pub replace_runs : Bool → Text → Text
replace_runs within [] = []
replace_runs within (c ∷ s) =
    let kept = replace_runs false s in
    let rest = replace_runs true s in
    if is_alphanumeric c then c ∷ kept else if within then rest else b'-' ∷ rest

-- `strings.Trim(s, "-")`
abbrev pub trim_left : Text → Text
trim_left [] = []
trim_left (c ∷ s) = if vcltest.Base.nat_beq c b'-' then trim_left s else c ∷ s

unfoldable pub trim_hyphens : Text → Text
trim_hyphens s = mathlib.Core.List.reverse (trim_left (mathlib.Core.List.reverse (trim_left s)))

-- `sanitizeVCLName`
unfoldable pub sanitize_vcl_name : Text → Text
unfolding replace_runs trim_hyphens to_lower
sanitize_vcl_name name = codes "test-" ++ to_lower (trim_hyphens (replace_runs false name))

-- `stopAll`; an error is only logged.
unfoldable pub stop_all : Map Text MockBackend → Map Text MockBackend
unfolding stop
stop_all [] = []
stop_all ((name, m) ∷ ms) = (name, (stop none m).1) ∷ stop_all ms

module _ {W : Type 0} (out : Outside W) (host : Host W) where
  -- The loop of `startBackends`, with what was started so far; the mocks of the state are these.
  unfoldable pub start_each :
      Map Text BackendSpec → Map Text BackendAddress → Action W (Map Text BackendAddress)
  unfolding config_of new start insert parse_address
  start_each [] addresses s = (done addresses, s)
  start_each ((name, spec) ∷ specs) addresses (mocks, w) =
      (do
        listening ← outside (host.listen name)
        addr ← or_throw (not_loaded (no_backend name)) listening
        let mock = (start (some addr) (new (config_of spec))).1
        address ← or_throw (not_loaded (bad_address name mock)) (parse_address addr)
        λ (mocks', v).
            start_each specs (insert name address addresses) (insert name mock mocks', v))
        (mocks, w)

  -- The VCL of one test, around what the test does with it. A test that ends with an error leaves its
  -- VCL in Varnish. The structure of the VCL may be unknown.
  unfoldable pub with_vcl :
      Text
      → Text
      → (Runner → Action W TestResult)
      → Runner
      → Map Text BackendAddress
      → Action W TestResult
  unfolding process write_files load_and_use discard_vcl
  with_vcl name path body r addresses = do
    files ← process host path addresses
    made ← outside host.make_temp_dir
    tmp ← or_throw (not_loaded no_temp_dir) made
    finally
        (do
          main ← write_files host tmp files []
          load_and_use host name main
          shown ← outside (host.vcl_show name)
          result ← body (record r { vcl_show_result = shown })
          λ s. (done result, discard_vcl host name s))
        (λ (mocks, w). (mocks, host.remove_all tmp w))

  -- The backends of one test, around the rest of it.
  unfoldable pub with_backends :
      TestSpec → (Map Text BackendAddress → Action W TestResult) → W → Outcome TestResult × State W
  unfolding start_each stop_all
  with_backends test body w =
      finally (start_each test.backends [] >>= body) (λ (mocks, v). (stop_all mocks, v)) ([], w)

  -- What the test does with its VCL in place: its request.
  unfoldable pub single_own : TestSpec → Runner → Action W TestResult
  unfolding finish_single
  single_own test r (mocks, w) =
      finish_single out r test (mark_if out r w) (out.make_request false test.request mocks w)

  -- `runSingleRequestTest`
  unfoldable pub run_single_own : Runner → TestSpec → Text → W → Outcome TestResult × State W
  unfolding with_backends with_vcl sanitize_vcl_name single_own
  run_single_own r test path w =
      with_backends test (with_vcl (sanitize_vcl_name test.name) path (single_own test) r) w

  unfoldable pub request_own :
      Runner → ℕ → ScenarioStep → Map Text MockBackend → Bool × W → Outcome Result × State W
  unfolding finish_step
  request_own r n step mocks (false, w) = (error (time_failed n), (mocks, w))
  request_own r n step mocks (true, w) =
      finish_step out r n step (out.make_request true step.request mocks w)

  -- A step of `runScenarioTest`: no backend is configured, and no count reset.
  unfoldable pub run_step_own : Runner → ℕ → ScenarioStep → State W → Outcome Result × State W
  unfolding request_own
  run_step_own r n step (mocks, w) = elim (out.parse_duration step.at) [
    | none ↦ (error (bad_offset n), (mocks, w))
    | some offset ↦ request_own r n step mocks (out.advance_time offset w)
  ]

  unfoldable pub run_steps_own :
      Runner → ℕ → List ScenarioStep → List TestError → Action W (List TestError)
  unfolding run_step_own
  run_steps_own r n [] errors = return errors
  run_steps_own r n (step ∷ steps) errors = do
    verdict ← run_step_own r n step
    run_steps_own r (n + 1) steps (errors ++ step_errors out n step verdict)

  -- The same for a scenario, with a new cookie jar.
  unfoldable pub scenario_own : TestSpec → Runner → Action W TestResult
  unfolding run_steps_own finish_scenario
  scenario_own test r (mocks, w) =
      finish_scenario out r test (run_steps_own r 1 test.scenario [] (mocks, out.new_jar w))

  -- `runScenarioTest`
  unfoldable pub run_scenario_own : Runner → TestSpec → Text → W → Outcome TestResult × State W
  unfolding with_backends with_vcl sanitize_vcl_name scenario_own
  run_scenario_own r test path w =
      if r.has_time
      then with_backends test (with_vcl (sanitize_vcl_name test.name) path (scenario_own test) r) w
      else (error no_time_controller, ([], w))

  -- `RunTest`
  unfoldable pub run_own : Runner → TestSpec → Text → W → Outcome TestResult × State W
  unfolding run_single_own run_scenario_own
  run_own r test path w =
      if is_scenario test then run_scenario_own r test path w else run_single_own r test path w
