-- ===== src/Runner/Verdicts.antt =====
-- What the result of a test says, and how the steps of a scenario make it.
use vcltest.Base.{
  Bool, true, false, ◌≡◌, refl, sym, ◌∙◌, ◌↔◌, inl, inr, Option, none, some, List, [], ◌∷◌, ◌++◌, ℕ,
  Bool-cases, Option-cases, map, if◌then◌else◌, subst,
}
use vcltest.Base.Map.{Map}
use vcltest.Base.Text.{Text, is_empty}
use vcltest.Testspec.{TestSpec, ScenarioStep}
use vcltest.Testspec.Loader.{is_scenario}
use vcltest.Assertion.{Result, Failure, Response}
use vcltest.Assertion.Reports.{is_nil, check-Agrees}
use vcltest.Backend.{MockBackend}
use vcltest.Runner.{Outside, Runner, TestResult, TestError, failure, get_call_counts}
use vcltest.Runner.Trace.{attach_trace}
use vcltest.Runner.Shared.{
  Outcome, done, error, State, no_errors, finish_single, finish_step, request_step, finish_scenario,
  run_single, run_step, run_scenario, run_test,
}

no_errors_iff : (es : List TestError) → (no_errors es ≡ true) ↔ (es ≡ [])
no_errors_iff [] = (λ _. refl, λ _. refl)
no_errors_iff (e ∷ es) = (λ h. cc, λ h. cc)

no_errors-map : (f : Failure → TestError) (es : List Failure) → no_errors (map f es) ≡ is_nil es
no_errors-map f [] = refl
no_errors-map f (e ∷ es) = refl

done_inj : {A : Type 0} {x y : A} → done x ≡ done y → x ≡ y
done_inj e = cc

module _ {W : Type 0} (out : Outside W) (r : Runner) where
  -- What every result satisfies.
  pub record IsResult (test : TestSpec) (result : TestResult) : Type 0 where
    pub named : result.test_name ≡ test.name
    pub agrees : result.passed ≡ no_errors result.errors
    pub traced : result.passed ≡ true → result.vcl_trace ≡ none

  attach_trace-passed :
      (offset : ℕ) (w : W) (b : Bool) → b ≡ true → attach_trace out r b offset w ≡ none
  unfolding attach_trace
  attach_trace-passed offset w true h = refl
  attach_trace-passed offset w false h = cc

  finish_single-IsResult :
      (test : TestSpec) (offset : ℕ) (a : Option Response × State W) (result : TestResult)
      → (finish_single out r test offset a).0 ≡ done result
      → IsResult test result
  unfolding finish_single
  finish_single-IsResult test offset (none, s) result e = absurd cc
  finish_single-IsResult test offset (some response, (mocks, w)) result e =
      let agrees = check-Agrees test.expectations response (get_call_counts mocks) none none in
      subst (IsResult test) (done_inj e) (record {
        named = refl;
        agrees = agrees ∙ sym (no_errors-map (λ x. failure x) _);
        traced = attach_trace-passed offset _ _;
      })

  run_single-IsResult :
      (test : TestSpec) (s : State W) (result : TestResult)
      → (run_single out r test s).0 ≡ done result
      → IsResult test result
  unfolding run_single
  run_single-IsResult test (mocks, w) result e = finish_single-IsResult test _ _ result e

  finish_scenario-IsResult :
      (test : TestSpec) (a : Outcome (List TestError) × State W) (result : TestResult)
      → (finish_scenario out r test a).0 ≡ done result
      → IsResult test result
  unfolding finish_scenario
  finish_scenario-IsResult test (error x, s) result e = absurd cc
  finish_scenario-IsResult test (done errors, (mocks, w)) result e =
      subst (IsResult test) (done_inj e)
        (record { named = refl; agrees = refl; traced = attach_trace-passed 0 w _ })

  run_scenario-IsResult :
      (test : TestSpec) (s : State W) (result : TestResult)
      → (run_scenario out r test s).0 ≡ done result
      → IsResult test result
  unfolding run_scenario
  run_scenario-IsResult test (mocks, w) result e = elim (Bool-cases r.has_time) [
    | inl h ↦ finish_scenario-IsResult test _ result (rw h at e)
    | inr h ↦ absurd (cc (rw h at e))
  ]

  -- A test that ends with a result carries its name; it passed exactly if it has no errors, whether it
  -- is a single request or a scenario; and a trace is attached only if it failed.
  pub run_test-IsResult :
      (test : TestSpec) (s : State W) (result : TestResult)
      → (run_test out r test s).0 ≡ done result
      → IsResult test result
  unfolding run_test
  run_test-IsResult test s result e = elim (Bool-cases (is_empty r.loaded_vcl_name)) [
    | inl h ↦ absurd (cc (rw h at e))
    | inr h ↦ elim (Bool-cases (is_scenario test)) [
      | inl k ↦ run_scenario-IsResult test s result (rw (h, k) at e)
      | inr k ↦ run_single-IsResult test s result (rw (h, k) at e)
    ]
  ]

  finish_step-Agrees :
      (n : ℕ) (step : ScenarioStep) (a : Option Response × State W) (v : Result)
      → (finish_step out r n step a).0 ≡ done v
      → v.passed ≡ is_nil v.errors
  unfolding finish_step
  finish_step-Agrees n step (none, s) v e = absurd cc
  finish_step-Agrees n step (some response, (mocks, w)) v e =
      subst (λ (x : Result). x.passed ≡ is_nil x.errors) (done_inj e)
        (check-Agrees step.expectations response (get_call_counts mocks)
          (some (out.cookies (if r.has_recorder then out.flush w else w)))
          (out.parse_url (r.varnish_url ++ step.request.url)))

  request_step-Agrees :
      (n : ℕ) (step : ScenarioStep) (mocks : Map Text MockBackend) (a : Bool × W) (v : Result)
      → (request_step out r n step mocks a).0 ≡ done v
      → v.passed ≡ is_nil v.errors
  unfolding request_step
  request_step-Agrees n step mocks (true, w) v e = finish_step-Agrees n step _ v e
  request_step-Agrees n step mocks (false, w) v e = absurd cc

  pub run_step-Agrees :
      (n : ℕ) (step : ScenarioStep) (s : State W) (v : Result)
      → (run_step out r n step s).0 ≡ done v
      → v.passed ≡ is_nil v.errors
  unfolding run_step
  run_step-Agrees n step (mocks, w) v e = elim (Option-cases (out.parse_duration step.at)) [
    | inl h ↦ absurd (cc (rw (h, run_step) at e))
    | inr (offset, h) ↦ request_step-Agrees n step mocks _ v (rw (h, run_step) at e)
  ]
