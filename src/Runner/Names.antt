-- ===== src/Runner/Names.antt =====
-- Which mock backends a test with backends of its own has in hand: those that it has started stay in
-- the state until the end.
use vcltest.Base.{
  Bool, true, false, Option, none, some, List, [], ◌∷◌, ℕ, ◌+◌, ◌≡◌, inl, inr, refl, ◌∙◌,
  Option-cases,
}
use vcltest.Base.Map.{Map, keys}
use vcltest.Base.Text.{Text, text_eq}
use vcltest.Backend.{MockBackend}
use vcltest.Harness.{BackendAddress}
use vcltest.Testspec.{TestSpec, ScenarioStep, RequestSpec}
use vcltest.Assertion.{Response}
use vcltest.Runner.{Outside, Runner, TestResult, TestError}
use vcltest.Runner.Shared.{
  Outcome, done, error, RunError, State, mark_if, finish_single, finish_step, finish_scenario,
}
use vcltest.Runner.Host.{Host, Action, and_then, ◌>>=◌, outside, or_throw, ensure}
use vcltest.Runner.Load.{
  process, write_one, write_files, load_and_use, discard_vcl, expect_ok, to_action,
}
use vcltest.Vclmod.{ValidationResult}
use vcltest.Vclmod.Includes.{ProcessedFile, Walked, walked, failed, process_vcl_with_includes}
use vcltest.Runner.Own.{
  with_vcl, request_own, run_step_own, run_steps_own, single_own, scenario_own,
}

module _ {W : Type 0} where
  -- From every state the action leaves the names of the mock backends as they are.
  abbrev pub KeepsNames : {A : Type 0} → Action W A → Type 0
  KeepsNames m = (s : State W) → keys (m s).1.0 ≡ keys s.0

  pub and_then-names :
      {A B : Type 0} (x : Outcome A × State W) (f : A → Action W B)
      → ((a : A) → KeepsNames (f a))
      → keys (and_then x f).1.0 ≡ keys x.1.0
  and_then-names (done a, s) f h = h a s
  and_then-names (error e, s) f h = refl

  pub >>=-names :
      {A B : Type 0} (m : Action W A) (f : A → Action W B)
      → KeepsNames m
      → ((a : A) → KeepsNames (f a))
      → KeepsNames (m >>= f)
  unfolding ◌>>=◌
  >>=-names m f k h s = and_then-names (m s) f h ∙ k s

  pub or_throw-names :
      {A : Type 0} (e : RunError) (o : Option A) → KeepsNames (or_throw {W = W} e o)
  or_throw-names e none s = refl
  or_throw-names e (some a) s = refl

  pub ensure-names : (e : RunError) (b : Bool) → KeepsNames (ensure {W = W} e b)
  ensure-names e true s = refl
  ensure-names e false s = refl

  to_action-names :
      (host : Host W) (o : Walked (List ProcessedFile × ValidationResult))
      → KeepsNames (to_action host o)
  to_action-names host (failed e) s = refl
  to_action-names host (walked (files, result)) s = refl

module _ {W : Type 0} (host : Host W) where
  pub process-names :
      (path : Text) (addresses : Map Text BackendAddress) → KeepsNames (process host path addresses)
  unfolding process
  process-names path addresses s =
      to_action-names host (process_vcl_with_includes (host.files s.1) addresses path) s

  write_one-names : (root : Text) (f : ProcessedFile) → KeepsNames (write_one host root f)
  unfolding write_one
  write_one-names root f =
      >>=-names (outside (host.make_dirs _)) _ (λ s. refl)
        (λ made. >>=-names (ensure _ made) _ (ensure-names _ made) (λ _.
          >>=-names (outside (host.write_file _ _)) _ (λ s. refl) (λ wrote. ensure-names _ wrote)))

  pub write_files-names :
      (root : Text) (files : List ProcessedFile) (main : Text)
      → KeepsNames (write_files host root files main)
  unfolding write_files
  write_files-names root [] main = λ s. refl
  write_files-names root (f ∷ fs) main =
      >>=-names (write_one host root f) _ (write_one-names root f)
        (λ _. write_files-names root fs _)

  load_and_use-names : (name main : Text) → KeepsNames (load_and_use host name main)
  unfolding load_and_use expect_ok
  load_and_use-names name main =
      >>=-names (outside (host.vcl_load name main)) _ (λ s. refl)
        (λ l. >>=-names (or_throw _ l) _ (or_throw-names _ l) (λ resp.
          >>=-names (ensure _ _) _ (ensure-names _ _) (λ _.
            >>=-names (outside (host.vcl_use name)) _ (λ s. refl)
              (λ u. >>=-names (or_throw _ u) _ (or_throw-names _ u) (λ resp'. ensure-names _ _)))))

  pub with_vcl-names :
      (out : Outside W) (name path : Text) (body : Runner → Action W TestResult) (r : Runner)
      (addresses : Map Text BackendAddress)
      → ((r' : Runner) → KeepsNames (body r'))
      → KeepsNames (with_vcl out host name path body r addresses)
  unfolding with_vcl discard_vcl
  with_vcl-names out name path body r addresses h =
      >>=-names (process host path addresses) _ (process-names path addresses) (λ files.
        >>=-names (outside host.make_temp_dir) _ (λ s. refl)
          (λ made. >>=-names (or_throw _ made) _ (or_throw-names _ made) (λ tmp.
            >>=-names (write_files host tmp files []) _ (write_files-names tmp files []) (λ main.
              >>=-names (load_and_use host name main) _ (load_and_use-names name main) (λ _.
                >>=-names (outside (host.vcl_show name)) _ (λ s. refl)
                  (λ shown.
                    >>=-names (body (record r { vcl_show_result = shown })) _ (h _)
                      (λ result s. refl)))))))

module _ {W : Type 0} (out : Outside W) (host : Host W) where
  -- A request changes no name of a mock backend.
  abbrev pub RequestsKeep : Type 0
  RequestsKeep =
      (jar : Bool) (q : RequestSpec) (ms : Map Text MockBackend) (w : W)
      → keys (out.make_request jar q ms w).1.0 ≡ keys ms

  module _ (requests : RequestsKeep) where
    pub finish_single-names :
        (r : Runner) (test : TestSpec) (offset : ℕ) (x : Option Response × State W)
        → keys (finish_single out r test offset x).1.0 ≡ keys x.1.0
    unfolding finish_single
    finish_single-names r test offset (none, s) = refl
    finish_single-names r test offset (some response, (mocks, w)) = refl

    pub single_own-names : (test : TestSpec) (r : Runner) → KeepsNames (single_own out host test r)
    unfolding single_own
    single_own-names test r (mocks, w) =
        finish_single-names r test (mark_if out r w) (out.make_request false test.request mocks w)
        ∙ requests false test.request mocks w

    pub finish_step-names :
        (r : Runner) (n : ℕ) (step : ScenarioStep) (x : Option Response × State W)
        → keys (finish_step out r n step x).1.0 ≡ keys x.1.0
    unfolding finish_step
    finish_step-names r n step (none, s) = refl
    finish_step-names r n step (some response, (mocks, w)) = refl

    request_own-names :
        (r : Runner) (n : ℕ) (step : ScenarioStep) (mocks : Map Text MockBackend) (x : Bool × W)
        → keys (request_own out host r n step mocks x).1.0 ≡ keys mocks
    unfolding request_own
    request_own-names r n step mocks (false, w) = refl
    request_own-names r n step mocks (true, w) =
        finish_step-names r n step (out.make_request true step.request mocks w)
        ∙ requests true step.request mocks w

    run_step_own-names :
        (r : Runner) (n : ℕ) (step : ScenarioStep) → KeepsNames (run_step_own out host r n step)
    unfolding run_step_own
    run_step_own-names r n step (mocks, w) = elim (Option-cases (out.parse_duration step.at)) [
      | inl q ↦ rw (q, run_step_own) refl
      | inr (t, q) ↦ rw (q, run_step_own) (request_own-names r n step mocks (out.advance_time t w))
    ]

    run_steps_own-names :
        (r : Runner) (steps : List ScenarioStep) (n : ℕ) (errors : List TestError)
        → KeepsNames (run_steps_own out host r n steps errors)
    unfolding run_steps_own
    run_steps_own-names r [] n errors = λ s. refl
    run_steps_own-names r (step ∷ steps) n errors =
        >>=-names (run_step_own out host r n step) _ (run_step_own-names r n step)
          (λ verdict. run_steps_own-names r steps (n + 1) _)

    pub finish_scenario-names :
        (r : Runner) (test : TestSpec) (x : Outcome (List TestError) × State W)
        → keys (finish_scenario out r test x).1.0 ≡ keys x.1.0
    unfolding finish_scenario
    finish_scenario-names r test (error e, s) = refl
    finish_scenario-names r test (done errors, s) = refl

    pub scenario_own-names :
        (test : TestSpec) (r : Runner) → KeepsNames (scenario_own out host test r)
    unfolding scenario_own
    scenario_own-names test r (mocks, w) =
        finish_scenario-names r test
          (run_steps_own out host r 1 test.scenario [] (mocks, out.new_jar w))
        ∙ run_steps_own-names r test.scenario 1 [] (mocks, out.new_jar w)
