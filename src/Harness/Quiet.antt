-- ===== src/Harness/Quiet.antt =====
-- The tests of a file neither change the files and the VCL nor the processes.
use vcltest.Base.{
  Bool, true, false, Option, none, some, List, [], ◌∷◌, ℕ, ◌+◌, ◌≡◌, ◌⊎◌, inl, inr, refl, ◌∙◌,
  Bool-cases, Option-cases, nat_beq,
}
use vcltest.Base.Map.{Map}
use vcltest.Base.Text.{Text, is_empty, codes}
use vcltest.Backend.{MockBackend}
use vcltest.Testspec.{TestSpec, ScenarioStep}
use vcltest.Testspec.Loader.{is_scenario}
use vcltest.Harness.Run.{Result, run_after_ban, run_one, run_all, run_tests}
use vcltest.Runner.{Outside, Runner, TestError, reset_call_counts}
use vcltest.Runner.Shared.{
  Outcome, done, error, RunError, State, run_single, request_step, run_step, run_steps,
  run_scenario, run_test, mark_if,
}
use vcltest.Runner.Host.{Host}
use vcltest.Runner.Effects.{Event, Records}
use vcltest.Runner.Cleanup.{finish_single-Runs, finish_step-Runs, finish_scenario-Runs}
use vcltest.Varnishadm.{VarnishResponse, clis_ok}
use vcltest.Varnishadm.Commands.{
  Answer, answered, lost, unread, crashed, refused, read_answer, ListenAddress,
  debug_listen_address_structured, or_unread, parse_listen_addresses,
}
use vcltest.Service.{port_answer, get_http_port}

pub Outcome-cases :
    {A : Type 0} (o : Outcome A) → ((e : RunError) × (o ≡ error e)) ⊎ ((a : A) × (o ≡ done a))
Outcome-cases (error e) = inl (e, refl)
Outcome-cases (done a) = inr (a, refl)

read_answer-state :
    {W A : Type 0} (parse : Text → Answer A) (x : Option VarnishResponse × W)
    → (read_answer parse x).1 ≡ x.1
unfolding read_answer
read_answer-state parse (none, w) = refl
read_answer-state parse (some resp, w) = elim (Bool-cases (nat_beq resp.status_code clis_ok)) [
  | inl y ↦ rw y refl
  | inr n ↦ rw n refl
]

port_answer-state : {W : Type 0} (x : Answer (List ListenAddress) × W) → (port_answer x).1 ≡ x.1
unfolding port_answer
port_answer-state (answered as', w) = refl
port_answer-state (lost, w) = refl
port_answer-state (unread, w) = refl
port_answer-state (crashed, w) = refl
port_answer-state (refused s t, w) = refl

pub get_http_port-state :
    {W : Type 0} (exec : Text → W → Option VarnishResponse × W) (w : W)
    → (get_http_port exec w).1 ≡ (exec (codes "debug.listen_address") w).1
unfolding get_http_port debug_listen_address_structured
get_http_port-state exec w =
    port_answer-state (debug_listen_address_structured exec w)
    ∙ read_answer-state (λ t. or_unread (parse_listen_addresses t))
        (exec (codes "debug.listen_address") w)

module _ {W : Type 0} (out : Outside W) (host : Host W) (events : W → List Event)
    (rec : Records out host events) where
  run_single-events :
      (r : Runner) (test : TestSpec) (s : State W)
      → events (run_single out r test s).1.1 ≡ events s.1
  unfolding run_single
  run_single-events r test (mocks, w) =
      finish_single-Runs out host events rec r test (mark_if out r w)
        (out.make_request false test.request (reset_call_counts mocks) w)
      ∙ rec.make_request false test.request (reset_call_counts mocks) w

  request_step-events :
      (r : Runner) (n : ℕ) (step : ScenarioStep) (mocks : Map Text MockBackend) (x : Bool × W)
      → events (request_step out r n step mocks x).1.1 ≡ events x.1
  unfolding request_step
  request_step-events r n step mocks (false, w) = refl
  request_step-events r n step mocks (true, w) =
      finish_step-Runs out host events rec r n step _ ∙ rec.make_request true step.request _ w

  run_step-events :
      (r : Runner) (n : ℕ) (step : ScenarioStep) (s : State W)
      → events (run_step out r n step s).1.1 ≡ events s.1
  unfolding run_step
  run_step-events r n step (mocks, w) = elim (Option-cases (out.parse_duration step.at)) [
    | inl q ↦ rw (q, run_step) refl
    | inr (t, q) ↦
        rw (q, run_step)
          (request_step-events r n step mocks (out.advance_time t w) ∙ rec.advance_time t w)
  ]

  run_steps-events :
      (r : Runner) (steps : List ScenarioStep) (n : ℕ) (errors : List TestError) (s : State W)
      → events (run_steps out r n steps errors s).1.1 ≡ events s.1
  unfolding run_steps
  run_steps-events r [] n errors s = refl
  run_steps-events r (step ∷ steps) n errors s = elim (Outcome-cases (run_step out r n step s).0) [
    | inl (e, q) ↦ rw (q, run_steps) (run_step-events r n step s)
    | inr (v, q) ↦
        rw (q, run_steps) (run_steps-events r steps (n + 1) _ _ ∙ run_step-events r n step s)
  ]

  run_scenario-events :
      (r : Runner) (test : TestSpec) (s : State W)
      → events (run_scenario out r test s).1.1 ≡ events s.1
  unfolding run_scenario
  run_scenario-events r test (mocks, w) = elim (Bool-cases r.has_time) [
    | inr n ↦ rw n refl
    | inl y ↦ rw y (
        finish_scenario-Runs out host events rec r test _
        ∙ run_steps-events r test.scenario 1 [] (mocks, out.new_jar w)
        ∙ rec.new_jar w)
  ]

  run_test-events :
      (r : Runner) (test : TestSpec) (s : State W) → events (run_test out r test s).1.1 ≡ events s.1
  unfolding run_test
  run_test-events r test s = elim (Bool-cases (is_empty r.loaded_vcl_name)) [
    | inl y ↦ rw y refl
    | inr n ↦ elim (Bool-cases (is_scenario test)) [
      | inl y ↦ rw (n, y) (run_scenario-events r test s)
      | inr k ↦ rw (n, k) (run_single-events r test s)
    ]
  ]

  module _ (ban : W → Option Text × W) (message : RunError → Text)
      (same : (w : W) → events (ban w).1 ≡ events w) where
    run_after_ban-events :
        (r : Runner) (test : TestSpec) (result : Result) (mocks : Map Text MockBackend)
        (x : Option Text × W)
        → events (run_after_ban out ban message r test result mocks x).1.1 ≡ events x.1
    unfolding run_after_ban
    run_after_ban-events r test result mocks (some e, w) = refl
    run_after_ban-events r test result mocks (none, w) = run_test-events r test _

    run_all-events :
        (r : Runner) (tests : List TestSpec) (result : Result) (s : State W)
        → events (run_all out ban message r tests result s).1.1 ≡ events s.1
    unfolding run_all run_one
    run_all-events r [] result s = refl
    run_all-events r (test ∷ tests) result (mocks, w) =
        run_all-events r tests _ _ ∙ run_after_ban-events r test result mocks (ban w) ∙ same w

    pub run_tests-events :
        (r : Runner) (tests : List TestSpec) (s : State W)
        → events (run_tests out ban message r tests s).1.1 ≡ events s.1
    unfolding run_tests
    run_tests-events r tests s = run_all-events r tests _ s
