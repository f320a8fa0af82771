-- ===== src/Harness/Names.antt =====
-- The mock backends that a run has in hand: those that were started stay in its state until the end.
use vcltest.Base.{
  Bool, true, false, Option, none, some, List, [], ◌∷◌, ℕ, ◌+◌, ◌==◌, ◌≡◌, refl, ap, ◌∙◌, inl, inr,
  Bool-cases, Option-cases, any, if◌then◌else◌,
}
use vcltest.Base.Map.{Map, keys, lookup, insert}
use vcltest.Base.Text.{Text, text_eq, codes, is_empty}
use vcltest.Testspec.{BackendSpec, TestSpec, ScenarioStep}
use vcltest.Testspec.Loader.{is_scenario}
use vcltest.Backend.{MockBackend, update_config}
use vcltest.Recorder.Process.{Recorder}
use vcltest.Recorder.Process
use vcltest.Harness.{
  BackendAddress, Starting, started, no_listener, no_address, start_all_backends, stop_all_backends,
  configure_backends, config_of,
}
use vcltest.Harness.Quiet.{Outcome-cases}
use vcltest.Harness.Run.{Result, run_after_ban, run_one, run_all, run_tests}
use vcltest.Harness.Lifecycle.{
  Services, Ready, context_done, crashed, answering, prepare_vcl, check_manager, http_port,
  after_wait, wait_for_varnish_ready, made_recorder, check_recording, start_recorder,
  start_services, run_services, keep_backends, start_backends_early, run_in, ban,
}
use vcltest.Service.{
  NewManager, invalid, manager, HttpPort, port, no_http_address, unanswered, get_http_port,
}
use vcltest.Runner.{Outside, Runner, TestError, reset_call_counts}
use vcltest.Runner.Shared.{
  RunError, State, run_single, request_step, run_step, run_steps, run_scenario, run_test, mark_if,
}
use vcltest.Runner.Host.{Host, Action, and_then, ◌>>=◌, outside, ensure}
use vcltest.Runner.Load.{process}
use vcltest.Runner.Names.{
  KeepsNames, RequestsKeep, >>=-names, ensure-names, process-names, write_files-names,
  finish_single-names, finish_step-names, finish_scenario-names,
}

insert-names :
    {V : Type 0} (key : Text) (v old : V) (m : Map Text V)
    → lookup key m ≡ some old
    → keys (insert key v m) ≡ keys m
unfolding lookup insert
insert-names key v old [] h = absurd (cc h)
insert-names key v old ((first, w) ∷ m) h = elim (Bool-cases (first == key)) [
  | inl same ↦ rw same refl
  | inr other ↦ rw other (ap (λ t. first ∷ t) (insert-names key v old m (rw other at h)))
]

configure_backends-names :
    (specs : Map Text BackendSpec) (mocks : Map Text MockBackend)
    → keys (configure_backends specs mocks) ≡ keys mocks
unfolding configure_backends
configure_backends-names [] mocks = refl
configure_backends-names ((name, spec) ∷ specs) mocks = elim (Option-cases (lookup name mocks)) [
  | inl q ↦ rw (q, configure_backends) (configure_backends-names specs mocks)
  | inr (mock, q) ↦
      rw (q, configure_backends)
        (configure_backends-names specs (insert name (update_config (config_of spec) mock) mocks)
          ∙ insert-names name (update_config (config_of spec) mock) mock mocks q)
]

reset_call_counts-names :
    (mocks : Map Text MockBackend) → keys (reset_call_counts mocks) ≡ keys mocks
unfolding reset_call_counts
reset_call_counts-names [] = refl
reset_call_counts-names ((name, m) ∷ ms) = ap (λ t. name ∷ t) (reset_call_counts-names ms)

stop_all_backends-names :
    (mocks : Map Text MockBackend) → keys (stop_all_backends mocks) ≡ keys mocks
unfolding stop_all_backends
stop_all_backends-names [] = refl
stop_all_backends-names ((name, m) ∷ ms) = ap (λ t. name ∷ t) (stop_all_backends-names ms)

module _ {W : Type 0} (out : Outside W) (host : Host W) (requests : RequestsKeep out host) where
  run_single-names : (r : Runner) (test : TestSpec) → KeepsNames (run_single out r test)
  unfolding run_single
  run_single-names r test (mocks, w) =
      finish_single-names out host requests r test (mark_if out r w)
        (out.make_request false test.request (reset_call_counts mocks) w)
      ∙ requests false test.request (reset_call_counts mocks) w
      ∙ reset_call_counts-names mocks

  request_step-names :
      (r : Runner) (n : ℕ) (step : ScenarioStep) (mocks : Map Text MockBackend) (x : Bool × W)
      → keys (request_step out r n step mocks x).1.0 ≡ keys mocks
  unfolding request_step
  request_step-names r n step mocks (false, w) = refl
  request_step-names r n step mocks (true, w) =
      let ready = reset_call_counts (configure_backends step.backends mocks) in
      finish_step-names out host requests r n step (out.make_request true step.request ready w)
      ∙ requests true step.request ready w
      ∙ reset_call_counts-names (configure_backends step.backends mocks)
      ∙ configure_backends-names step.backends mocks

  run_step-names : (r : Runner) (n : ℕ) (step : ScenarioStep) → KeepsNames (run_step out r n step)
  unfolding run_step
  run_step-names r n step (mocks, w) = elim (Option-cases (out.parse_duration step.at)) [
    | inl q ↦ rw (q, run_step) refl
    | inr (t, q) ↦ rw (q, run_step) (request_step-names r n step mocks (out.advance_time t w))
  ]

  run_steps-names :
      (r : Runner) (steps : List ScenarioStep) (n : ℕ) (errors : List TestError)
      → KeepsNames (run_steps out r n steps errors)
  unfolding run_steps
  run_steps-names r [] n errors s = refl
  run_steps-names r (step ∷ steps) n errors s = elim (Outcome-cases (run_step out r n step s).0) [
    | inl (e, q) ↦ rw (q, run_steps) (run_step-names r n step s)
    | inr (v, q) ↦
        rw (q, run_steps)
          (run_steps-names r steps (n + 1) _ (run_step out r n step s).1
            ∙ run_step-names r n step s)
  ]

  run_scenario-names : (r : Runner) (test : TestSpec) → KeepsNames (run_scenario out r test)
  unfolding run_scenario
  run_scenario-names r test (mocks, w) = elim (Bool-cases r.has_time) [
    | inl y ↦ rw y (
        finish_scenario-names out host requests r test
          (run_steps out r 1 test.scenario [] (mocks, out.new_jar w))
        ∙ run_steps-names r test.scenario 1 [] (mocks, out.new_jar w))
    | inr n ↦ rw n refl
  ]

  run_test-names : (r : Runner) (test : TestSpec) → KeepsNames (run_test out r test)
  unfolding run_test
  run_test-names r test s = elim (Bool-cases (is_empty r.loaded_vcl_name)) [
    | inl y ↦ rw y refl
    | inr n ↦ elim (Bool-cases (is_scenario test)) [
      | inl y ↦ rw (n, y) (run_scenario-names r test s)
      | inr m ↦ rw (n, m) (run_single-names r test s)
    ]
  ]

  module _ (ban : W → Option Text × W) (message : RunError → Text) where
    run_after_ban-names :
        (r : Runner) (test : TestSpec) (result : Result) (mocks : Map Text MockBackend)
        (x : Option Text × W)
        → keys (run_after_ban out ban message r test result mocks x).1.0 ≡ keys mocks
    unfolding run_after_ban
    run_after_ban-names r test result mocks (some e, w) = refl
    run_after_ban-names r test result mocks (none, w) =
        run_test-names r test (configure_backends test.backends mocks, w)
        ∙ configure_backends-names test.backends mocks

    run_all-names :
        (r : Runner) (tests : List TestSpec) (result : Result) (s : State W)
        → keys (run_all out ban message r tests result s).1.0 ≡ keys s.0
    unfolding run_all run_one
    run_all-names r [] result s = refl
    run_all-names r (test ∷ tests) result (mocks, w) =
        run_all-names r tests _ (run_after_ban out ban message r test result mocks (ban w)).1
        ∙ run_after_ban-names r test result mocks (ban w)

-- The mock backends that a start leaves to the run: all of them, or none.
abbrev pub started_names : Starting → List Text
started_names (started all) = keys all.mocks
started_names (no_listener stopped) = []
started_names (no_address running stopped) = []

module _ {W : Type 0} (out : Outside W) (host : Host W) (services : Services W)
    (message : RunError → Text) (requests : RequestsKeep out host) where
  prepare_vcl-names :
      (work_dir path : Text) (addresses : Map Text BackendAddress)
      → KeepsNames (prepare_vcl out host services message work_dir path addresses)
  unfolding prepare_vcl
  prepare_vcl-names work_dir path addresses =
      >>=-names (process host path addresses) _ (process-names host path addresses)
        (λ files. write_files-names host (host.join work_dir (codes "vcl")) files [])

  check_manager-names : (m : NewManager) → KeepsNames (check_manager out host services message m)
  check_manager-names (invalid e) s = refl
  check_manager-names (manager m) s = refl

  http_port-names : (p : HttpPort) → KeepsNames (http_port out host services message p)
  http_port-names (port p) s = refl
  http_port-names no_http_address s = refl
  http_port-names unanswered s = refl

  after_wait-names : (r : Ready) → KeepsNames (after_wait out host services message r)
  unfolding after_wait
  after_wait-names context_done = λ s. refl
  after_wait-names crashed = λ s. refl
  after_wait-names answering =
      >>=-names (outside (get_http_port services.exec)) _ (λ s. refl) (λ p. http_port-names p)

  wait-names : KeepsNames (wait_for_varnish_ready out host services message)
  unfolding wait_for_varnish_ready
  wait-names =
      >>=-names (outside services.crashed_early) _ (λ s. refl)
        (λ early.
          >>=-names (ensure _ (if early then false else true)) _ (ensure-names _ _)
            (λ _. >>=-names (outside services.wait) _ (λ s. refl) (λ r. after_wait-names r)))

  made_recorder-names :
      (r : Process.Result Recorder) → KeepsNames (made_recorder out host services message r)
  made_recorder-names (Process.ok r) s = refl
  made_recorder-names (Process.err e) s = refl

  check_recording-names :
      (x : Process.Result (Unit {0}) × Recorder)
      → KeepsNames (check_recording out host services message x)
  check_recording-names (Process.ok u, r) s = refl
  check_recording-names (Process.err e, r) s = refl

  start_recorder-names : (dir : Text) → KeepsNames (start_recorder out host services message dir)
  unfolding start_recorder
  start_recorder-names dir =
      >>=-names (outside (λ w. (services.found_varnishlog w, w))) _ (λ s. refl)
        (λ found.
          >>=-names (made_recorder out host services message _) _ (made_recorder-names _) (λ r.
            >>=-names (outside services.start_varnishlog) _ (λ s. refl)
              (λ starts. check_recording-names _)))

  start_services-names :
      (debug : Bool) (work_dir varnish_dir path : Text) (scenarios : Bool)
      → KeepsNames
          (start_services out host services message debug work_dir varnish_dir path scenarios)
  unfolding start_services
  start_services-names debug work_dir varnish_dir path scenarios =
      >>=-names (check_manager out host services message _) _ (check_manager-names _) (λ _.
        >>=-names (outside (λ w. (tt, if debug then services.open_transcript w else w))) _
          (λ s. refl)
          (λ _.
            >>=-names (outside (λ w. (tt, services.launch _ w))) _ (λ s. refl)
              (λ _. >>=-names (wait_for_varnish_ready out host services message) _ wait-names (λ p.
                >>=-names (start_recorder out host services message varnish_dir) _
                  (start_recorder-names varnish_dir)
                  (λ r.
                    >>=-names (outside (host.vcl_show (codes "boot"))) _ (λ s. refl)
                      (λ shown s. refl))))))

  run_services-names :
      (debug : Bool) (tests : List TestSpec) (running : Recorder × Runner)
      → KeepsNames (run_services out host services message debug tests running)
  unfolding run_services run_tests
  run_services-names debug tests (r, runner) s =
      run_all-names out host requests (ban out host services message) message runner tests _ s

  kept-names :
      {A : Type 0} (st : Starting) (w : W) (body : Map Text BackendAddress → Action W A)
      → ((a : Map Text BackendAddress) → KeepsNames (body a))
      → keys (and_then (keep_backends out host services message st ([], w)) body).1.0
        ≡ started_names st
  kept-names (started all) w body h = h all.addresses (all.mocks, w)
  kept-names (no_listener stopped) w body h = refl
  kept-names (no_address running stopped) w body h = refl

  pub run_in-names :
      (debug : Bool) (tests : List TestSpec) (path work_dir varnish_dir : Text) (w : W)
      → keys (run_in out host services message debug tests path work_dir varnish_dir ([], w)).1.0
        ≡ started_names (start_all_backends (services.listening w) tests)
  unfolding run_in start_backends_early ◌>>=◌
  run_in-names debug tests path work_dir varnish_dir w =
      stop_all_backends-names _
      ∙ kept-names (start_all_backends (services.listening w) tests) w _ (λ addresses.
        >>=-names (prepare_vcl out host services message work_dir path addresses) _
          (prepare_vcl-names work_dir path addresses)
          (λ main.
            >>=-names
              (start_services out host services message debug work_dir varnish_dir main
                (any is_scenario tests))
              _ (start_services-names debug work_dir varnish_dir main (any is_scenario tests))
              (λ running. run_services-names debug tests running)))
