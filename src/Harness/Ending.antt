-- ===== src/Harness/Ending.antt =====
-- What the start and the end of the harness's services add to the events of a run.
use vcltest.Base.{
  Bool, true, false, some, List, [], ◌∷◌, ◌++◌, ◌≡◌, refl, ap, ◌∙◌, append_assoc, if◌then◌else◌,
}
use vcltest.Base.Text.{Text, codes}
use vcltest.Testspec.{TestSpec}
use vcltest.Recorder.Process.{Recorder}
use vcltest.Recorder.Process
use vcltest.Service
use vcltest.Service.{
  NewManager, invalid, manager, HttpPort, port, no_http_address, unanswered, get_http_port,
  new_manager,
}
use vcltest.Harness.Quiet.{get_http_port-state, run_tests-events}
use vcltest.Harness.Lifecycle.{
  Services, Ready, context_done, crashed, answering, check_manager, http_port, after_wait,
  wait_for_varnish_ready, made_recorder, check_recording, start_recorder, start_services,
  stop_services, run_services, ban, service_config,
}
use vcltest.Runner.{Outside, Runner}
use vcltest.Runner.Shared.{RunError}
use vcltest.Runner.Host.{Host, Action, outside}
use vcltest.Runner.Effects.{
  Event, launched, context_cancelled, log_started, log_stopped, showed, Records, Sets, >>=-Sets,
  outside-Sets, return-Sets, ensure-Sets, throw-Sets, same-Sets, weaken-Sets,
}

-- The record of a run's processes: the start of Varnish and of varnishlog, and their ends, add
-- themselves, and nothing else does.
pub record ServiceRecords {W : Type 0} (services : Services W) (events : W → List Event)
    : Type 0 where
  pub launch :
      (c : Service.Config) (w : W) → events (services.launch c w) ≡ events w ++ launched ∷ []
  pub cancel : (w : W) → events (services.cancel w) ≡ events w ++ context_cancelled ∷ []
  pub start_varnishlog :
      (w : W) → events (services.start_varnishlog w).1 ≡ events w ++ log_started ∷ []
  pub stop_varnishlog :
      (w : W) → events (services.stop_varnishlog w).1 ≡ events w ++ log_stopped ∷ []
  pub crashed_early : (w : W) → events (services.crashed_early w).1 ≡ events w
  pub wait : (w : W) → events (services.wait w).1 ≡ events w
  pub exec : (c : Text) (w : W) → events (services.exec c w).1 ≡ events w
  pub open_transcript : (w : W) → events (services.open_transcript w) ≡ events w
  pub close_transcript : (w : W) → events (services.close_transcript w) ≡ events w
  pub dump : (w : W) → events (services.dump w) ≡ events w

-- Any result will do.
abbrev pub Any : {A : Type 0} → A → Type 0
Any a = Unit {0}

module _ {W : Type 0} (out : Outside W) (host : Host W) (services : Services W)
    (message : RunError → Text) (events : W → List Event) (rec : Records out host events)
    (srec : ServiceRecords services events) where
  Quiet-Sets :
      {A : Type 0} (f : W → A × W)
      → ((w : W) → events (f w).1 ≡ events w)
      → Sets events (outside f) [] Any
  Quiet-Sets f h = same-Sets events (outside f) (λ (mocks, w). h w)

  Any-Sets :
      {A : Type 0} {m : Action W A} {es : List Event} {P : A → Type 0}
      → Sets events m es P
      → Sets events m es Any
  Any-Sets h = weaken-Sets events (λ a p. tt) h

  http_port-Sets : (p : HttpPort) → Sets events (http_port out host services message p) [] Any
  http_port-Sets (port p) = Any-Sets (return-Sets events p)
  http_port-Sets no_http_address = throw-Sets events _ Any
  http_port-Sets unanswered = throw-Sets events _ Any

  after_wait-Sets : (r : Ready) → Sets events (after_wait out host services message r) [] Any
  unfolding after_wait
  after_wait-Sets context_done = throw-Sets events _ Any
  after_wait-Sets crashed = throw-Sets events _ Any
  after_wait-Sets answering =
      >>=-Sets events tt
        (Quiet-Sets (get_http_port services.exec) (λ w.
          ap events (get_http_port-state services.exec w)
          ∙ srec.exec (codes "debug.listen_address") w))
        (λ found _. http_port-Sets found)

  wait_for_varnish_ready-Sets :
      Sets events (wait_for_varnish_ready out host services message) [] Any
  unfolding wait_for_varnish_ready after_wait
  wait_for_varnish_ready-Sets =
      >>=-Sets events tt (Quiet-Sets services.crashed_early srec.crashed_early) (λ early _.
        >>=-Sets events tt (ensure-Sets events _ (if early then false else true)) (λ _ _.
          >>=-Sets events tt (Quiet-Sets services.wait srec.wait)
            (λ ready _. after_wait-Sets ready)))

  made_recorder-Sets :
      (r : Process.Result Recorder) → Sets events (made_recorder out host services message r) [] Any
  made_recorder-Sets (Process.ok r) = Any-Sets (return-Sets events r)
  made_recorder-Sets (Process.err e) = throw-Sets events _ Any

  check_recording-Sets :
      (x : Process.Result (Unit {0}) × Recorder)
      → Sets events (check_recording out host services message x) [] Any
  check_recording-Sets (Process.ok u, r) = Any-Sets (return-Sets events r)
  check_recording-Sets (Process.err e, r) = throw-Sets events _ Any

  start_recorder-Sets :
      (dir : Text)
      → Sets events (start_recorder out host services message dir) (log_started ∷ []) Any
  unfolding start_recorder
  start_recorder-Sets dir =
      >>=-Sets events tt (Quiet-Sets (λ w. (services.found_varnishlog w, w)) (λ w. refl))
        (λ found _. >>=-Sets events tt (made_recorder-Sets _) (λ r _.
          >>=-Sets events (tt, tt)
            (outside-Sets events services.start_varnishlog srec.start_varnishlog)
            (λ starts _. check_recording-Sets _)))

  check_manager-Sets :
      (m : NewManager) → Sets events (check_manager out host services message m) [] Any
  check_manager-Sets (invalid e) = throw-Sets events _ Any
  check_manager-Sets (manager m) = Any-Sets (return-Sets events tt)

  open-events :
      (debug : Bool) (w : W) → events (if debug then services.open_transcript w else w) ≡ events w
  open-events true w = srec.open_transcript w
  open-events false w = refl

  -- What the start of the services adds.
  abbrev pub start_events : List Event
  start_events = launched ∷ log_started ∷ showed (codes "boot") ∷ []

  pub start_services-Sets :
      (debug : Bool) (work_dir varnish_dir path : Text) (has_scenarios : Bool)
      → Sets events
          (start_services out host services message debug work_dir varnish_dir path has_scenarios)
          start_events
          Any
  unfolding start_services
  start_services-Sets debug work_dir varnish_dir path has_scenarios =
      let cfg = service_config out host services message work_dir varnish_dir path has_scenarios in
      >>=-Sets events tt (check_manager-Sets (new_manager host.join (some cfg))) (λ _ _.
        >>=-Sets events tt
          (Quiet-Sets (λ w. (tt, if debug then services.open_transcript w else w))
            (open-events debug))
          (λ _ _.
            >>=-Sets events (tt, tt)
              (outside-Sets events (λ w. (tt, services.launch cfg w)) (srec.launch cfg))
              (λ _ _. >>=-Sets events tt wait_for_varnish_ready-Sets (λ p _.
                >>=-Sets events (tt, tt) (start_recorder-Sets varnish_dir)
                  (λ r _.
                    >>=-Sets events (tt, tt)
                      (outside-Sets events (host.vcl_show (codes "boot"))
                        (rec.vcl_show (codes "boot")))
                      (λ shown _. Any-Sets (return-Sets events _)))))))

  close-events :
      (debug : Bool) (w : W) → events (if debug then services.close_transcript w else w) ≡ events w
  close-events true w = srec.close_transcript w
  close-events false w = refl

  dump-events : (debug : Bool) (w : W) → events (if debug then services.dump w else w) ≡ events w
  dump-events true w = srec.dump w
  dump-events false w = refl

  abbrev pub stop_events : List Event
  stop_events = log_stopped ∷ context_cancelled ∷ []

  stop_services-events :
      (debug : Bool) (r : Recorder) (w : W)
      → events (stop_services out host services message debug r w) ≡ events w ++ stop_events
  unfolding stop_services
  stop_services-events debug r w =
      close-events debug _
      ∙ srec.cancel (services.stop_varnishlog w).1
      ∙ ap (λ t. t ++ context_cancelled ∷ []) (srec.stop_varnishlog w)
      ∙ append_assoc (events w) (log_stopped ∷ []) (context_cancelled ∷ [])

  pub run_services-Sets :
      (debug : Bool) (tests : List TestSpec) (running : Recorder × Runner)
      → Sets events (run_services out host services message debug tests running) stop_events Any
  unfolding run_services
  run_services-Sets debug tests (r, runner) = record {
    runs = λ s. (
      stop_events,
      stop_services-events debug r _
          ∙ ap (λ t. t ++ stop_events)
              (dump-events debug _
                ∙ run_tests-events out host events rec (ban out host services message) message
                    (λ w. srec.exec (codes "ban req.url ~ .") w) runner tests s),
      (refl, tt),
    );
  }
