-- ===== src/Harness/Lifecycle.antt =====
-- `Run` of pkg/harness/harness.go: from the test file through the start of backends, Varnish and
-- varnishlog to the end of the run, with what is cleaned up on the way out.
use vcltest.Base.{Bool, true, false, Option, none, some, List, [], ◌∷◌, ◌++◌, any, if◌then◌else◌}
use vcltest.Base.Int.{ℤ, pos}
use vcltest.Base.Map.{Map}
use vcltest.Base.Text.{Text, codes}
use vcltest.Testspec.{TestSpec}
use vcltest.Testspec.Loader.{Decoded, Loaded, loaded, load_error, load, is_scenario, resolve_vcl}
use vcltest.Recorder.Process.{Recorder, Starts, Stops}
use vcltest.Recorder.Process
use vcltest.Varnishadm.{VarnishResponse}
use vcltest.Varnishadm.Commands.{itoa, ban_nuke_cache}
use vcltest.Service.{
  NewManager, invalid, manager, new_manager, HttpPort, port, no_http_address, unanswered,
  get_http_port,
}
use vcltest.Service
use vcltest.Harness.{
  BackendAddress, Starting, started, no_listener, no_address, start_all_backends, stop_all_backends,
}
use vcltest.Harness.Run.{Result, run_tests}
use vcltest.Runner.{Outside, Runner, VclShowResult}
use vcltest.Runner.Shared.{
  Outcome, done, error, RunError, not_started, no_vcl_file, no_tests, no_work_dir, no_varnish_dir,
  no_backends, no_manager, varnish_crashed, cancelled, no_http_port, no_recorder, not_recording,
  State,
}
use vcltest.Runner.Host.{
  Host, Action, ◌>>=◌, ◌>>◌, outside, or_throw, ensure, return, throw, finally,
}
use vcltest.Runner.Load.{process, write_files}

-- `harness.Config`, with the path that stands for the VCL beside the test file.
pub record Config : Type 0 where
  pub vcl_path : Text
  pub beside : Text
  pub debug_dump : Bool

-- How the wait for Varnish ends: with the context, with varnishd, or with an answer of it.
pub data Ready : Type 0 where
  context_done crashed answering : Ready

-- What `Run` asks for beyond the runner's `Host`.
pub record Services (W : Type 0) : Type 0 where
  pub exists : Text → W → Bool
  -- The documents of the test file.
  pub documents : W → Option (List Decoded)
  -- The address that a backend gets, by its name, at this point of the run.
  pub listening : W → Text → Option Text
  -- Varnish is started with a configuration, in a goroutine, and ended through its context.
  pub launch : Service.Config → W → W
  pub cancel : W → W
  -- The first 100 ms, and the wait that follows.
  pub crashed_early : W → Bool × W
  pub wait : W → Ready × W
  -- A command to Varnish.
  pub exec : Text → W → Option VarnishResponse × W
  pub open_transcript : W → W
  pub close_transcript : W → W
  -- varnishlog: whether it is found, the path of its log, and what happens when it is started and ended.
  pub found_varnishlog : W → Bool
  pub log_path : Text → Text
  pub start_varnishlog : W → Starts × W
  pub stop_varnishlog : W → Stops × W
  pub dump : W → W
  -- The message of a ban that gets no answer.
  pub ban_error : Text

module _ {W : Type 0} (out : Outside W) (host : Host W) (services : Services W)
    (message : RunError → Text) where
  -- `prepareVCL`
  unfoldable pub prepare_vcl : Text → Text → Map Text BackendAddress → Action W Text
  unfolding process write_files
  prepare_vcl work_dir path addresses = do
    files ← process host path addresses
    write_files host (host.join work_dir (codes "vcl")) files []

  abbrev pub service_config : Text → Text → Text → Bool → Service.Config
  service_config work_dir varnish_dir path has_scenarios = record {
    secret = codes "test-secret";
    varnish_cmd = codes "varnishd";
    vcl_path = path;
    varnish_config = some (record {
      work_dir = work_dir;
      varnish_dir = varnish_dir;
      storage_args = [];
      vcl_path = path;
      license = record { text = []; file = [] };
      varnish = record {
        admin_port = pos 0;
        http = record { address = []; port = pos 0 } ∷ [];
        https = [];
        extra_args = [];
        time = record { enabled = has_scenarios; lib_path = [] };
      };
    });
    has_logger = true;
  }

  abbrev pub check_manager : NewManager → Action W (Unit {0})
  check_manager (invalid e) = throw (not_started no_manager)
  check_manager (manager m) = return tt

  abbrev pub http_port : HttpPort → Action W ℤ
  http_port (port p) = return p
  http_port no_http_address = throw (not_started no_http_port)
  http_port unanswered = throw (not_started no_http_port)

  -- The port is asked for while the program waits.
  unfoldable pub after_wait : Ready → Action W ℤ
  unfolding get_http_port
  after_wait context_done = throw (not_started cancelled)
  after_wait crashed = throw (not_started varnish_crashed)
  after_wait answering = do found ← outside (get_http_port services.exec); http_port found

  -- `waitForVarnishReady`
  unfoldable pub wait_for_varnish_ready : Action W ℤ
  unfolding after_wait
  wait_for_varnish_ready = do
    early ← outside services.crashed_early
    ensure (not_started varnish_crashed) (if early then false else true)
    ready ← outside services.wait
    after_wait ready

  abbrev pub made_recorder : Process.Result Recorder → Action W Recorder
  made_recorder (Process.ok r) = return r
  made_recorder (Process.err e) = throw (not_started no_recorder)

  abbrev pub check_recording : Process.Result (Unit {0}) × Recorder → Action W Recorder
  check_recording (Process.ok u, r) = return r
  check_recording (Process.err e, r) = throw (not_started not_recording)

  -- `recorder.New` and `Start`
  unfoldable pub start_recorder : Text → Action W Recorder
  unfolding Process.new Process.start
  start_recorder varnish_dir = do
    found ← outside (λ w. (services.found_varnishlog w, w))
    r ← made_recorder (Process.new varnish_dir true found (services.log_path varnish_dir))
    starts ← outside services.start_varnishlog
    check_recording (Process.start starts r)

  -- The runner, with the VCL that Varnish has loaded at boot; without its structure no VCL counts as
  -- loaded.
  abbrev pub new_runner : ℤ → Option VclShowResult → Runner
  unfolding itoa
  new_runner p shown = record {
    varnish_url = codes "http://127.0.0.1:" ++ itoa p;
    has_recorder = true;
    has_time = true;
    loaded_vcl_name = elim shown [ none ↦ [] | some s ↦ codes "boot" ];
    vcl_show_result = shown;
  }

  -- `startServices`
  unfoldable pub start_services : Bool → Text → Text → Text → Bool → Action W (Recorder × Runner)
  unfolding new_manager wait_for_varnish_ready start_recorder itoa
  start_services debug work_dir varnish_dir path has_scenarios = do
    let cfg = service_config work_dir varnish_dir path has_scenarios
    check_manager (new_manager host.join (some cfg))
    opened ← outside (λ w. (tt, if debug then services.open_transcript w else w))
    launched ← outside (λ w. (tt, services.launch cfg w))
    p ← wait_for_varnish_ready
    r ← start_recorder varnish_dir
    shown ← outside (host.vcl_show (codes "boot"))
    return (r, new_runner p shown)

  -- `stopServices`; an error of the recorder is dropped.
  unfoldable pub stop_services : Bool → Recorder → W → W
  stop_services debug r w =
      let ended = services.cancel (services.stop_varnishlog w).1 in
      if debug then services.close_transcript ended else ended

  abbrev pub ban_outcome : Option VarnishResponse → Option Text
  ban_outcome none = some services.ban_error
  ban_outcome (some resp) = none

  -- `BanNukeCache`, as `runTests` uses it: only an error counts, no status.
  abbrev pub ban : W → Option Text × W
  ban w = let (resp, v) = ban_nuke_cache services.exec w in (ban_outcome resp, v)

  -- The tests between the start of the services and their end, which comes whatever the tests give.
  unfoldable pub run_services : Bool → List TestSpec → Recorder × Runner → Action W Result
  unfolding run_tests stop_services
  run_services debug tests (r, runner) s =
      let (result, (mocks, v)) = run_tests out ban message runner tests s in
      let dumped = if debug then services.dump v else v in
      (done result, (mocks, stop_services debug r dumped))

  -- `startBackendsEarly`; a failure hands no backends on.
  abbrev pub keep_backends : Starting → Action W (Map Text BackendAddress)
  keep_backends (started all) (mocks, w) = (done all.addresses, (all.mocks, w))
  keep_backends (no_listener stopped) s = (error (not_started no_backends), s)
  keep_backends (no_address running stopped) s = (error (not_started no_backends), s)

  unfoldable pub start_backends_early : List TestSpec → Action W (Map Text BackendAddress)
  unfolding start_all_backends
  start_backends_early tests (mocks, w) =
      keep_backends (start_all_backends (services.listening w) tests) (mocks, w)

  -- What `Run` does with its directories in place.
  unfoldable pub run_in : Bool → List TestSpec → Text → Text → Text → Action W Result
  unfolding start_backends_early prepare_vcl start_services run_services stop_all_backends
  run_in debug tests path work_dir varnish_dir =
      finally
        (do
          addresses ← start_backends_early tests
          main ← prepare_vcl work_dir path addresses
          running ← start_services debug work_dir varnish_dir main (any is_scenario tests)
          run_services debug tests running)
        (λ (mocks, w). (stop_all_backends mocks, w))

  -- `cleanupTempDirs`; a debug dump keeps the directories.
  unfoldable pub cleanup_temp_dirs : Bool → Text → Text → W → W
  cleanup_temp_dirs debug work_dir varnish_dir w =
      if debug then w else host.remove_all varnish_dir (host.remove_all work_dir w)

  -- The second half of `createTempDirs`: without a second directory the first one is removed.
  unfoldable pub with_dirs : Bool → List TestSpec → Text → Text → Option Text → Action W Result
  unfolding run_in cleanup_temp_dirs
  with_dirs debug tests path work_dir none (mocks, w) =
      (error (not_started no_varnish_dir), (mocks, host.remove_all work_dir w))
  with_dirs debug tests path work_dir (some varnish_dir) s =
      finally (run_in debug tests path work_dir varnish_dir)
        (λ (mocks, w). (mocks, cleanup_temp_dirs debug work_dir varnish_dir w)) s

  abbrev pub loaded_tests : Loaded → Action W (List TestSpec)
  loaded_tests (loaded tests) = return tests
  loaded_tests (load_error e) = throw (not_started no_tests)

  -- `Run`
  unfoldable pub run : Config → W → Outcome Result × State W
  unfolding resolve_vcl load with_dirs
  run cfg w =
      (do
        found ← outside (λ v. (resolve_vcl (λ p. services.exists p v) cfg.beside cfg.vcl_path, v))
        path ← or_throw (not_started no_vcl_file) found
        documents ← outside (λ v. (services.documents v, v))
        tests ← loaded_tests (load documents)
        made ← outside host.make_temp_dir
        work_dir ← or_throw (not_started no_work_dir) made
        second ← outside host.make_temp_dir
        with_dirs cfg.debug_dump tests path work_dir second)
        ([], w)
