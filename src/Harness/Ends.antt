-- ===== src/Harness/Ends.antt =====
-- What a run of the harness does between its directories and their removal.
use vcltest.Base.{
  Bool, true, List, [], ◌∷◌, ◌++◌, ◌≡◌, refl, sym, ap, ◌∙◌, subst, All, All-append, any,
}
use vcltest.Base.Map.{Map}
use vcltest.Base.Text.{Text, codes}
use vcltest.Testspec.{TestSpec}
use vcltest.Testspec.Loader.{is_scenario}
use vcltest.Backend.{MockBackend, stop}
use vcltest.Harness.{
  BackendAddress, Starting, started, no_listener, no_address, start_all_backends, stop_all_backends,
}
use vcltest.Harness.Run.{Result}
use vcltest.Harness.Lifecycle.{
  Services, prepare_vcl, start_services, run_services, keep_backends, start_backends_early, run_in,
}
use vcltest.Runner.{Outside}
use vcltest.Runner.Shared.{Outcome, done, error, RunError, State}
use vcltest.Runner.Host.{Host, Action, ◌>>=◌}
use vcltest.Runner.Load.{process, write_files}
use vcltest.Runner.Effects.{
  Event, Records, IsSetup, Runs, Exactly, Sets, Quiet, >>=-Runs, >>=-Sets, throw-Sets, same-Sets,
}
use vcltest.Runner.Loading.{writes, Processed, writes-IsSetup, write_files-Sets, process-Runs}
use vcltest.Vclmod.Includes.{ProcessedFile}
use vcltest.Harness.Ending.{
  ServiceRecords, Any, start_services-Sets, run_services-Sets, start_events, stop_events,
}

stop_all_backends-stopped :
    (mocks : Map Text MockBackend)
    → All (λ (entry : Text × MockBackend). entry.1.stopped ≡ true) (stop_all_backends mocks)
unfolding stop_all_backends stop
stop_all_backends-stopped [] = tt
stop_all_backends-stopped ((name, m) ∷ ms) = (refl, stop_all_backends-stopped ms)

module _ {W : Type 0} (out : Outside W) (host : Host W) (services : Services W)
    (message : RunError → Text) (events : W → List Event) (rec : Records out host events)
    (srec : ServiceRecords services events) where
  keep_backends-Sets :
      (o : Starting) → Sets events (keep_backends out host services message o) [] Any
  keep_backends-Sets (no_listener stopped) = throw-Sets events _ Any
  keep_backends-Sets (no_address running stopped) = throw-Sets events _ Any
  keep_backends-Sets (started all) =
      same-Sets events (keep_backends out host services message (started all)) (λ s. refl)

  start_backends_early-Sets :
      (tests : List TestSpec)
      → Sets events (start_backends_early out host services message tests) [] Any
  unfolding start_backends_early
  start_backends_early-Sets tests = record {
    runs = λ (mocks, w).
        (keep_backends-Sets (start_all_backends (services.listening w) tests)).runs (mocks, w);
  }

  -- The files of the VCL are written, which ones depends on the disk.
  abbrev Prepared : Text → Text → Map Text BackendAddress → Outcome Text → List Event → Type 0
  Prepared work_dir path addresses (done main) es =
      (files : List ProcessedFile) × Processed host path addresses files
      × (es ≡ writes host (host.join work_dir (codes "vcl")) files)
  Prepared work_dir path addresses (error e) es = All IsSetup es

  Exactly-Prepared :
      (work_dir path : Text) (addresses : Map Text BackendAddress) (files : List ProcessedFile)
      (o : Outcome Text) (P : Text → Type 0) (es gs : List Event)
      → Processed host path addresses files
      → es ≡ []
      → Exactly (writes host (host.join work_dir (codes "vcl")) files) P o gs
      → Prepared work_dir path addresses o (es ++ gs)
  Exactly-Prepared work_dir path addresses files (done main) P es gs p q (r, x) =
      (files, p, ap (λ t. t ++ gs) q ∙ r)
  Exactly-Prepared work_dir path addresses files (error e) P es gs p q h =
      subst (λ t. All IsSetup (t ++ gs)) (sym q) h

  prepare_vcl-Runs :
      (work_dir path : Text) (addresses : Map Text BackendAddress)
      → Runs events
          (prepare_vcl out host services message work_dir path addresses)
          (Prepared work_dir path addresses)
  unfolding prepare_vcl
  prepare_vcl-Runs work_dir path addresses =
      let root = host.join work_dir (codes "vcl") in
      >>=-Runs events (Quiet (Processed host path addresses)) (Prepared work_dir path addresses)
        (process host path addresses) (λ files. write_files host root files [])
        (process-Runs out host events rec path addresses)
        (λ files es (q, p) s.
          let (gs, d, x) = (write_files-Sets out host events rec root files []).runs s in
          (gs, d, Exactly-Prepared work_dir path addresses files _ _ es gs p q x))
        (λ e es q. subst (All IsSetup) (sym q) tt)

  -- Everything between the directories and their removal.
  abbrev pub Inner : Text → Text → Outcome Result → List Event → Type 0
  Inner work_dir path (done r) es =
      (addresses : Map Text BackendAddress) × (files : List ProcessedFile) × Processed host path
        addresses files
      × (es
          ≡ writes host (host.join work_dir (codes "vcl")) files
            ++ (start_events out host services message events rec srec
                ++ stop_events out host services message events rec srec))
  Inner work_dir path (error e) es = All IsSetup es

  module _ (debug : Bool) (tests : List TestSpec) (path work_dir varnish_dir : Text) where
    abbrev serve : Text → Action W Result
    serve main = do
      running ←
          start_services out host services message debug work_dir varnish_dir main
            (any is_scenario tests)
      run_services out host services message debug tests running

    serve-Sets :
        (main : Text)
        → Sets events
            (serve main)
            (start_events out host services message events rec srec
              ++ stop_events out host services message events rec srec)
            Any
    serve-Sets main =
        >>=-Sets events (tt, (tt, (tt, tt)))
          (start_services-Sets out host services message events rec srec debug work_dir varnish_dir
            main (any is_scenario tests))
          (λ running _.
            run_services-Sets out host services message events rec srec debug tests running)

    served-Inner :
        (addresses : Map Text BackendAddress) (files : List ProcessedFile) (o : Outcome Result)
        (es gs : List Event)
        → Processed host path addresses files
        → es ≡ writes host (host.join work_dir (codes "vcl")) files
        → Exactly
            (start_events out host services message events rec srec
              ++ stop_events out host services message events rec srec)
            Any
            o
            gs
        → Inner work_dir path o (es ++ gs)
    served-Inner addresses files (done r) es gs p q (e, u) = (
      addresses,
      files,
      p,
      ap (λ t. t ++ gs) q ∙ ap (λ t. writes host (host.join work_dir (codes "vcl")) files ++ t) e,
    )
    served-Inner addresses files (error e) es gs p q h =
        All-append IsSetup es gs
          (subst (All IsSetup) (sym q)
            (writes-IsSetup out host events rec (host.join work_dir (codes "vcl")) files))
          h

    prepared-Runs :
        (addresses : Map Text BackendAddress)
        → Runs events
            (prepare_vcl out host services message work_dir path addresses >>= serve)
            (Inner work_dir path)
    prepared-Runs addresses =
        >>=-Runs events (Prepared work_dir path addresses) (Inner work_dir path)
          (prepare_vcl out host services message work_dir path addresses) serve
          (prepare_vcl-Runs work_dir path addresses)
          (λ main es (files, p, q) s.
            let (gs, d, x) = (serve-Sets main).runs s in
            (gs, d, served-Inner addresses files (serve main s).0 es gs p q x))
          (λ e es h. h)

    empty-Inner :
        (o : Outcome Result) (es gs : List Event)
        → es ≡ []
        → Inner work_dir path o gs
        → Inner work_dir path o (es ++ gs)
    empty-Inner o es gs q h = subst (λ t. Inner work_dir path o (t ++ gs)) (sym q) h

    pub run_in-Runs :
        Runs events
          (run_in out host services message debug tests path work_dir varnish_dir)
          (Inner work_dir path)
    unfolding run_in
    run_in-Runs s =
        let (es, e, p) =
          >>=-Runs events (Exactly [] Any) (Inner work_dir path)
            (start_backends_early out host services message tests)
            (λ addresses. prepare_vcl out host services message work_dir path addresses >>= serve)
            (start_backends_early-Sets tests).runs
            (λ addresses es (q, u) t.
              let (gs, d, x) = prepared-Runs addresses t in (gs, d, empty-Inner _ es gs q x))
            (λ e es h. h) s in
        (es, e, p)

    pub run_in-stopped :
        (s : State W)
        → All
            (λ (entry : Text × MockBackend). entry.1.stopped ≡ true)
            (run_in out host services message debug tests path work_dir varnish_dir s).1.0
    unfolding run_in
    run_in-stopped s = stop_all_backends-stopped _
