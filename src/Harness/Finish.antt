-- ===== src/Harness/Finish.antt =====
-- How a run of the harness ends: what it has started and made, and what of it is taken back.
use vcltest.Base.{Bool, true, Option, some, List, [], ◌∷◌, ◌++◌, ◌≡◌, ◌⊎◌, All, if◌then◌else◌}
use vcltest.Base.Map.{Map, keys}
use vcltest.Base.Text.{Text}
use vcltest.Testspec.{TestSpec}
use vcltest.Testspec.Loader.{loaded}
use vcltest.Backend.{MockBackend}
use vcltest.Harness.{start_all_backends}
use vcltest.Harness.Names.{started_names}
use vcltest.Harness.Run.{Result}
use vcltest.Harness.Lifecycle.{Config, Services}
use vcltest.Runner.{Outside}
use vcltest.Runner.Shared.{Outcome, error, RunError, not_started, no_varnish_dir, State}
use vcltest.Runner.Host.{Host}
use vcltest.Runner.Effects.{Event, made_temp, removed, Records}
use vcltest.Harness.Ending.{ServiceRecords}
use vcltest.Harness.Ends.{Inner}
use vcltest.Testspec.Loader.{load, resolve_vcl}

module _ {W : Type 0} (out : Outside W) (host : Host W) (services : Services W)
    (message : RunError → Text) (events : W → List Event) (rec : Records out host events)
    (srec : ServiceRecords services events) where
  -- The removal of the two directories, unless a debug dump keeps them.
  abbrev pub removal : Bool → Text → Text → List Event
  removal debug work_dir varnish_dir =
      if debug then [] else removed work_dir ∷ removed varnish_dir ∷ []

  -- The mock backends are those that the start of the tests' backends has given, at some point of the
  -- run.
  abbrev pub HasStarted : List TestSpec → Map Text MockBackend → Type 0
  HasStarted tests mocks =
      (v : W) × (keys mocks ≡ started_names (start_all_backends (services.listening v) tests))

  -- The events of a run with a first directory: without a second one the first is removed. Otherwise
  -- what happens in the directories is followed by their removal.
  abbrev pub InDirs :
      Bool → List TestSpec → Text → Text → Outcome Result × State W → List Event → Type 0
  InDirs debug tests path work_dir x es =
      ((es ≡ made_temp work_dir ∷ removed work_dir ∷ [])
        × (x.0 ≡ error (not_started no_varnish_dir))
        × (x.1.0 ≡ []))
      ⊎ ((varnish_dir : Text) × (fs : List Event) × (es
            ≡ made_temp work_dir
              ∷ made_temp varnish_dir
              ∷ (fs ++ removal debug work_dir varnish_dir))
          × Inner out host services message events rec srec work_dir path x.0 fs
          × HasStarted tests x.1.0)

  abbrev pub AreStopped : Map Text MockBackend → Type 0
  AreStopped mocks = All (λ (entry : Text × MockBackend). entry.1.stopped ≡ true) mocks

  module _ (cfg : Config) (w : W) where
    abbrev pub resolved : Option Text
    unfolding resolve_vcl
    resolved = resolve_vcl (λ p. services.exists p w) cfg.beside cfg.vcl_path

  -- How a run may end: before it has made a directory, or with one and what `InDirs` says of it. Its
  -- backends are stopped either way.
  abbrev pub Ends : Config → W → Outcome Result × State W → Type 0
  Ends cfg w x =
      (es : List Event) × (events x.1.1 ≡ events w ++ es)
      × (((es ≡ []) × (x.1.0 ≡ []) × ((e : RunError) × (x.0 ≡ error e)))
          ⊎ ((path work_dir : Text) × (tests : List TestSpec) × (resolved cfg w ≡ some path)
              × (load (services.documents w) ≡ loaded tests)
              × InDirs cfg.debug_dump tests path work_dir x es))
      × AreStopped x.1.0
