-- ===== src/Runner/Cleanup.antt =====
-- What a test with backends and a VCL of its own has done when it ends.
use vcltest.Base.{
  true, Option, none, some, List, [], ◌∷◌, ◌++◌, ℕ, ◌≡◌, inl, inr, refl, All, Bool-cases,
}
use vcltest.Base.Map.{Map, keys}
use vcltest.Base.Text.{Text, text_eq}
use vcltest.Backend.{MockBackend, stop}
use vcltest.Harness.{BackendAddress}
use vcltest.Testspec.{TestSpec, ScenarioStep}
use vcltest.Assertion.{Response}
use vcltest.Runner.{Outside, Runner, TestResult, TestError}
use vcltest.Runner.Shared.{Outcome, done, error, State, finish_single, finish_step, finish_scenario}
use vcltest.Runner.Host.{Host}
use vcltest.Runner.Own.{stop_all}
use vcltest.Runner.Effects.{Event, Records}
use vcltest.Runner.Names.{RequestsKeep}
use vcltest.Runner.Begun.{Begun}
use vcltest.Runner.Leaving.{Leaves}

module _ {W : Type 0} (out : Outside W) (host : Host W) (events : W → List Event)
    (rec : Records out host events) where
  abbrev Any : Map Text BackendAddress → Type 0
  Any a = Unit {0}

  pub finish_single-Runs :
      (r : Runner) (test : TestSpec) (offset : ℕ) (x : Option Response × State W)
      → events (finish_single out r test offset x).1.1 ≡ events x.1.1
  unfolding finish_single
  finish_single-Runs r test offset (none, s) = refl
  finish_single-Runs r test offset (some response, (mocks, w)) = elim (Bool-cases r.has_recorder) [
    | inl y ↦ rw y (rec.flush w)
    | inr n ↦ rw n refl
  ]

  pub finish_step-Runs :
      (r : Runner) (n : ℕ) (step : ScenarioStep) (x : Option Response × State W)
      → events (finish_step out r n step x).1.1 ≡ events x.1.1
  unfolding finish_step
  finish_step-Runs r n step (none, s) = refl
  finish_step-Runs r n step (some response, (mocks, w)) = elim (Bool-cases r.has_recorder) [
    | inl y ↦ rw y (rec.flush w)
    | inr n ↦ rw n refl
  ]

  pub finish_scenario-Runs :
      (r : Runner) (test : TestSpec) (x : Outcome (List TestError) × State W)
      → events (finish_scenario out r test x).1.1 ≡ events x.1.1
  unfolding finish_scenario
  finish_scenario-Runs r test (error e, s) = refl
  finish_scenario-Runs r test (done errors, s) = refl

  pub stop_all-stopped :
      (mocks : Map Text MockBackend)
      → All (λ (entry : Text × MockBackend). entry.1.stopped ≡ true) (stop_all mocks)
  unfolding stop_all stop
  stop_all-stopped [] = tt
  stop_all-stopped ((name, m) ∷ ms) = (refl, stop_all-stopped ms)

  -- What a test leaves: its backends stopped, and its files and its VCL as `Leaves` says.
  abbrev pub EndsWell : Text → Text → W → Outcome TestResult × State W → Type 0
  EndsWell name path w x =
      (addresses : Map Text BackendAddress) × (es : List Event) × (events x.1.1 ≡ events w ++ es)
      × Leaves out host events rec name path addresses x.0 es
      × All (λ (entry : Text × MockBackend). entry.1.stopped ≡ true) x.1.0

  module _ (requests : RequestsKeep out host) where
    abbrev Held : TestSpec → Outcome TestResult × State W → Type 0
    Held test x = Begun (keys test.backends) x.0 (keys x.1.0)
