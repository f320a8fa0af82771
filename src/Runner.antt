-- ===== src/Runner.antt =====
-- pkg/runner/runner.go: a test against the VCL that is shared by all tests. Varnish, its clock and its
-- log, the HTTP client with its cookie jar, and the parsers of VCL, durations and URLs are parameters.
pub mod Trace
pub mod Shared
pub mod Verdicts
pub mod Steps
pub mod Host
pub mod Load
pub mod Own
pub mod Effects
pub mod Loading
pub mod Leaving
pub mod Names
pub mod Begun
pub mod Cleanup
pub mod Samples
use vcltest.Base.{Option, none, some, Bool, List, [], ◌∷◌, ℕ, true, false}
use vcltest.Base.Int.{ℤ}
use vcltest.Base.Map.{Map, insert}
use vcltest.Base.Text.{Text, text_eq}
use vcltest.Testspec.{RequestSpec}
use vcltest.Assertion.{Response, Failure}
use vcltest.Backend.{MockBackend, get_call_count, reset_call_count}
use vcltest.Coverage.{FileBlocks}
use vcltest.Coverage.Analyzer.{Decl}

-- `varnishadm.VCLConfigEntry` and `varnishadm.VCLShowResult`
pub record VclConfigEntry : Type 0 where
  pub config_id : ℤ
  pub size : ℤ
  pub filename : Text
  pub source : Text

pub record VclShowResult : Type 0 where
  pub entries : List VclConfigEntry
  pub config_map : Map ℤ Text
  pub vcl_source : Text

pub record VclFileInfo : Type 0 where
  pub config_id : ℤ
  pub filename : Text
  pub source : Text
  pub executed_lines : List ℤ
  pub blocks : Option FileBlocks

pub record VclTraceInfo : Type 0 where
  pub files : List VclFileInfo
  pub backend_calls : ℕ

-- A message of a test: a failure of a check, the same with the step that it belongs to, or an error
-- that ended the test.
pub data TestError : Type 0 where
  failure : Failure → TestError
  at_step : ℕ → Text → Failure → TestError
  ended : Text → TestError

pub record TestResult : Type 0 where
  pub test_name : Text
  pub passed : Bool
  pub errors : List TestError
  pub vcl_trace : Option VclTraceInfo

-- What the runner finds outside of the program, in a state `W` of it.
pub record Outside (W : Type 0) : Type 0 where
  -- A request through Varnish, with the scenario's cookie jar or without a jar. It may reach the mock
  -- backends.
  pub make_request :
      Bool → RequestSpec → Map Text MockBackend → W → Option Response × (Map Text MockBackend × W)
  -- `AdvanceTimeBy`: whether it succeeds.
  pub advance_time : ℤ → W → Bool × W
  pub flush : W → W
  -- The log file of varnishlog.
  pub log : W → Option Text
  -- The cookies of the scenario's jar for a URL, and a new jar.
  pub cookies : W → Text → List (Text × Text)
  pub new_jar : W → W
  pub parse_duration : Text → Option ℤ
  pub parse_url : Text → Option Text
  pub parse_vcl : Text → Text → Option (List Decl)

-- The fields of `Runner` that change what it does. No VCL is loaded while the name is empty; a nil map
-- of backends is used like an empty one.
pub record Runner : Type 0 where
  pub varnish_url : Text
  pub has_recorder : Bool
  pub has_time : Bool
  pub loaded_vcl_name : Text
  pub vcl_show_result : Option VclShowResult

-- `backend.ResetCallCount()` for every backend.
unfoldable pub reset_call_counts : Map Text MockBackend → Map Text MockBackend
unfolding reset_call_count
reset_call_counts [] = []
reset_call_counts ((name, m) ∷ ms) = (name, reset_call_count m) ∷ reset_call_counts ms

-- `backend.GetCallCount()` of every backend, by name.
unfoldable pub get_call_counts : Map Text MockBackend → Map Text ℤ
unfolding get_call_count
get_call_counts [] = []
get_call_counts ((name, m) ∷ ms) = (name, get_call_count m) ∷ get_call_counts ms
