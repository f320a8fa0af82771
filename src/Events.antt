-- ===== src/Events.antt =====
-- pkg/events/types.go: the events on the stream `/process`.
use vcltest.Base.{List, ℕ, Bool, true, false}
use vcltest.Base.Text.{Text}
use vcltest.Runner.{VclShowResult}

-- `E` are the errors of the component that publishes. The mapping of `EventVCLLoaded`, of type `any`, is
-- the `VCLShowResult` that its comment names.
pub data ProcessEvent (E : Type 0) : Type 0 where
  varnishadm_listening : ℕ → ProcessEvent E
  varnishd_started : Text → List Text → ProcessEvent E
  varnishd_connected : Text → ProcessEvent E
  vcl_loaded : Text → Text → VclShowResult → ProcessEvent E
  cache_started : ProcessEvent E
  ready : ProcessEvent E
  process_error : Text → E → ProcessEvent E

abbrev pub is_connected : {E : Type 0} → ProcessEvent E → Bool
is_connected (varnishd_connected addr) = true
is_connected _ = false
