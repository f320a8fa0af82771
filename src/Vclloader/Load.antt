-- ===== src/Vclloader/Load.antt =====
-- pkg/vclloader/loader.go: the loader, which makes varnishd use its VCL when it has connected. The file
-- system, varnishd and the broker are parameters.
use vcltest.Base.{Bool, true, false, Option, none, some, List, [], ◌∷◌, nat_beq, if◌then◌else◌}
use vcltest.Base.Text.{Text, codes, text_beq}
use vcltest.Events.{ProcessEvent, varnishd_connected, vcl_loaded, process_error}
use vcltest.Runner.{VclShowResult}
use vcltest.Varnishadm.{VarnishResponse, clis_ok}

pub data LoaderError : Type 0 where
  unresolved missing no_cwd not_changed : LoaderError
  load_lost not_compiled use_lost not_activated no_mapping : LoaderError

pub record Loader : Type 0 where
  pub vcl_path : Text
  pub vcl_name : Text

unfoldable pub new : Text → Loader
new path = record { vcl_path = path; vcl_name = codes "boot" }

-- `abs` and `dir` are those of `path/filepath`; `is_missing` is an error of `os.Stat` for which
-- `os.IsNotExist` holds. A command gives a response or an error of the connection.
pub record Site (W : Type 0) : Type 0 where
  pub abs : Text → W → Option Text
  pub dir : Text → Text
  pub is_missing : Text → W → Bool
  pub getwd : W → Option Text
  pub chdir : Text → W → Bool × W
  pub vcl_load : Text → Text → W → Option VarnishResponse × W
  pub vcl_use : Text → W → Option VarnishResponse × W
  pub vcl_show : Text → W → Option VclShowResult × W
  pub publish : ProcessEvent LoaderError → W → W

-- What is left of a step: the error that ends the load, if there is one, and the state.
abbrev pub Left : Type 0 → Type 0
Left W = Option LoaderError × W

abbrev pub after : {W : Type 0} → Left W → (W → Left W) → Left W
after (some e, w) k = (some e, w)
after (none, w) k = k w

-- A response other than 200 is an error.
abbrev pub answered_ok :
    {W : Type 0} → LoaderError → LoaderError → Option VarnishResponse × W → Left W
answered_ok lost refused (none, w) = (some lost, w)
answered_ok lost refused (some resp, w) =
    (if nat_beq resp.status_code clis_ok then none else some refused, w)

module _ {W : Type 0} (site : Site W) where
  -- varnishd has loaded the VCL `boot` itself.
  unfoldable pub load_unless_boot : Loader → Text → W → Left W
  load_unless_boot l path w =
      if text_beq l.vcl_name (codes "boot")
      then (none, w)
      else answered_ok load_lost not_compiled (site.vcl_load l.vcl_name path w)

  abbrev pub publish_loaded : Loader → Text → Option VclShowResult × W → Left W
  publish_loaded l path (none, w) = (some no_mapping, w)
  publish_loaded l path (some mapping, w) =
      (none, site.publish (vcl_loaded l.vcl_name path mapping) w)

  unfoldable pub use_and_show : Loader → Text → W → Left W
  use_and_show l path w =
      after (answered_ok use_lost not_activated (site.vcl_use l.vcl_name w))
        (λ v. publish_loaded l path (site.vcl_show l.vcl_name v))

  -- The deferred change back, whose failure is only logged.
  abbrev pub restore : Text → Left W → Left W
  restore home (e, w) = (e, (site.chdir home w).1)

  abbrev pub in_directory : Loader → Text → Text → Bool × W → Left W
  in_directory l path home (false, w) = (some not_changed, w)
  in_directory l path home (true, w) =
      restore home (after (load_unless_boot l path w) (use_and_show l path))

  abbrev pub from_home : Loader → Text → Option Text → W → Left W
  from_home l path none w = (some no_cwd, w)
  from_home l path (some home) w = in_directory l path home (site.chdir (site.dir path) w)

  abbrev pub resolve : Loader → Option Text → W → Left W
  resolve l none w = (some unresolved, w)
  resolve l (some path) w =
      if site.is_missing path w then (some missing, w) else from_home l path (site.getwd w) w

  -- `loadVCL`
  unfoldable pub load_vcl : Loader → W → Left W
  unfolding load_unless_boot use_and_show
  load_vcl l w = resolve l (site.abs l.vcl_path w) w

  abbrev pub report : Left W → W
  report (none, w) = w
  report (some e, w) = site.publish (process_error (codes "vcl-loader") e) w

  unfoldable pub on_message : Loader → ProcessEvent LoaderError → W → W
  unfolding load_vcl
  on_message l (varnishd_connected addr) w = report (load_vcl l w)
  on_message l _ w = w

  -- The loop over the messages of the subscription.
  unfoldable pub handle_messages : Loader → List (ProcessEvent LoaderError) → W → W
  unfolding on_message
  handle_messages l [] w = w
  handle_messages l (m ∷ ms) w = handle_messages l ms (on_message l m w)

  -- `Start`; a subscription that fails is only logged.
  unfoldable pub start : Loader → Option (List (ProcessEvent LoaderError)) → W → W
  unfolding handle_messages
  start l none w = w
  start l (some messages) w = handle_messages l messages w
