-- ===== src/Vclloader/Samples.antt =====
-- Runs of the loader.
use vcltest.Base.{true, false, ℕ, none, some, List, [], ◌∷◌, ◌++◌, ◌≡◌, refl}
use vcltest.Base.Text.{Text, codes, text_beq}
use vcltest.Events.{
  ProcessEvent, varnishadm_listening, varnishd_connected, vcl_loaded, process_error,
}
use vcltest.Runner.{VclShowResult}
use vcltest.Vclloader.Load.{LoaderError, not_activated, Site, new, handle_messages, start}
use vcltest.Vclloader.Answers.{Keeps, Handled, handle_messages-Answers}

abbrev Machine : Type 0
Machine = Text × List (ProcessEvent LoaderError)

abbrev shown : VclShowResult
shown = record { entries = []; config_map = []; vcl_source = codes "vcl 4.1;" }

-- A machine with the VCL in /etc, on which varnishd answers with the given status.
abbrev site_with : ℕ → Site Machine
site_with status = record {
  abs = λ p w. some (codes "/etc/" ++ p);
  dir = λ p. codes "/etc";
  is_missing = λ p w. false;
  getwd = λ w. some w.0;
  chdir = λ d w. (true, (d, w.1));
  vcl_load = λ n p w. (none, w);
  vcl_use = λ n w. (some (record { status_code = status; payload = [] }), w);
  vcl_show = λ n w. (some shown, w);
  publish = λ e w. (w.0, w.1 ++ e ∷ []);
}

abbrev home : Machine
home = (codes "/home", [])

site-Keeps : (status : ℕ) → Keeps (site_with status) (λ w. w.1)
site-Keeps status = record {
  chdir = λ d w. refl;
  load = λ n p w. refl;
  used = λ n w. refl;
  show = λ n w. refl;
  publish = λ e w. refl;
}

abbrev messages : List (ProcessEvent LoaderError)
messages = varnishadm_listening 6082 ∷ varnishd_connected (codes "127.0.0.1:4321") ∷ []

loaded_sample :
    start (site_with 200) (new (codes "a.vcl")) (some messages) home
    ≡ (codes "/home", vcl_loaded (codes "boot") (codes "/etc/a.vcl") shown ∷ [])
unfolding start new text_beq
loaded_sample = refl

refused_sample :
    start (site_with 106) (new (codes "a.vcl")) (some messages) home
    ≡ (codes "/home", process_error (codes "vcl-loader") not_activated ∷ [])
unfolding start new text_beq
refused_sample = refl

handle_messages-Answers_example :
    Handled
      (site_with 200)
      (new (codes "a.vcl"))
      (λ w. w.1)
      (site-Keeps 200)
      messages
      home
      (handle_messages (site_with 200) (new (codes "a.vcl")) messages home)
handle_messages-Answers_example =
    handle_messages-Answers (site_with 200) (new (codes "a.vcl")) (λ w. w.1) (site-Keeps 200)
      messages home
