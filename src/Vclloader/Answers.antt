-- ===== src/Vclloader/Answers.antt =====
-- What the loader publishes for the messages that it gets.
use vcltest.Base.{
  true, false, Option, none, some, List, [], ◌∷◌, ◌++◌, ◌≡◌, refl, sym, ap, ◌∙◌, append-nil,
  append_assoc,
}
use vcltest.Base.Text.{Text}
use vcltest.Events.{
  ProcessEvent, varnishadm_listening, varnishd_started, varnishd_connected, vcl_loaded,
  cache_started, ready, process_error, is_connected,
}
use vcltest.Vclloader.Load.{
  LoaderError, Loader, Site, Left, load_vcl, report, on_message, handle_messages,
}
use vcltest.Vclloader.Steps.{
  failure, Used, use_failed, use_refused, unmapped, mapped, Inside, booted, load_failed,
  load_refused, compiled, Loading, no_path, no_file, no_home, shut, entered, Comes,
  load_vcl-Loading,
}

-- `published` is what the broker has been given: only a publication adds to it.
pub record Keeps {W : Type 0} (site : Site W) (published : W → List (ProcessEvent LoaderError))
    : Type 0 where
  pub chdir : (d : Text) (w : W) → published (site.chdir d w).1 ≡ published w
  pub load : (n p : Text) (w : W) → published (site.vcl_load n p w).1 ≡ published w
  pub used : (n : Text) (w : W) → published (site.vcl_use n w).1 ≡ published w
  pub show : (n : Text) (w : W) → published (site.vcl_show n w).1 ≡ published w
  pub publish :
      (e : ProcessEvent LoaderError) (w : W) → published (site.publish e w) ≡ published w ++ e ∷ []

module _ {W : Type 0} (site : Site W) (l : Loader) where
  -- The events answer the messages: for each connection one load and its event, for another message
  -- nothing.
  pub data Answers
      : W → List (ProcessEvent LoaderError) → List (ProcessEvent LoaderError) → W → Type 0 where
    no_message : {w : W} → Answers w [] [] w
    ignored :
        (m : ProcessEvent LoaderError) (ms es : List (ProcessEvent LoaderError)) {w v : W}
        → is_connected m ≡ false
        → Answers w ms es v
        → Answers w (m ∷ ms) es v
    answered :
        (m e : ProcessEvent LoaderError) (ms es : List (ProcessEvent LoaderError)) (x : Left W)
        {w v : W}
        → is_connected m ≡ true
        → Loading site l w e x
        → Answers (report site x) ms es v
        → Answers w (m ∷ ms) (e ∷ es) v

  module _ (published : W → List (ProcessEvent LoaderError)) (keeps : Keeps site published) where
    -- A load that has not failed has published its event; one that has failed, nothing.
    abbrev Says : W → ProcessEvent LoaderError → Left W → Type 0
    Says w e (some x, v) = (e ≡ failure x) × (published v ≡ published w)
    Says w e (none, v) = published v ≡ published w ++ e ∷ []

    Used-Says :
        (path : Text) {w : W} {e : ProcessEvent LoaderError} {x : Left W}
        → Used site l path w e x
        → Says w e x
    Used-Says path {w} (use_failed h) = (refl, keeps.used _ w)
    Used-Says path {w} (use_refused h) = (refl, keeps.used _ w)
    Used-Says path {w} (unmapped v a q h) = (refl, keeps.show _ v ∙ ap published q ∙ keeps.used _ w)
    Used-Says path {w} (mapped v mapping a q h) =
        keeps.publish _ _
        ∙ ap (λ t. t ++ vcl_loaded l.vcl_name path mapping ∷ [])
            (keeps.show _ v ∙ ap published q ∙ keeps.used _ w)

    Says-from :
        (w w' : W) (e : ProcessEvent LoaderError) (x : Left W)
        → published w' ≡ published w
        → Says w' e x
        → Says w e x
    Says-from w w' e (some x, v) q (r, h) = (r, h ∙ q)
    Says-from w w' e (none, v) q h = h ∙ ap (λ t. t ++ e ∷ []) q

    Inside-Says :
        (path : Text) {w : W} {e : ProcessEvent LoaderError} {x : Left W}
        → Inside site l path w e x
        → Says w e x
    Inside-Says path (booted b u) = Used-Says path u
    Inside-Says path {w} (load_failed b h) = (refl, keeps.load _ _ w)
    Inside-Says path {w} (load_refused b h) = (refl, keeps.load _ _ w)
    Inside-Says path {w} {e} {x} (compiled b a u) =
        Says-from w _ e x (keeps.load l.vcl_name path w) (Used-Says path u)

    back-Says :
        (home : Text) (w : W) (e : ProcessEvent LoaderError) (o : Option LoaderError) (v : W)
        → Says w e (o, v)
        → Says w e (o, (site.chdir home v).1)
    back-Says home w e (some x) v (r, h) = (r, keeps.chdir home v ∙ h)
    back-Says home w e none v h = keeps.chdir home v ∙ h

    Loading-Says :
        {w : W} {e : ProcessEvent LoaderError} {x : Left W} → Loading site l w e x → Says w e x
    Loading-Says (no_path a) = (refl, refl)
    Loading-Says (no_file path a m) = (refl, refl)
    Loading-Says (no_home path a m g) = (refl, refl)
    Loading-Says {w} (shut path home a m g c) = (refl, keeps.chdir _ w)
    Loading-Says {w} (entered path home {e} {o} {v} a m g c i) =
        back-Says home w e o v (Says-from w _ e (o, v) (keeps.chdir _ w) (Inside-Says path i))

    report-Says :
        (w : W) (e : ProcessEvent LoaderError) (x : Left W)
        → Says w e x
        → published (report site x) ≡ published w ++ e ∷ []
    report-Says w e (some x, v) (r, h) =
        keeps.publish _ v
        ∙ ap (λ t. t ++ failure x ∷ []) h
        ∙ ap (λ y. published w ++ y ∷ []) (sym r)
    report-Says w e (none, v) h = h

    abbrev pub Handled : List (ProcessEvent LoaderError) → W → W → Type 0
    Handled ms w v =
        (es : List (ProcessEvent LoaderError)) × Answers w ms es v
        × (published v ≡ published w ++ es)

    ignored-Handled :
        (m : ProcessEvent LoaderError) (ms : List (ProcessEvent LoaderError)) (w v : W)
        → is_connected m ≡ false
        → Handled ms w v
        → Handled (m ∷ ms) w v
    ignored-Handled m ms w v h (es, a, p) = (es, ignored m ms es h a, p)

    answered-Handled :
        (addr : Text) (ms : List (ProcessEvent LoaderError)) (w v : W) (x : Left W)
        → Comes site l (Loading site l w) x
        → Handled ms (report site x) v
        → Handled (varnishd_connected addr ∷ ms) w v
    answered-Handled addr ms w v x (e, h) (es, a, p) = (
      e ∷ es,
      answered (varnishd_connected addr) e ms es x refl h a,
      p
          ∙ ap (λ t. t ++ es) (report-Says w e x (Loading-Says h))
          ∙ append_assoc (published w) (e ∷ []) es,
    )

    -- Whatever messages the loader gets, in whatever state, it publishes exactly one event for each
    -- connection of varnishd, in their order, and none for another message. Each event is what the load
    -- comes to that the connection starts, in the state that the loads before have left: the first step
    -- that fails, or that has an answer other than 200, ends the load with its error, and only if all of
    -- them succeed is the VCL published as loaded, with what varnishd shows of it once it is in use. A
    -- load that has changed the directory changes back to the one it came from, also behind an error.
    pub handle_messages-Answers :
        (ms : List (ProcessEvent LoaderError)) (w : W) → Handled ms w (handle_messages site l ms w)
    unfolding handle_messages on_message
    handle_messages-Answers [] w = ([], no_message, sym (append-nil (published w)))
    handle_messages-Answers (varnishd_connected addr ∷ ms) w =
        answered-Handled addr ms w _ (load_vcl site l w) (load_vcl-Loading site l w)
          (handle_messages-Answers ms (report site (load_vcl site l w)))
    handle_messages-Answers (varnishadm_listening p ∷ ms) w =
        ignored-Handled _ ms w _ refl (handle_messages-Answers ms w)
    handle_messages-Answers (varnishd_started c as' ∷ ms) w =
        ignored-Handled _ ms w _ refl (handle_messages-Answers ms w)
    handle_messages-Answers (vcl_loaded n p m ∷ ms) w =
        ignored-Handled _ ms w _ refl (handle_messages-Answers ms w)
    handle_messages-Answers (cache_started ∷ ms) w =
        ignored-Handled _ ms w _ refl (handle_messages-Answers ms w)
    handle_messages-Answers (ready ∷ ms) w =
        ignored-Handled _ ms w _ refl (handle_messages-Answers ms w)
    handle_messages-Answers (process_error c e ∷ ms) w =
        ignored-Handled _ ms w _ refl (handle_messages-Answers ms w)
