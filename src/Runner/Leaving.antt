-- ===== src/Runner/Leaving.antt =====
-- The VCL of one test: what has been done around it to Varnish and to the file system.
use vcltest.Base.{
  Option, none, some, List, [], ◌∷◌, ◌++◌, ◌≡◌, ◌⊎◌, inl, inr, refl, sym, ap, ◌∙◌, subst,
  append-nil, All,
}
use vcltest.Base.Map.{Map}
use vcltest.Base.Text.{Text, text_eq}
use vcltest.Harness.{BackendAddress}
use vcltest.Runner.{Outside, Runner, TestResult}
use vcltest.Runner.Shared.{Outcome, done, error, not_loaded, no_temp_dir, State}
use vcltest.Runner.Host.{Host, Action, ◌>>=◌, ◌>>◌, outside, or_throw, finally}
use vcltest.Runner.Load.{process, write_files, load_and_use, discard_vcl}
use vcltest.Runner.Own.{with_vcl}
use vcltest.Runner.Effects.{
  Event, loaded, used, made_temp, removed, temp_event, Records, IsSetup, Runs, Exactly, Sets,
  >>=-Runs, >>=-Sets, outside-Runs, outside-Sets, finally-Runs, Quiet,
}
use vcltest.Vclmod.Includes.{ProcessedFile}
use vcltest.Runner.Loading.{
  Processed, own_events, writes-IsSetup, write_files-Sets, load_and_use-Sets, process-Runs,
  discard_vcl-events,
}

module _ {W : Type 0} (out : Outside W) (host : Host W) (events : W → List Event)
    (rec : Records out host events) where
  -- What a test does between the loading of its VCL and its end.
  around-Sets :
      (name : Text) (tmp : Text) (files : List ProcessedFile) (r : Runner)
      (body : Runner → Action W TestResult)
      → ((r' : Runner) → Sets events (body r') [] (λ (t : TestResult). Unit {0}))
      → Sets events
          (do
            main ← write_files host tmp files []
            load_and_use host name main
            shown ← outside (host.vcl_show name)
            result ← body (record r { vcl_show_result = shown })
            λ s. (done result, discard_vcl host name s))
          (own_events host name tmp files)
          (λ (t : TestResult). Unit {0})
  around-Sets name tmp files r body h =
      >>=-Sets events (writes-IsSetup out host events rec tmp files)
        (write_files-Sets out host events rec tmp files [])
        (λ main q.
          >>=-Sets events (tt, (tt, tt))
            (subst
              (λ m.
                Sets events (load_and_use host name main) (loaded name m ∷ used name ∷ [])
                  (λ (u : Unit {0}). Unit {0}))
              (sym q) (load_and_use-Sets out host events rec name main))
            (λ _ _.
              >>=-Sets events (tt, tt)
                (outside-Sets events (host.vcl_show name) (rec.vcl_show name))
                (λ shown _.
                  >>=-Sets events tt (h (record r { vcl_show_result = shown })) (λ result _.
                    record {
                      runs = λ s. (_, discard_vcl-events out host events rec name s, (refl, tt));
                    }))))

  -- What a test with its own VCL has done when it ends. With a result: it has made a directory, written
  -- the files, loaded and used the VCL, and taken all of it back. With an error: it has undone no more
  -- than the directory.
  abbrev pub Leaves :
      Text → Text → Map Text BackendAddress → Outcome TestResult → List Event → Type 0
  Leaves name path addresses (done t) es =
      (files : List ProcessedFile) × (tmp : Text) × Processed host path addresses files
      × (es ≡ made_temp tmp ∷ ((own_events host name tmp files) ++ removed tmp ∷ []))
  Leaves name path addresses (error e) es =
      (es ≡ [])
      ⊎ ((tmp : Text) × (fs : List Event) × (es ≡ made_temp tmp ∷ (fs ++ removed tmp ∷ []))
          × All IsSetup fs)

  module _ (name path : Text) (addresses : Map Text BackendAddress) where
    in_temp-Leaves :
        (files : List ProcessedFile) (tmp : Text) (o : Outcome TestResult) (fs gs : List Event)
        → Processed host path addresses files
        → gs ≡ fs ++ removed tmp ∷ []
        → Exactly (own_events host name tmp files) (λ (t : TestResult). Unit {0}) o fs
        → Leaves name path addresses o (made_temp tmp ∷ gs)
    in_temp-Leaves files tmp (done t) fs gs p q (r, u) =
        (files, tmp, p, ap (λ t. made_temp tmp ∷ t) (q ∙ ap (λ t. t ++ removed tmp ∷ []) r))
    in_temp-Leaves files tmp (error e) fs gs p q r = inr (tmp, fs, ap (λ t. made_temp tmp ∷ t) q, r)

    -- A test's action that records nothing.
    module _ (body : Runner → Action W TestResult) (r : Runner)
        (h : (r' : Runner) → Sets events (body r') [] (λ (t : TestResult). Unit {0})) where
      abbrev in_temp : List ProcessedFile → Text → Action W TestResult
      in_temp files tmp = do
        main ← write_files host tmp files []
        load_and_use host name main
        shown ← outside (host.vcl_show name)
        result ← body (record r { vcl_show_result = shown })
        λ s. (done result, discard_vcl host name s)

      abbrev drop_temp : Text → State W → State W
      drop_temp tmp (mocks, w) = (mocks, host.remove_all tmp w)

      abbrev with_temp : List ProcessedFile → Text → Action W TestResult
      with_temp files tmp = finally (in_temp files tmp) (drop_temp tmp)

      made-Leaves :
          (files : List ProcessedFile) (made : Option Text)
          → Processed host path addresses files
          → Runs events
              (or_throw (not_loaded no_temp_dir) made >>= with_temp files)
              (λ o fs. Leaves name path addresses o (temp_event made ++ fs))
      unfolding ◌>>=◌
      made-Leaves files none p s = ([], sym (append-nil (events s.1)), inl refl)
      made-Leaves files (some tmp) p s =
          let (gs, e, (fs, q, x)) =
            finally-Runs events
              (Exactly (own_events host name tmp files) (λ (t : TestResult). Unit {0}))
              (in_temp files tmp) (drop_temp tmp) (removed tmp ∷ [])
              (around-Sets name tmp files r body h).runs (λ t. rec.remove_all tmp t.1) s in
          (gs, e, in_temp-Leaves files tmp _ fs gs p q x)

      pub with_vcl-Leaves :
          Runs events (with_vcl out host name path body r addresses) (Leaves name path addresses)
      unfolding with_vcl
      with_vcl-Leaves =
          >>=-Runs events (Quiet (Processed host path addresses)) (Leaves name path addresses)
            (process host path addresses) _ (process-Runs out host events rec path addresses)
            (λ files es (q, p).
              >>=-Runs events (λ o es. (a : Option Text) × (o ≡ done a) × (es ≡ temp_event a))
                (λ o fs. Leaves name path addresses o (es ++ fs)) (outside host.make_temp_dir) _
                (outside-Runs events host.make_temp_dir temp_event rec.make_temp_dir)
                (λ made gs (a, e, g) s.
                  let (fs, d, l) = made-Leaves files made p s in
                  (
                    fs,
                    d,
                    subst (Leaves name path addresses _)
                        (sym (
                          ap (λ t. t ++ (gs ++ fs)) q
                          ∙ ap (λ t. t ++ fs) (g ∙ ap temp_event (cc e))))
                        l,
                  ))
                (λ x gs (a, e, g). absurd (cc e)))
            (λ e es q. inl q)
