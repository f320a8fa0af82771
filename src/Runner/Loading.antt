-- ===== src/Runner/Loading.antt =====
-- What `LoadVCL` and its parts have done to Varnish and to the file system.
use vcltest.Base.{
  none, some, List, [], ◌∷◌, ◌++◌, ◌≡◌, refl, sym, ap, ◌∙◌, subst, append-nil, append_assoc, All,
}
use vcltest.Base.Map.{Map}
use vcltest.Base.Text.{Text, text_eq, codes}
use vcltest.Harness.{BackendAddress}
use vcltest.Runner.{Outside, Runner}
use vcltest.Runner.Shared.{Outcome, done, error, not_loaded, show_failed, State}
use vcltest.Runner.Host.{Host, Action, ◌>>=◌, ◌>>◌, outside, or_throw, return}
use vcltest.Runner.Load.{
  or_text, expect_ok, process, write_one, write_files, load_and_use, discard_vcl, to_action,
  load_vcl, unload_vcl, shared_name,
}
use vcltest.Runner.Effects.{
  Event, loaded, used, discarded, showed, made_dirs, wrote, Records, IsSetup, Runs, Exactly, Sets,
  >>=-Runs, >>=-Sets, outside-Sets, return-Sets, or_throw-Sets, ensure-Sets, weaken-Sets, Quiet,
}
use vcltest.Vclmod.{ValidationResult}
use vcltest.Vclmod.Includes.{ProcessedFile, Walked, walked, failed, process_vcl_with_includes}

module _ {W : Type 0} (host : Host W) where
  -- The files in their order, each behind its directories.
  abbrev pub writes : Text → List ProcessedFile → List Event
  writes root [] = []
  writes root (f ∷ fs) =
      made_dirs (host.dir (host.join root f.relative_path))
      ∷ wrote (host.join root f.relative_path) f.content
      ∷ writes root fs

  -- The path of the first file with a path that is not empty.
  abbrev pub main_of : Text → List ProcessedFile → Text → Text
  main_of root [] main = main
  main_of root (f ∷ fs) main = main_of root fs (or_text main (host.join root f.relative_path))

  -- These are the files that the VCL at the path consists of, at some point of the run.
  abbrev pub Processed : Text → Map Text BackendAddress → List ProcessedFile → Type 0
  Processed path addresses files =
      (v : W) × (result : ValidationResult) × (process_vcl_with_includes (host.files v) addresses
          path
        ≡ walked (files, result))

  -- The files written, the VCL loaded, used and shown, then taken back.
  abbrev pub own_events : Text → Text → List ProcessedFile → List Event
  own_events name tmp files =
      writes tmp files
      ++ loaded name (main_of tmp files [])
        ∷ used name
        ∷ showed name
        ∷ used (codes "boot")
        ∷ discarded name
        ∷ []

  abbrev pub shared_events : Text → List ProcessedFile → List Event
  shared_events root files =
      writes root files
      ++ loaded shared_name (main_of root files []) ∷ used shared_name ∷ showed shared_name ∷ []

module _ {W : Type 0} (out : Outside W) (host : Host W) (events : W → List Event)
    (rec : Records out host events) where
  pub writes-IsSetup :
      (root : Text) (files : List ProcessedFile) → All IsSetup (writes host root files)
  writes-IsSetup root [] = tt
  writes-IsSetup root (f ∷ fs) = (tt, (tt, writes-IsSetup root fs))

  pub write_one-Sets :
      (root : Text) (f : ProcessedFile)
      → Sets events (write_one host root f) (writes host root (f ∷ [])) (λ (u : Unit {0}). Unit {0})
  unfolding write_one
  write_one-Sets root f =
      >>=-Sets events (tt, tt) (outside-Sets events (host.make_dirs _) (rec.make_dirs _))
        (λ made _. >>=-Sets events tt (ensure-Sets events _ made) (λ _ _.
          >>=-Sets events (tt, tt) (outside-Sets events (host.write_file _ _) (rec.write_file _ _))
            (λ wrote _. weaken-Sets events (λ _ _. tt) (ensure-Sets events _ wrote))))

  pub write_files-Sets :
      (root : Text) (files : List ProcessedFile) (main : Text)
      → Sets events
          (write_files host root files main)
          (writes host root files)
          (λ t. main_of host root files main ≡ t)
  unfolding write_files
  write_files-Sets root [] main = return-Sets events main
  write_files-Sets root (f ∷ fs) main =
      >>=-Sets events (tt, (tt, tt)) (write_one-Sets root f)
        (λ _ _. write_files-Sets root fs (or_text main (host.join root f.relative_path)))

  pub load_and_use-Sets :
      (name main : Text)
      → Sets events
          (load_and_use host name main)
          (loaded name main ∷ used name ∷ [])
          (λ (u : Unit {0}). Unit {0})
  unfolding load_and_use expect_ok
  load_and_use-Sets name main =
      >>=-Sets events (tt, tt)
        (outside-Sets events (host.vcl_load name main) (rec.vcl_load name main))
        (λ l _. >>=-Sets events tt (or_throw-Sets events _ l) (λ resp _.
          >>=-Sets events tt (ensure-Sets events _ _) (λ _ _.
            >>=-Sets events (tt, tt) (outside-Sets events (host.vcl_use name) (rec.vcl_use name))
              (λ u _.
                >>=-Sets events tt (or_throw-Sets events _ u)
                  (λ resp' _. weaken-Sets events (λ _ _. tt) (ensure-Sets events _ _))))))

  pub to_action-Quiet :
      (s : State W) (path : Text) (addresses : Map Text BackendAddress)
      (o : Walked (List ProcessedFile × ValidationResult))
      → process_vcl_with_includes (host.files s.1) addresses path ≡ o
      → (es : List Event) × (events (to_action host o s).1.1 ≡ events s.1 ++ es)
        × Quiet (Processed host path addresses) (to_action host o s).0 es
  to_action-Quiet s path addresses (failed e) q = ([], sym (append-nil (events s.1)), refl)
  to_action-Quiet s path addresses (walked (files, result)) q =
      ([], sym (append-nil (events s.1)), (refl, (s.1, result, q)))

  pub process-Runs :
      (path : Text) (addresses : Map Text BackendAddress)
      → Runs events (process host path addresses) (Quiet (Processed host path addresses))
  unfolding process
  process-Runs path addresses s =
      to_action-Quiet s path addresses (process_vcl_with_includes (host.files s.1) addresses path)
        refl

  pub discard_vcl-events :
      (name : Text) (s : State W)
      → events (discard_vcl host name s).1 ≡ events s.1 ++ used (codes "boot") ∷ discarded name ∷ []
  unfolding discard_vcl
  discard_vcl-events name (mocks, w) =
      rec.vcl_discard name (host.vcl_use (codes "boot") w).1
      ∙ ap (λ t. t ++ discarded name ∷ []) (rec.vcl_use (codes "boot") w)
      ∙ append_assoc (events w) (used (codes "boot") ∷ []) (discarded name ∷ [])

  -- Taking the VCL of `r` out of Varnish again, from any state.
  abbrev pub Unloads : Runner → Type 0
  Unloads r =
      (s : State W)
      → (events (unload_vcl host r s).1.1
          ≡ events s.1 ++ used (codes "boot") ∷ discarded shared_name ∷ [])
        × ((unload_vcl host r s).0.loaded_vcl_name ≡ [])
        × ((unload_vcl host r s).0.vcl_show_result ≡ none)

  abbrev pub Loads : Text → Text → Map Text BackendAddress → Outcome Runner → List Event → Type 0
  Loads root path addresses (done r) es =
      (files : List ProcessedFile) × Processed host path addresses files
      × (es ≡ shared_events host root files)
      × (r.loaded_vcl_name ≡ shared_name)
      × Unloads r
  Loads root path addresses (error e) es = All IsSetup es

  pub unload_vcl-Unloads : (r : Runner) → r.loaded_vcl_name ≡ shared_name → Unloads r
  unfolding unload_vcl
  unload_vcl-Unloads r e s = rw e (discard_vcl-events shared_name s, refl, refl)

  -- `LoadVCL` behind the processing.
  abbrev pub load_rest : Text → List ProcessedFile → Runner → Action W Runner
  load_rest root files r = do
    main ← write_files host root files []
    load_and_use host shared_name main
    shown ← outside (host.vcl_show shared_name)
    show ← or_throw (not_loaded show_failed) shown
    return (record r { loaded_vcl_name = shared_name; vcl_show_result = some show })

  pub shared-Sets :
      (root : Text) (files : List ProcessedFile) (r : Runner)
      → Sets events
          (load_rest root files r)
          (shared_events host root files)
          (λ (r' : Runner). r'.loaded_vcl_name ≡ shared_name)
  shared-Sets root files r =
      >>=-Sets events (writes-IsSetup root files) (write_files-Sets root files []) (λ main q.
        >>=-Sets events (tt, (tt, tt))
          (subst
            (λ m.
              Sets events (load_and_use host shared_name main)
                (loaded shared_name m ∷ used shared_name ∷ []) (λ (u : Unit {0}). Unit {0}))
            (sym q) (load_and_use-Sets shared_name main))
          (λ _ _.
            >>=-Sets events (tt, tt)
              (outside-Sets events (host.vcl_show shared_name) (rec.vcl_show shared_name))
              (λ shown _.
                >>=-Sets events tt (or_throw-Sets events (not_loaded show_failed) shown) (λ show _.
                  weaken-Sets events
                    (λ (a : Runner) e. ap (λ (t : Runner). t.loaded_vcl_name) (sym e))
                    (return-Sets events _)))))

  rest-Loads :
      (root path : Text) (addresses : Map Text BackendAddress) (files : List ProcessedFile)
      (o : Outcome Runner) (es gs : List Event)
      → Processed host path addresses files
      → es ≡ []
      → Exactly
          (shared_events host root files)
          (λ (r : Runner). r.loaded_vcl_name ≡ shared_name)
          o
          gs
      → Loads root path addresses o (es ++ gs)
  rest-Loads root path addresses files (done r) es gs p q (e, n) =
      (files, p, ap (λ t. t ++ gs) q ∙ e, n, unload_vcl-Unloads r n)
  rest-Loads root path addresses files (error e) es gs p q h =
      subst (λ t. All IsSetup (t ++ gs)) (sym q) h

  -- The VCL that all tests share. Loading it and succeeding has written the files that it consists of
  -- below the working directory, in their order, then loaded, used and shown the VCL under the shared
  -- name, and nothing else; unloading it from there at any later point goes back to the VCL of the
  -- boot, discards the shared one and leaves the runner without a VCL. A failure to load has undone
  -- nothing.
  pub load_vcl-Loads :
      (work_dir path : Text) (addresses : Map Text BackendAddress) (r : Runner)
      → Runs events
          (load_vcl host work_dir path addresses r)
          (Loads (host.join work_dir (codes "vcl")) path addresses)
  unfolding load_vcl
  load_vcl-Loads work_dir path addresses r =
      let root = host.join work_dir (codes "vcl") in
      >>=-Runs events (Quiet (Processed host path addresses)) (Loads root path addresses)
        (process host path addresses) (λ files. load_rest root files r)
        (process-Runs path addresses)
        (λ files es (q, p) s.
          let (gs, d, x) = (shared-Sets root files r).runs s in
          (gs, d, rest-Loads root path addresses files (load_rest root files r s).0 es gs p q x))
        (λ e es q. subst (All IsSetup) (sym q) tt)
