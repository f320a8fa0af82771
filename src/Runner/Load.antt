-- ===== src/Runner/Load.antt =====
-- `LoadVCL` and `UnloadVCL`: the VCL that all tests share, put into Varnish and taken out of it.
use vcltest.Base.{none, some, List, [], ◌∷◌, nat_beq, if◌then◌else◌}
use vcltest.Base.Map.{Map}
use vcltest.Base.Text.{Text, codes, is_empty}
use vcltest.Harness.{BackendAddress}
use vcltest.Runner.{Runner}
use vcltest.Runner.Shared.{
  LoadError, not_loaded, unprocessed, load_failed, use_failed, show_failed, no_directory, unwritten,
  not_compiled, not_activated, State,
}
use vcltest.Runner.Host.{Host, Action, ◌>>=◌, ◌>>◌, return, throw, outside, or_throw, ensure}
use vcltest.Varnishadm.{VarnishResponse, clis_ok}
use vcltest.Vclmod.{ValidationResult}
use vcltest.Vclmod.Includes.{ProcessedFile, Walked, walked, failed, process_vcl_with_includes}

-- The text in front, unless it is empty.
abbrev pub or_text : Text → Text → Text
or_text [] t = t
or_text (c ∷ s) t = c ∷ s

abbrev pub shared_name : Text
shared_name = codes "shared-vcl"

module _ {W : Type 0} (host : Host W) where
  -- A response other than 200 is an error with its payload.
  unfoldable pub expect_ok : (Text → LoadError) → VarnishResponse → Action W (Unit {0})
  expect_ok refused resp =
      ensure (not_loaded (refused resp.payload)) (nat_beq resp.status_code clis_ok)

  abbrev pub to_action :
      Walked (List ProcessedFile × ValidationResult) → Action W (List ProcessedFile)
  to_action (failed e) = throw (not_loaded (unprocessed e))
  to_action (walked (files, result)) = return files

  -- The files that the VCL at `path` consists of, with the addresses put in.
  unfoldable pub process : Text → Map Text BackendAddress → Action W (List ProcessedFile)
  process path addresses (mocks, w) =
      to_action (process_vcl_with_includes (host.files w) addresses path) (mocks, w)

  -- One file, with the directories above it.
  unfoldable pub write_one : Text → ProcessedFile → Action W (Unit {0})
  write_one root file = do
    let path = host.join root file.relative_path
    made ← outside (host.make_dirs (host.dir path))
    ensure (not_loaded (no_directory file.relative_path)) made
    wrote ← outside (host.write_file path file.content)
    ensure (not_loaded (unwritten file.relative_path)) wrote

  -- The loop over the files: `main` is the path of the first one, empty before it.
  unfoldable pub write_files : Text → List ProcessedFile → Text → Action W Text
  unfolding write_one
  write_files root [] main = return main
  write_files root (file ∷ files) main = do
    write_one root file
    write_files root files (or_text main (host.join root file.relative_path))

  -- Load, then activate.
  unfoldable pub load_and_use : Text → Text → Action W (Unit {0})
  unfolding expect_ok
  load_and_use name main = do
    loaded ← outside (host.vcl_load name main)
    resp ← or_throw (not_loaded load_failed) loaded
    expect_ok not_compiled resp
    used ← outside (host.vcl_use name)
    resp' ← or_throw (not_loaded use_failed) used
    expect_ok not_activated resp'

  -- `LoadVCL`; an error leaves the runner as it was.
  unfoldable pub load_vcl : Text → Text → Map Text BackendAddress → Runner → Action W Runner
  unfolding process write_files load_and_use
  load_vcl work_dir path addresses r = do
    files ← process path addresses
    main ← write_files (host.join work_dir (codes "vcl")) files []
    load_and_use shared_name main
    shown ← outside (host.vcl_show shared_name)
    show ← or_throw (not_loaded show_failed) shown
    return (record r { loaded_vcl_name = shared_name; vcl_show_result = some show })

  -- Back to the VCL of the boot; what Varnish answers is only logged.
  unfoldable pub discard_vcl : Text → State W → State W
  discard_vcl name (mocks, w) = (mocks, (host.vcl_discard name (host.vcl_use (codes "boot") w).1).1)

  -- `UnloadVCL`
  unfoldable pub unload_vcl : Runner → State W → Runner × State W
  unfolding discard_vcl
  unload_vcl r s = if is_empty r.loaded_vcl_name then (r, s) else (
    record r { loaded_vcl_name = []; vcl_show_result = none },
    discard_vcl r.loaded_vcl_name s,
  )
