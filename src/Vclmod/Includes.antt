-- ===== src/Vclmod/Includes.antt =====
-- pkg/vclmod/include_walker.go: a VCL file with all files that it includes, each changed and kept once.
use vcltest.Base.{
  Bool, Option, none, some, List, [], ◌∷◌, ◌++◌, ℕ, zero, suc, contains, if◌then◌else◌,
}
use vcltest.Base.Map.{Map}
use vcltest.Base.Text.{Text, text_eq}
use vcltest.Harness.{BackendAddress}
use vcltest.Vclmod.{
  Declaration, backend, include, other, modify_declarations, collect_backends, validate_names,
  ValidationResult, has_errors,
}

-- The files and paths, the parser and the renderer. `resolve` makes the path of an include from the
-- file that holds it, and `relative` the path from the main file's directory.
pub record Files : Type 0 where
  pub absolute : Text → Option Text
  pub read : Text → Option Text
  pub parse : Text → Text → Option (List Declaration)
  pub resolve : Text → Text → Text
  pub relative : Text → Text
  pub render : List Declaration → Text

pub record ProcessedFile : Type 0 where
  pub absolute_path : Text
  pub relative_path : Text
  pub content : Text

-- The fields of `includeWalker` that the walk changes; a visited path is in the list.
pub record Walker : Type 0 where
  pub visited : List Text
  pub processed : List ProcessedFile
  pub vcl_backends : Map Text Bool

pub data WalkError : Type 0 where
  too_deep unresolved unreadable unparsable : Text → WalkError
  bad_backends : ValidationResult → WalkError

pub data Walked (A : Type 0) : Type 0 where
  walked : A → Walked A
  failed : WalkError → Walked A

-- The loop over the includes of the file at `path`; `visit` walks one of them.
unfoldable pub walk_includes :
    (Text → Walker → Walked Walker) → (Text → Text) → List Declaration → Walker → Walked Walker
walk_includes visit resolve [] w = walked w
walk_includes visit resolve (backend d ∷ ds) w = walk_includes visit resolve ds w
walk_includes visit resolve (other source ∷ ds) w = walk_includes visit resolve ds w
walk_includes visit resolve (include path ∷ ds) w = elim (visit (resolve path) w) [
  | failed e ↦ failed e
  | walked w' ↦ walk_includes visit resolve ds w'
]

module _ (fs : Files) (addresses : Map Text BackendAddress) where
  -- A file that was read, added to the walker.
  unfoldable pub add_file : Text → List Declaration → Walker → Walker
  unfolding modify_declarations collect_backends
  add_file path ds w = record {
    visited = path ∷ w.visited;
    processed =
        w.processed
        ++ (record {
          absolute_path = path;
          relative_path = fs.relative path;
          content = fs.render (modify_declarations addresses ds);
        })
          ∷ [];
    vcl_backends = collect_backends ds w.vcl_backends;
  }

  -- A file at its absolute path.
  unfoldable pub walk_path : (Text → Walker → Walked Walker) → Text → Walker → Walked Walker
  unfolding walk_includes add_file contains
  walk_path visit path w = if contains w.visited path then walked w else elim (fs.read path) [
    | none ↦ failed (unreadable path)
    | some content ↦ elim (fs.parse content path) [
      | none ↦ failed (unparsable path)
      | some ds ↦ walk_includes visit (fs.resolve path) ds (add_file path ds w)
    ]
  ]

  -- `walkFile` with the depth that is left, `maxIncludeDepth - includeDepth`.
  unfoldable pub walk_file : ℕ → Text → Walker → Walked Walker
  unfolding walk_path
  walk_file zero path w = failed (too_deep path)
  walk_file (suc left) path w = elim (fs.absolute path) [
    | none ↦ failed (unresolved path)
    | some p ↦ walk_path (λ q v. walk_file left q v) p w
  ]

  abbrev pub max_include_depth : ℕ
  max_include_depth = 10

  abbrev pub new_walker : Walker
  new_walker = record { visited = []; processed = []; vcl_backends = [] }

  -- The end of `ProcessVCLWithIncludes`.
  unfoldable pub validate_walk : Walked Walker → Walked (List ProcessedFile × ValidationResult)
  unfolding validate_names
  validate_walk (failed e) = failed e
  validate_walk (walked w) =
      let result = validate_names w.vcl_backends addresses in
      if has_errors result then failed (bad_backends result) else walked (w.processed, result)

  -- `ProcessVCLWithIncludes`
  unfoldable pub process_vcl_with_includes : Text → Walked (List ProcessedFile × ValidationResult)
  unfolding walk_file validate_walk
  process_vcl_with_includes path = validate_walk (walk_file max_include_depth path new_walker)
