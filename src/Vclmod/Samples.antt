-- ===== src/Vclmod/Samples.antt =====
-- Runs of pkg/vclmod on a main file that includes another one, which includes the main file again.
use vcltest.Base.{
  Bool, true, false, not, ◌≡◌, ◌≢◌, refl, ◌↔◌, ◌⊎◌, Option, none, some, List, [], ◌∷◌, ◌==◌, In,
  All, Any, Distinct, filter, contains, if◌then◌else◌,
}
use vcltest.Base.Map.{Map, keys}
use vcltest.Base.Text.{Text, text_eq, codes}
use vcltest.Harness.{BackendAddress}
use vcltest.Vclmod.{
  string_literal, BackendProperty, Declaration, backend, include, with_address, collect_backends,
  validate_names, find_closest_match, ValidationResult, has_errors,
}
use vcltest.Vclmod.Includes.{Files, ProcessedFile, walked, process_vcl_with_includes}
use vcltest.Vclmod.Properties.{HasValue, IsNamed, is_other, with_address_correct}
use vcltest.Vclmod.Names.{declared, missing_names}
use vcltest.Vclmod.Validation.{validate_names_correct}
use vcltest.Vclmod.{validate_backends, modify_backends}
use vcltest.Vclmod.OnePass.{validate_and_modify}
use vcltest.Vclmod.Agreement.{and_modify, validate_and_modify-and_modify}
use vcltest.Vclmod.Growth.{paths, Declares, IsComplete}
use vcltest.Vclmod.Walk.{process_vcl_with_includes_correct}

abbrev an_address : BackendAddress
an_address = record { host = codes "127.0.0.1"; port = codes "4711" }

abbrev addresses : Map Text BackendAddress
addresses = (codes "api", an_address) ∷ []

abbrev old_properties : List BackendProperty
old_properties =
    (record { name = codes "host"; value = string_literal (codes "example.com") })
    ∷ (record { name = codes "probe"; value = string_literal (codes "p") })
    ∷ []

abbrev api_decl : Declaration
api_decl = backend (record { name = codes "api"; properties = old_properties })

abbrev web_decl : Declaration
web_decl = backend (record { name = codes "Web"; properties = [] })

abbrev main_file : List Declaration
main_file = web_decl ∷ include (codes "b") ∷ []

abbrev included_file : List Declaration
included_file = api_decl ∷ include (codes "a") ∷ []

abbrev parse_file : Text → Text → Option (List Declaration)
parse_file content path = if path == codes "a" then some main_file else some included_file

abbrev files : Files
files = record {
  absolute = λ p. some p;
  read = λ p. some p;
  parse = parse_file;
  resolve = λ path q. q;
  relative = λ p. p;
  render = λ ds. [];
}

with_address_sample :
    with_address an_address old_properties
    ≡ (record { name = codes "host"; value = string_literal (codes "127.0.0.1") })
      ∷ (record { name = codes "probe"; value = string_literal (codes "p") })
      ∷ (record { name = codes "port"; value = string_literal (codes "4711") })
      ∷ []
unfolding with_address vcltest.Base.Text.text_beq
with_address_sample = refl

find_closest_match_sample :
    find_closest_match (codes "web") (codes "api" ∷ codes "Web" ∷ []) ≡ codes "Web"
unfolding find_closest_match vcltest.Base.Text.text_beq
find_closest_match_sample = refl

abbrev file_at : Text → ProcessedFile
file_at path = record { absolute_path = path; relative_path = path; content = [] }

abbrev only_web : ValidationResult
only_web = record { warnings = codes "Web" ∷ []; errors = [] }

process_sample :
    process_vcl_with_includes files addresses (codes "a")
    ≡ walked (file_at (codes "a") ∷ file_at (codes "b") ∷ [], only_web)
unfolding process_vcl_with_includes vcltest.Base.Text.text_beq
process_sample = refl

with_address_correct_example :
    let qs = with_address an_address old_properties in
    All (HasValue (codes "host") (codes "127.0.0.1")) qs
    × All (HasValue (codes "port") (codes "4711")) qs
    × Any (IsNamed (codes "host")) qs
    × Any (IsNamed (codes "port")) qs
    × (filter is_other qs ≡ filter is_other old_properties)
with_address_correct_example = with_address_correct an_address old_properties

validate_names_correct_example :
    let result = validate_names (collect_backends main_file []) addresses in
    (missing_names result.errors
      ≡ filter (λ n. not (contains (declared main_file) n)) (keys addresses))
    × ((name : Text)
        → In name result.warnings ↔ (In name (declared main_file) × (¬ In name (keys addresses))))
validate_names_correct_example = validate_names_correct main_file addresses

process_vcl_with_includes_correct_example :
    ((p : Text) × (files.absolute (codes "a") ≡ some p)
      × In p (paths (file_at (codes "a") ∷ file_at (codes "b") ∷ [])))
    × Distinct (paths (file_at (codes "a") ∷ file_at (codes "b") ∷ []))
    × All
        (IsComplete files addresses (paths (file_at (codes "a") ∷ file_at (codes "b") ∷ [])))
        (file_at (codes "a") ∷ file_at (codes "b") ∷ [])
    × ((name : Text)
        → In name (keys addresses)
        → Any (Declares files addresses name) (file_at (codes "a") ∷ file_at (codes "b") ∷ []))
    × (has_errors only_web ≡ false)
process_vcl_with_includes_correct_example =
    process_vcl_with_includes_correct files addresses (codes "a")
      (file_at (codes "a") ∷ file_at (codes "b") ∷ []) only_web process_sample

validate_and_modify-and_modify_example :
    validate_and_modify parse_file (λ ds. []) [] (codes "b") addresses
    ≡ and_modify
        (validate_backends parse_file (λ ds. []) [] (codes "b") addresses)
        (modify_backends parse_file (λ ds. []) [] (codes "b") addresses)
validate_and_modify-and_modify_example =
    validate_and_modify-and_modify parse_file (λ ds. []) [] (codes "b") addresses
