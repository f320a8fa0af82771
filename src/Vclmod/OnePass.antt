-- ===== src/Vclmod/OnePass.antt =====
-- `ValidateAndModifyBackends` of pkg/vclmod/modifier.go, which has loops of its own for what
-- `ValidateBackends` and `ModifyBackends` do.
use vcltest.Base.{Bool, true, false, Option, none, some, List, [], ◌∷◌, ◌++◌, ◌==◌, if◌then◌else◌}
use vcltest.Base.Map.{Map, keys, lookup, insert, is_some}
use vcltest.Base.Text.{Text, text_eq, codes}
use vcltest.Harness.{BackendAddress}
use vcltest.Vclmod.{
  Declaration, backend, include, other, BackendProperty, string_literal, Missing, ValidationResult,
  Modified, ok, err, parsing, validation, find_closest_match,
}

-- The names of the declared backends, none of them used yet.
unfoldable pub collect_names : List Declaration → Map Text Bool → Map Text Bool
unfolding insert
collect_names [] names = names
collect_names (backend d ∷ ds) names = collect_names ds (insert d.name false names)
collect_names (include path ∷ ds) names = collect_names ds names
collect_names (other source ∷ ds) names = collect_names ds names

-- The loop over the backends of the test: the errors so far, and the names with those used marked.
unfoldable pub mark_names :
    List Text → List Text → List Missing → Map Text Bool → List Missing × Map Text Bool
unfolding lookup insert find_closest_match
mark_names available [] errors names = (errors, names)
mark_names available (name ∷ more) errors names =
    let suggestion = find_closest_match name available in
    let missing : Missing = record {
      name = name;
      available = available;
      suggestion = suggestion;
    } in
    if is_some (lookup name names)
    then mark_names available more errors (insert name true names)
    else mark_names available more (errors ++ missing ∷ []) names

-- The loop that warns of the names that are not used, with the warnings so far.
unfoldable pub warn_names : Map Text Bool → List Text → List Text
warn_names [] warnings = warnings
warn_names ((name, used) ∷ names) warnings =
    if used then warn_names names warnings else warn_names names (warnings ++ name ∷ [])

-- The loop over the properties of a backend, with `hostFound` and `portFound`.
unfoldable pub replace_properties :
    BackendAddress → List BackendProperty → Bool → Bool → List BackendProperty × Bool × Bool
replace_properties a [] host_found port_found = ([], host_found, port_found)
replace_properties a (p ∷ ps) host_found port_found =
    if p.name == codes "host"
    then (let (qs, h, q) = replace_properties a ps true port_found in
        (record p { value = string_literal a.host } ∷ qs, h, q))
    else if p.name == codes "port"
    then (let (qs, h, q) = replace_properties a ps host_found true in
        (record p { value = string_literal a.port } ∷ qs, h, q))
    else (let (qs, h, q) = replace_properties a ps host_found port_found in (p ∷ qs, h, q))

-- The properties that are missing, the host first.
abbrev pub append_unless : Bool → Text → Text → List BackendProperty → List BackendProperty
append_unless true name value ps = ps
append_unless false name value ps =
    ps ++ (record { name = name; value = string_literal value }) ∷ []

abbrev pub complete_properties :
    BackendAddress → List BackendProperty × Bool × Bool → List BackendProperty
complete_properties a (ps, host_found, port_found) =
    append_unless port_found (codes "port") a.port
      (append_unless host_found (codes "host") a.host ps)

-- The loop over the declarations that puts the addresses in.
unfoldable pub replace_backends : Map Text BackendAddress → List Declaration → List Declaration
unfolding lookup replace_properties
replace_backends addresses [] = []
replace_backends addresses (include path ∷ ds) = include path ∷ replace_backends addresses ds
replace_backends addresses (other source ∷ ds) = other source ∷ replace_backends addresses ds
replace_backends addresses (backend d ∷ ds) = elim (lookup d.name addresses) [
  | none ↦ backend d ∷ replace_backends addresses ds
  | some a ↦
      backend (record d {
        properties = complete_properties a (replace_properties a d.properties false false);
      })
      ∷ replace_backends addresses ds
]

-- The end of the pass: an error if a backend is missing, or the changed source.
abbrev pub finish_pass :
    (List Declaration → Text)
    → Map Text BackendAddress
    → List Declaration
    → ValidationResult
    → Modified (Text × ValidationResult)
unfolding replace_backends
finish_pass render addresses ds result = elim result.errors [
  | [] ↦ ok (render (replace_backends addresses ds), result)
  | e ∷ es ↦ err (validation result)
]

-- `ValidateAndModifyBackends`
unfoldable pub validate_and_modify :
    (Text → Text → Option (List Declaration))
    → (List Declaration → Text)
    → Text
    → Text
    → Map Text BackendAddress
    → Modified (Text × ValidationResult)
unfolding collect_names mark_names warn_names replace_backends
validate_and_modify parse render content path addresses = elim (parse content path) [
  | none ↦ err parsing
  | some ds ↦
      let names = collect_names ds [] in
      let (errors, marked) = mark_names (keys names) (keys addresses) [] names in
      finish_pass render addresses ds (record { warnings = warn_names marked []; errors = errors })
]
