-- ===== src/Vclmod/Agreement.antt =====
-- The one pass of `ValidateAndModifyBackends` against `ValidateBackends` and `ModifyBackends`.
use vcltest.Base.{
  Bool, true, false, ◌||◌, ◌≡◌, refl, sym, ap, ◌∙◌, inl, inr, Option, List, [], ◌∷◌, ◌++◌, ◌==◌,
  eq_iff, map, append-nil, append_assoc, Bool-cases, Option-cases, if◌then◌else◌,
}
use vcltest.Base.Map.{Map, keys, lookup, insert, is_some}
use vcltest.Base.Text.{Text, text_eq, codes, text_beq}
use vcltest.Harness.{BackendAddress}
use vcltest.Vclmod.{
  Declaration, backend, include, other, BackendProperty, set_property, has_property, add_missing,
  with_address, modify_declaration, modify_declarations, collect_backends, Missing, check_names,
  unused, ValidationResult, validate_names, has_errors, Modified, ok, err, validation,
  modify_backends, validate_backends,
}
use vcltest.Vclmod.OnePass.{
  collect_names, mark_names, warn_names, replace_properties, append_unless, complete_properties,
  replace_backends, finish_pass, validate_and_modify,
}

collect_names-collect :
    (ds : List Declaration) (names : Map Text Bool)
    → collect_names ds names ≡ collect_backends ds names
unfolding collect_names collect_backends
collect_names-collect [] names = refl
collect_names-collect (backend d ∷ ds) names = collect_names-collect ds _
collect_names-collect (include path ∷ ds) names = collect_names-collect ds names
collect_names-collect (other source ∷ ds) names = collect_names-collect ds names

mark_names-check :
    (available more : List Text) (errors : List Missing) (names : Map Text Bool)
    → mark_names available more errors names
      ≡ (errors ++ (check_names available more names).0, (check_names available more names).1)
unfolding mark_names check_names
mark_names-check available [] errors names = ap (λ es. (es, names)) (sym (append-nil errors))
mark_names-check available (name ∷ more) errors names =
    elim (Bool-cases (is_some (lookup name names))) [
      | inl y ↦ rw y (mark_names-check available more errors (insert name true names))
      | inr n ↦ rw n (
          mark_names-check available more _ names
          ∙ ap (λ es. (es, (check_names available more names).1))
              (append_assoc errors _ (check_names available more names).0))
    ]

warn_names-unused :
    (names : Map Text Bool) (warnings : List Text)
    → warn_names names warnings ≡ warnings ++ unused names
unfolding warn_names
warn_names-unused [] warnings = sym (append-nil warnings)
warn_names-unused ((name, true) ∷ names) warnings = warn_names-unused names warnings
warn_names-unused ((name, false) ∷ names) warnings =
    warn_names-unused names (warnings ++ name ∷ [])
    ∙ append_assoc warnings (name ∷ []) (unused names)

or_true : (a : Bool) → (a || true) ≡ true
or_true true = refl
or_true false = refl

host-port : (codes "host" == codes "port") ≡ false
unfolding text_beq
host-port = refl

replace_properties-set :
    (a : BackendAddress) (ps : List BackendProperty) (h q : Bool)
    → replace_properties a ps h q ≡ (
      map (set_property a) ps,
      h || has_property (codes "host") ps,
      q || has_property (codes "port") ps,
    )
unfolding replace_properties
replace_properties-set a [] true true = refl
replace_properties-set a [] true false = refl
replace_properties-set a [] false true = refl
replace_properties-set a [] false false = refl
replace_properties-set a (p ∷ ps) h q = elim (Bool-cases (p.name == codes "host")) [
  | inl y ↦
      let z = ap (λ t. t == codes "port") ((eq_iff p.name (codes "host")).0 y) ∙ host-port in
      rw (y, z, replace_properties-set a ps true q, or_true h) refl
  | inr n ↦ elim (Bool-cases (p.name == codes "port")) [
    | inl y ↦ rw (n, y, replace_properties-set a ps h true, or_true q) refl
    | inr m ↦ rw (n, m, replace_properties-set a ps h q) refl
  ]
]

append_unless-missing :
    (found : Bool) (name value : Text) (ps : List BackendProperty)
    → append_unless found name value ps ≡ add_missing name value found ps
append_unless-missing true name value ps = refl
append_unless-missing false name value ps = refl

complete_properties-with_address :
    (a : BackendAddress) (ps : List BackendProperty)
    → complete_properties a (replace_properties a ps false false) ≡ with_address a ps
unfolding with_address
complete_properties-with_address a ps =
    let host = has_property (codes "host") ps in
    let port = has_property (codes "port") ps in
    let qs = map (set_property a) ps in
    ap (complete_properties a) (replace_properties-set a ps false false)
    ∙ append_unless-missing port (codes "port") a.port _
    ∙ ap (add_missing (codes "port") a.port port)
        (append_unless-missing host (codes "host") a.host qs)

replace_backends-modify :
    (addresses : Map Text BackendAddress) (ds : List Declaration)
    → replace_backends addresses ds ≡ modify_declarations addresses ds
unfolding replace_backends modify_declarations modify_declaration
replace_backends-modify addresses [] = refl
replace_backends-modify addresses (include path ∷ ds) =
    ap (λ t. include path ∷ t) (replace_backends-modify addresses ds)
replace_backends-modify addresses (other source ∷ ds) =
    ap (λ t. other source ∷ t) (replace_backends-modify addresses ds)
replace_backends-modify addresses (backend d ∷ ds) = elim (Option-cases (lookup d.name addresses)) [
  | inl q ↦
      rw (q, replace_backends, modify_declaration)
        (ap (λ t. backend d ∷ t) (replace_backends-modify addresses ds))
  | inr (a, q) ↦
      rw (q, replace_backends, modify_declaration, complete_properties-with_address a d.properties)
        (ap (λ t. backend (record d { properties = with_address a d.properties }) ∷ t)
          (replace_backends-modify addresses ds))
]

validated :
    (ds : List Declaration) (addresses : Map Text BackendAddress)
    → (let names = collect_names ds [] in
        let (errors, marked) = mark_names (keys names) (keys addresses) [] names in
        ◌≡◌ {A = ValidationResult}
          (record { warnings = warn_names marked []; errors = errors })
          (validate_names (collect_backends ds []) addresses))
unfolding validate_names
validated ds addresses =
    let names = collect_backends ds [] in
    let checked = check_names (keys names) (keys addresses) names in
    rw
      (
        collect_names-collect ds [],
        mark_names-check (keys names) (keys addresses) [] names,
        warn_names-unused checked.1 [],
      )
      refl

-- One operation after another, with both results.
abbrev pub and_modify : {A B : Type 0} → Modified A → Modified B → Modified (B × A)
and_modify (err e) b = err e
and_modify (ok a) (err e) = err e
and_modify (ok a) (ok b) = ok (b, a)

finish_pass-and_modify :
    (render : List Declaration → Text) (addresses : Map Text BackendAddress) (ds : List Declaration)
    (ws : List Text) (es : List Missing)
    → (let result : ValidationResult = record { warnings = ws; errors = es } in
        finish_pass render addresses ds result
        ≡ and_modify
            (if has_errors result then err (validation result) else ok result)
            (ok (render (modify_declarations addresses ds))))
unfolding replace_backends
finish_pass-and_modify render addresses ds ws [] = rw (replace_backends-modify addresses ds) refl
finish_pass-and_modify render addresses ds ws (e ∷ es) = refl

-- The one pass, which parses once and has loops of its own, gives what validating the backends and then
-- changing them gives: the same source with the same warnings, or the same error of the parser or of
-- the names.
pub validate_and_modify-and_modify :
    (parse : Text → Text → Option (List Declaration)) (render : List Declaration → Text)
    (content path : Text) (addresses : Map Text BackendAddress)
    → validate_and_modify parse render content path addresses
      ≡ and_modify
          (validate_backends parse render content path addresses)
          (modify_backends parse render content path addresses)
unfolding validate_and_modify validate_backends modify_backends
validate_and_modify-and_modify parse render content path addresses =
    elim (Option-cases (parse content path)) [
      | inl e ↦ rw (e, validate_and_modify, validate_backends, modify_backends) refl
      | inr (ds, e) ↦
          rw (e, validate_and_modify, validate_backends, modify_backends)
            (ap (finish_pass render addresses ds) (validated ds addresses)
              ∙ finish_pass-and_modify render addresses ds
                  (validate_names (collect_backends ds []) addresses).warnings
                  (validate_names (collect_backends ds []) addresses).errors)
    ]
