-- ===== src/Vclmod.antt =====
-- pkg/vclmod/modifier.go: the addresses of the mock backends put into the parsed VCL, and the check of
-- the backends' names. The VCL parser and its renderer are vendored and parameters.
pub mod Includes
pub mod OnePass
pub mod Agreement
pub mod Properties
pub mod Names
pub mod Validation
pub mod Growth
pub mod Walk
mod Samples
use vcltest.Base.{
  Bool, true, false, not, ◌&&◌, ◌||◌, Option, none, some, List, [], ◌∷◌, ◌++◌, ℕ, ◌==◌, any, map,
  if◌then◌else◌,
}
use vcltest.Base.Map.{Map, keys, lookup, insert, is_some}
use vcltest.Base.Text.{Text, text_eq, codes, is_empty, contains_text, to_lower}
use vcltest.Harness.{BackendAddress}

-- A property's value: a string literal, or any other expression.
pub data Value : Type 0 where
  string_literal : Text → Value
  expression : Text → Value

pub record BackendProperty : Type 0 where
  pub name : Text
  pub value : Value

pub record BackendDecl : Type 0 where
  pub name : Text
  pub properties : List BackendProperty

-- The declarations that the code tells apart.
pub data Declaration : Type 0 where
  backend : BackendDecl → Declaration
  include : Text → Declaration
  other : Text → Declaration

-- The `switch` in the loop over the properties.
abbrev pub set_property : BackendAddress → BackendProperty → BackendProperty
set_property a p =
    if p.name == codes "host"
    then record p { value = string_literal a.host }
    else if p.name == codes "port"
    then record p { value = string_literal a.port }
    else p

-- `hostFound` and `portFound`
abbrev pub has_property : Text → List BackendProperty → Bool
has_property name ps = any (λ (p : BackendProperty). p.name == name) ps

abbrev pub add_missing : Text → Text → Bool → List BackendProperty → List BackendProperty
add_missing name value found ps =
    if found then ps else ps ++ (record { name = name; value = string_literal value }) ∷ []

-- The properties of a backend that gets an address.
unfoldable pub with_address : BackendAddress → List BackendProperty → List BackendProperty
with_address a ps =
    add_missing (codes "port") a.port (has_property (codes "port") ps)
      (add_missing (codes "host") a.host (has_property (codes "host") ps) (map (set_property a) ps))

unfoldable pub modify_declaration : Map Text BackendAddress → Declaration → Declaration
unfolding lookup with_address
modify_declaration addresses (backend d) = elim (lookup d.name addresses) [
  | none ↦ backend d
  | some a ↦ backend (record d { properties = with_address a d.properties })
]
modify_declaration addresses (include path) = include path
modify_declaration addresses (other source) = other source

-- The loop over the declarations in `ModifyBackends`, and in `modifyBackendsInAST`, which is the same
-- code.
unfoldable pub modify_declarations : Map Text BackendAddress → List Declaration → List Declaration
unfolding modify_declaration
modify_declarations addresses ds = map (modify_declaration addresses) ds

-- The names of the backends that are declared, none of them used yet.
unfoldable pub collect_backends : List Declaration → Map Text Bool → Map Text Bool
unfolding insert
collect_backends [] found = found
collect_backends (backend d ∷ ds) found = collect_backends ds (insert d.name false found)
collect_backends (include path ∷ ds) found = collect_backends ds found
collect_backends (other source ∷ ds) found = collect_backends ds found

-- The two loops of `findClosestMatch`.
unfoldable pub exact_match : Text → List Text → Option Text
unfolding to_lower
exact_match target [] = none
exact_match target (c ∷ cs) =
    let rest = exact_match target cs in if to_lower c == target then some c else rest

unfoldable pub substring_match : Text → List Text → Option Text
unfolding to_lower contains_text
substring_match target [] = none
substring_match target (c ∷ cs) =
    let rest = substring_match target cs in
    if contains_text (to_lower c) target || contains_text target (to_lower c) then some c else rest

-- `findClosestMatch`
unfoldable pub find_closest_match : Text → List Text → Text
unfolding to_lower exact_match substring_match
find_closest_match target candidates = elim (exact_match (to_lower target) candidates) [
  | some c ↦ c
  | none ↦ elim (substring_match (to_lower target) candidates) [ some c ↦ c | none ↦ [] ]
]

-- The message on a backend that is not in the VCL: its name, the names that are, a suggestion.
pub record Missing : Type 0 where
  pub name : Text
  pub available : List Text
  pub suggestion : Text

pub record ValidationResult : Type 0 where
  pub warnings : List Text
  pub errors : List Missing

-- The loop over the backends of the test: the errors, and the names with those used marked.
unfoldable pub check_names : List Text → List Text → Map Text Bool → List Missing × Map Text Bool
unfolding lookup insert find_closest_match
check_names available [] found = ([], found)
check_names available (name ∷ names) found =
    if is_some (lookup name found)
    then check_names available names (insert name true found)
    else (let (errors, marked) = check_names available names found in
        (
          record {
            name = name;
            available = available;
            suggestion = find_closest_match name available;
          }
              ∷ errors,
          marked,
        ))

-- The loop that warns of the names that are not used.
abbrev pub unused : Map Text Bool → List Text
unused [] = []
unused ((name, used) ∷ m) = let rest = unused m in if used then rest else name ∷ rest

-- The validation of the names, once they are collected.
unfoldable pub validate_names : Map Text Bool → Map Text BackendAddress → ValidationResult
unfolding check_names
validate_names found addresses =
    let (errors, marked) = check_names (keys found) (keys addresses) found in
    record { warnings = unused marked; errors = errors }

abbrev pub has_errors : ValidationResult → Bool
has_errors r = elim r.errors [ [] ↦ false | e ∷ es ↦ true ]

-- What can go wrong: the parser, or the names.
pub data ModifyError : Type 0 where
  parsing : ModifyError
  validation : ValidationResult → ModifyError

pub data Modified (A : Type 0) : Type 0 where
  ok : A → Modified A
  err : ModifyError → Modified A

module _ (parse : Text → Text → Option (List Declaration)) (render : List Declaration → Text) where
  -- `ModifyBackends`
  unfoldable pub modify_backends : Text → Text → Map Text BackendAddress → Modified Text
  unfolding modify_declarations
  modify_backends content path addresses = elim (parse content path) [
    | none ↦ err parsing
    | some ds ↦ ok (render (modify_declarations addresses ds))
  ]

  -- `ValidateBackends`
  unfoldable pub validate_backends :
      Text → Text → Map Text BackendAddress → Modified ValidationResult
  unfolding collect_backends validate_names
  validate_backends content path addresses = elim (parse content path) [
    | none ↦ err parsing
    | some ds ↦
        let result = validate_names (collect_backends ds []) addresses in
        if has_errors result then err (validation result) else ok result
  ]
