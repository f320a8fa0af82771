-- ===== src/Vclmod/Validation.antt =====
-- The validation of the backends' names against the two lists of names, and how the operations of
-- pkg/vclmod/modifier.go go together.
use vcltest.Base.{
  Bool, true, false, not, ◌≡◌, ◌≢◌, refl, ◌∙◌, ◌↔◌, ◌⊎◌, inl, inr, some, List, [], ◌∷◌, arith, In,
  filter, contains, contains_iff, Option-cases,
}
use vcltest.Base.Map.{Map, keys, lookup, is_some, is_some-lookup_iff}
use vcltest.Base.Text.{Text, text_eq, to_lower}
use vcltest.Harness.{BackendAddress}
use vcltest.Vclmod.{
  Declaration, collect_backends, check_names, validate_names, exact_match, substring_match,
  find_closest_match,
}
use vcltest.Vclmod.Names.{
  declared, missing_names, unknown, collect_backends-In, collect_backends-unmarked,
  check_names-errors, check_names-marked, check_names-Distinct, collect_backends-Distinct,
  unused_iff,
}

module _ (ds : List Declaration) where
  abbrev found : Map Text Bool
  found = collect_backends ds []

  In-found : (name : Text) → In name (keys found) ↔ In name (declared ds)
  In-found name =
      let c = collect_backends-In ds [] name in
      (λ h. elim (c.0 h) [ inl k ↦ k | inr k ↦ absurd k ], λ h. c.1 (inl h))

  nothing_marked : (name : Text) → lookup name found ≢ some true
  nothing_marked name = collect_backends-unmarked ds [] name (unfold lookup in λ e. cc)

  lookup-found : (name : Text) → (lookup name found ≡ some false) ↔ In name (declared ds)
  lookup-found name =
      ground (arith, In-found name, nothing_marked name, is_some-lookup_iff name found)

  is_some-found : (name : Text) → is_some (lookup name found) ≡ contains (declared ds) name
  is_some-found name =
      ground (arith, In-found name, is_some-lookup_iff name found, contains_iff (declared ds) name)

  unknown-filter :
      (names : List Text) → unknown found names ≡ filter (λ n. not (contains (declared ds) n)) names
  unknown-filter [] = refl
  unknown-filter (name ∷ names) = ground (arith, is_some-found name, unknown-filter names)

-- The errors name exactly the backends of the test that the VCL does not declare, in their order; the
-- warnings name exactly the backends that the VCL declares and the test does not use.
pub validate_names_correct :
    (ds : List Declaration) (addresses : Map Text BackendAddress)
    → let result = validate_names (collect_backends ds []) addresses in
      (missing_names result.errors ≡ filter (λ n. not (contains (declared ds) n)) (keys addresses))
      × ((name : Text)
          → In name result.warnings ↔ (In name (declared ds) × (¬ In name (keys addresses))))
unfolding validate_names
validate_names_correct ds addresses =
    let fs = collect_backends ds [] in
    (
      check_names-errors (keys fs) (keys addresses) fs ∙ unknown-filter ds (keys addresses),
      λ name. ground (
        arith,
        lookup-found ds name,
        check_names-marked (keys fs) (keys addresses) fs name,
        unused_iff (check_names (keys fs) (keys addresses) fs).1 name (
            check_names-Distinct (keys fs) (keys addresses) fs
              (collect_backends-Distinct ds [] tt)),
      ),
    )

exact_match-In : (target c : Text) (cs : List Text) → exact_match target cs ≡ some c → In c cs
unfolding exact_match
exact_match-In target c [] e = cc
exact_match-In target c (x ∷ xs) e = ground (arith, exact_match-In target c xs)

substring_match-In :
    (target c : Text) (cs : List Text) → substring_match target cs ≡ some c → In c cs
unfolding substring_match
substring_match-In target c [] e = cc
substring_match-In target c (x ∷ xs) e = ground (arith, substring_match-In target c xs)

-- A suggestion is one of the names that the VCL has, or there is none.
pub find_closest_match-In :
    (target : Text) (candidates : List Text)
    → (find_closest_match target candidates ≡ [])
      ⊎ In (find_closest_match target candidates) candidates
unfolding find_closest_match
find_closest_match-In target candidates =
    elim (Option-cases (exact_match (to_lower target) candidates)) [
      | inr (c, e) ↦
          rw (e, find_closest_match) (inr (exact_match-In (to_lower target) c candidates e))
      | inl e ↦ elim (Option-cases (substring_match (to_lower target) candidates)) [
        | inr (c, q) ↦
            rw (e, q, find_closest_match)
              (inr (substring_match-In (to_lower target) c candidates q))
        | inl q ↦ rw (e, q, find_closest_match) (inl refl)
      ]
    ]
