-- ===== src/Vclmod/Names.antt =====
-- What the validation of the backends' names reports, and how the three operations go together.
use vcltest.Base.{
  Bool, true, false, ◌≡◌, ◌≢◌, refl, ap, sym, ◌∙◌, ◌↔◌, ◌⊎◌, inl, inr, some, List, [], ◌∷◌, eq_iff,
  if◌then◌else◌, arith, In, Distinct, Bool-cases, subst,
}
use vcltest.Base.Map.{
  Map, keys, lookup, insert, is_some, lookup-insert, In-keys-insert, keys-insert-Distinct,
}
use vcltest.Base.Text.{Text, text_eq}
use vcltest.Vclmod.{
  Declaration, backend, include, other, collect_backends, check_names, unused, Missing,
}

-- The names of the declared backends.
abbrev pub declared : List Declaration → List Text
declared [] = []
declared (backend d ∷ ds) = d.name ∷ declared ds
declared (include path ∷ ds) = declared ds
declared (other source ∷ ds) = declared ds

pub collect_backends-In :
    (ds : List Declaration) (found : Map Text Bool) (name : Text)
    → In name (keys (collect_backends ds found)) ↔ (In name (declared ds) ⊎ In name (keys found))
unfolding collect_backends
collect_backends-In [] found name = ground arith
collect_backends-In (backend d ∷ ds) found name =
    let ih = collect_backends-In ds (insert d.name false found) name in
    let ins = In-keys-insert d.name false found name in
    (
      λ h. elim (ih.0 h) [
        | inl k ↦ inl (inr k)
        | inr k ↦ elim (ins.0 k) [ inl e ↦ inl (inl (sym e)) | inr x ↦ inr x ]
      ],
      λ h. ih.1 (elim h [
        | inl (inl e) ↦ inr (ins.1 (inl (sym e)))
        | inl (inr k) ↦ inl k
        | inr k ↦ inr (ins.1 (inr k))
      ]),
    )
collect_backends-In (include path ∷ ds) found name = collect_backends-In ds found name
collect_backends-In (other source ∷ ds) found name = collect_backends-In ds found name

-- Nothing is marked yet.
pub collect_backends-unmarked :
    (ds : List Declaration) (found : Map Text Bool) (name : Text)
    → lookup name found ≢ some true
    → lookup name (collect_backends ds found) ≢ some true
unfolding collect_backends
collect_backends-unmarked [] found name h = h
collect_backends-unmarked (backend d ∷ ds) found name h =
    collect_backends-unmarked ds (insert d.name false found) name
      (ground (arith, lookup-insert d.name name false found))
collect_backends-unmarked (include path ∷ ds) found name h =
    collect_backends-unmarked ds found name h
collect_backends-unmarked (other source ∷ ds) found name h =
    collect_backends-unmarked ds found name h

abbrev pub missing_names : List Missing → List Text
missing_names [] = []
missing_names (m ∷ ms) = m.name ∷ missing_names ms

-- The names of the test that the VCL does not have, in their order.
abbrev pub unknown : Map Text Bool → List Text → List Text
unknown found [] = []
unknown found (name ∷ names) =
    let rest = unknown found names in if is_some (lookup name found) then rest else name ∷ rest

is_some-lookup-insert :
    (found : Map Text Bool) (key : Text) (b : Bool) (name : Text)
    → is_some (lookup key found) ≡ true
    → is_some (lookup name (insert key b found)) ≡ is_some (lookup name found)
is_some-lookup-insert found key b name h =
    ground (arith, eq_iff key name, lookup-insert key name b found)

unknown-insert :
    (found : Map Text Bool) (key : Text) (b : Bool) (names : List Text)
    → is_some (lookup key found) ≡ true
    → unknown (insert key b found) names ≡ unknown found names
unknown-insert found key b [] h = refl
unknown-insert found key b (name ∷ names) h =
    rw (is_some-lookup-insert found key b name h, unknown-insert found key b names h) refl

pub check_names-errors :
    (available names : List Text) (found : Map Text Bool)
    → missing_names (check_names available names found).0 ≡ unknown found names
unfolding check_names
check_names-errors available [] found = refl
check_names-errors available (name ∷ names) found =
    elim (Bool-cases (is_some (lookup name found))) [
      | inl e ↦ rw e (
          check_names-errors available names (insert name true found)
          ∙ unknown-insert found name true names e)
      | inr e ↦ rw e (ap (λ ns. name ∷ ns) (check_names-errors available names found))
    ]

-- What the loop marks: the names of the test that the VCL has.
pub check_names-marked :
    (available names : List Text) (found : Map Text Bool) (name : Text)
    → (lookup name (check_names available names found).1 ≡ some false)
      ↔ ((lookup name found ≡ some false) × (¬ In name names))
unfolding check_names
check_names-marked available [] found name = ground arith
check_names-marked available (key ∷ names) found name =
    elim (Bool-cases (is_some (lookup key found))) [
      | inl e ↦ rw e (
          ground (
            arith,
            eq_iff key name,
            lookup-insert key name true found,
            check_names-marked available names (insert key true found) name,
          ))
      | inr e ↦
          rw e (ground (arith, eq_iff key name, check_names-marked available names found name))
    ]

pub check_names-Distinct :
    (available names : List Text) (found : Map Text Bool)
    → Distinct (keys found)
    → Distinct (keys (check_names available names found).1)
unfolding check_names
check_names-Distinct available [] found d = d
check_names-Distinct available (key ∷ names) found d =
    elim (Bool-cases (is_some (lookup key found))) [
      | inl e ↦ rw e (
          check_names-Distinct available names (insert key true found)
            (keys-insert-Distinct key true found d))
      | inr e ↦ rw e (check_names-Distinct available names found d)
    ]

pub collect_backends-Distinct :
    (ds : List Declaration) (found : Map Text Bool)
    → Distinct (keys found)
    → Distinct (keys (collect_backends ds found))
unfolding collect_backends
collect_backends-Distinct [] found d = d
collect_backends-Distinct (backend x ∷ ds) found d =
    collect_backends-Distinct ds (insert x.name false found)
      (keys-insert-Distinct x.name false found d)
collect_backends-Distinct (include path ∷ ds) found d = collect_backends-Distinct ds found d
collect_backends-Distinct (other source ∷ ds) found d = collect_backends-Distinct ds found d

unused-In : (m : Map Text Bool) (name : Text) → In name (unused m) → In name (keys m)
unused-In [] name h = h
unused-In ((key, used) ∷ m) name h = ground (arith, unused-In m name)

pub unused_iff :
    (m : Map Text Bool) (name : Text)
    → Distinct (keys m)
    → In name (unused m) ↔ (lookup name m ≡ some false)
unfolding lookup
unused_iff [] name d = (λ h. absurd h, λ h. cc)
unused_iff ((key, used) ∷ m) name (n, d) = ground (
  arith,
  eq_iff key name,
  unused_iff m name d,
  unused-In m name,
  λ (h : In name (keys m)) (e : key ≡ name). n (subst (λ k. In k (keys m)) (sym e) h),
)
