-- ===== src/Harness/Starts.antt =====
-- What the mock backends of a test file start with.
use vcltest.Base.{
  true, false, ◌≡◌, refl, sym, ap, ◌∙◌, subst, inl, inr, List, [], ◌∷◌, Option, some, Distinct, In,
  ◌==◌, eq_iff, arith, Bool-cases, Option-cases,
}
use vcltest.Base.Map.{
  Map, keys, lookup, insert, is_some, lookup-insert, lookup-cons, keys-insert-Distinct,
}
use vcltest.Base.Text.{Text, text_eq}
use vcltest.Testspec.{BackendSpec, TestSpec}
use vcltest.Backend.{new, start}
use vcltest.Harness.{
  BackendAddress, Started, started, start_specs, config_of, parse_address, collect_specs,
  collect_tests, all_specs, start_all_backends,
}
use vcltest.Harness.Backends.{first_spec, collect_tests-first_spec}

module _ (listen : Text → Option Text) where
  -- The backend has a mock that is started at the address of its listener with the configuration of
  -- the specification, and this is the address that is handed on.
  pub record Serves (name : Text) (spec : BackendSpec) (all : Started) : Type 0 where
    pub listener : Text
    pub address : BackendAddress
    pub is_listener : listen name ≡ some listener
    pub is_address : parse_address listener ≡ some address
    pub mock : lookup name all.mocks ≡ some (start (some listener) (new (config_of spec))).1
    pub handed_on : lookup name all.addresses ≡ some address

  abbrev step : Text → Text → BackendAddress → BackendSpec → Started → Started
  step name listener a spec all = record {
    addresses = insert name a all.addresses;
    mocks = insert name (start (some listener) (new (config_of spec))).1 all.mocks;
  }

  -- A turn of the loop that leads to a result.
  start_specs-step :
      (name : Text) (spec : BackendSpec) (m : Map Text BackendSpec) (all all' : Started)
      → start_specs listen ((name, spec) ∷ m) all ≡ started all'
      → (l : Text) × (a : BackendAddress) × (listen name ≡ some l)
        × (parse_address l ≡ some a)
        × (start_specs listen m (step name l a spec all) ≡ started all')
  unfolding start_specs
  start_specs-step name spec m all all' e = elim (Option-cases (listen name)) [
    | inl q ↦ absurd (cc (rw (q, start_specs) at e))
    | inr (l, q) ↦ elim (Option-cases (parse_address l)) [
      | inl p ↦ absurd (cc (rw (q, p, start_specs) at e))
      | inr (a, p) ↦ (l, a, q, p, rw (q, p, start_specs) at e)
    ]
  ]

  lookup-insert_other :
      {V : Type 0} (key name : Text) (v : V) (m : Map Text V)
      → (key == name) ≡ false
      → lookup name (insert key v m) ≡ lookup name m
  lookup-insert_other key name v m e = rw (lookup-insert key name v m, e) refl

  lookup-insert_same :
      {V : Type 0} (key name : Text) (v : V) (m : Map Text V)
      → (key == name) ≡ true
      → lookup name (insert key v m) ≡ some v
  lookup-insert_same key name v m e = rw (lookup-insert key name v m, e) refl

  -- A backend that is not among the specifications keeps what it has.
  start_specs-kept :
      (m : Map Text BackendSpec) (all all' : Started) (name : Text)
      → start_specs listen m all ≡ started all'
      → ¬ In name (keys m)
      → (lookup name all'.mocks ≡ lookup name all.mocks)
        × (lookup name all'.addresses ≡ lookup name all.addresses)
  unfolding start_specs
  start_specs-kept [] all all' name e n =
      let q : all ≡ all' = cc e in
      (
        ap (λ (s : Started). lookup name s.mocks) (sym q),
        ap (λ (s : Started). lookup name s.addresses) (sym q),
      )
  start_specs-kept ((key, spec) ∷ m) all all' name e n =
      let (l, a, ql, pa, rest) = start_specs-step key spec m all all' e in
      let (h, k) = start_specs-kept m (step key l a spec all) all' name rest (λ x. n (inr x)) in
      let other : (key == name) ≡ false = ground (arith, eq_iff key name, n) in
      (
        h ∙ lookup-insert_other key name _ all.mocks other,
        k ∙ lookup-insert_other key name a all.addresses other,
      )

  start_specs-Serves :
      (m : Map Text BackendSpec) (all all' : Started) (name : Text) (spec : BackendSpec)
      → start_specs listen m all ≡ started all'
      → Distinct (keys m)
      → lookup name m ≡ some spec
      → Serves name spec all'
  start_specs-Serves [] all all' name spec e d q = absurd (unfold lookup in cc q)
  start_specs-Serves ((key, first) ∷ m) all all' name spec e (n, d) q =
      let (l, a, ql, pa, rest) = start_specs-step key first m all all' e in
      elim (Bool-cases (key == name)) [
        | inr other ↦
            start_specs-Serves m (step key l a first all) all' name spec rest d
              (rw (lookup-cons name key first m, other) at q)
        | inl same ↦
            let k : key ≡ name = (eq_iff key name).0 same in
            let s : first ≡ spec = cc (sym (lookup-cons name key first m) ∙ q, same) in
            let (h, g) =
              start_specs-kept m (step key l a first all) all' name rest
                (λ x. n (subst (λ y. In y (keys m)) (sym k) x)) in
            record {
              listener = l;
              address = a;
              is_listener = sym (ap listen k) ∙ ql;
              is_address = pa;
              mock =
                  h
                  ∙ lookup-insert_same key name _ all.mocks same
                  ∙ ap (λ (x : BackendSpec). some (start (some l) (new (config_of x))).1) s;
              handed_on = g ∙ lookup-insert_same key name a all.addresses same;
            }
      ]

collect_specs-Distinct :
    (m found : Map Text BackendSpec)
    → Distinct (keys found)
    → Distinct (keys (collect_specs m found))
unfolding collect_specs
collect_specs-Distinct [] found d = d
collect_specs-Distinct ((name, spec) ∷ m) found d =
    collect_specs-Distinct m _ (elim (Bool-cases (is_some (lookup name found))) [
      | inl y ↦ rw y d
      | inr n ↦ rw n (keys-insert-Distinct name spec found d)
    ])

collect_tests-Distinct :
    (tests : List TestSpec) (found : Map Text BackendSpec)
    → Distinct (keys found)
    → Distinct (keys (collect_tests tests found))
unfolding collect_tests
collect_tests-Distinct [] found d = d
collect_tests-Distinct (t ∷ ts) found d =
    collect_tests-Distinct ts (collect_specs t.backends found)
      (collect_specs-Distinct t.backends found d)

-- Where some test names a backend, the one that stands in is not used.
all_specs-named :
    (tests : List TestSpec) (name : Text) (spec : BackendSpec) (m : Map Text BackendSpec)
    → collect_tests tests [] ≡ m
    → lookup name m ≡ some spec
    → all_specs tests ≡ m
unfolding all_specs
all_specs-named tests name spec [] e q = absurd (unfold lookup in cc q)
all_specs-named tests name spec (s ∷ ss) e q = rw (e, all_specs) refl

all_specs-some :
    (tests : List TestSpec) (name : Text) (spec : BackendSpec)
    → lookup name (collect_tests tests []) ≡ some spec
    → all_specs tests ≡ collect_tests tests []
all_specs-some tests name spec q = all_specs-named tests name spec (collect_tests tests []) refl q

-- If the backends of a file start, each backend that a test names in its own list has a mock with the
-- configuration of the first test that names it, started at the address of its listener; this address
-- is handed on for it.
pub start_all_backends-Serves :
    (listen : Text → Option Text) (tests : List TestSpec) (all : Started) (name : Text)
    (spec : BackendSpec)
    → start_all_backends listen tests ≡ started all
    → first_spec name tests ≡ some spec
    → Serves listen name spec all
unfolding start_all_backends
start_all_backends-Serves listen tests all name spec e f =
    let q = collect_tests-first_spec tests name ∙ f in
    let same = all_specs-some tests name spec q in
    start_specs-Serves listen (all_specs tests) _ all name spec e
      (subst (λ m. Distinct (keys m)) (sym same) (collect_tests-Distinct tests [] tt))
      (ap (lookup name) same ∙ q)
