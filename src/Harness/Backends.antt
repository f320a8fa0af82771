-- ===== src/Harness/Backends.antt =====
-- Which specification each mock backend gets.
use vcltest.Base.{
  Bool, true, false, ◌≡◌, ◌≢◌, refl, ap, sym, ◌∙◌, inl, inr, List, [], ◌∷◌, Option, none, some,
  Distinct, ◌==◌, eq_iff, if◌then◌else◌, arith, Option-cases,
}
use vcltest.Base.Map.{Map, lookup, insert, keys, is_some, lookup-insert, lookup-cons, lookup-none}
use vcltest.Base.Text.{Text, text_eq}
use vcltest.Testspec.{BackendSpec, TestSpec}
use vcltest.Backend.{MockBackend, update_config}
use vcltest.Harness.{config_of, collect_specs, collect_tests, configure_backends}

-- The first of two answers.
abbrev pub first : {A : Type 0} → Option A → Option A → Option A
first none b = b
first (some a) b = some a

-- The specification in the first test that names the backend.
abbrev pub first_spec : Text → List TestSpec → Option BackendSpec
first_spec name [] = none
first_spec name (t ∷ ts) = first (lookup name t.backends) (first_spec name ts)

first_assoc : {A : Type 0} (a b c : Option A) → first (first a b) c ≡ first a (first b c)
first_assoc none b c = refl
first_assoc (some a) b c = refl

first-if :
    (b : Bool) (a c : Option BackendSpec)
    → a ≢ none
    → first (if b then a else none) c ≡ (if b then a else c)
first-if true none c h = absurd (h refl)
first-if true (some a) c h = refl
first-if false a c h = refl

first-none : {A : Type 0} (a : Option A) → first a none ≡ a
first-none none = refl
first-none (some a) = refl

lookup-add_spec :
    (name key : Text) (spec : BackendSpec) (found : Map Text BackendSpec)
    → lookup key (if is_some (lookup name found) then found else insert name spec found)
      ≡ first (lookup key found) (if name == key then some spec else none)
lookup-add_spec name key spec found =
    ground (arith, eq_iff name key, lookup-insert name key spec found)

collect_specs-lookup :
    (m found : Map Text BackendSpec) (key : Text)
    → lookup key (collect_specs m found) ≡ first (lookup key found) (lookup key m)
unfolding collect_specs
collect_specs-lookup [] found key = sym (first-none (lookup key found))
collect_specs-lookup ((name, spec) ∷ m) found key =
    collect_specs-lookup m (if is_some (lookup name found) then found else insert name spec found)
      key
    ∙ ap (λ o. first o (lookup key m)) (lookup-add_spec name key spec found)
    ∙ first_assoc (lookup key found) (if name == key then some spec else none) (lookup key m)
    ∙ ap (first (lookup key found)) (
        first-if (name == key) (some spec) (lookup key m) (λ x. cc)
        ∙ sym (lookup-cons key name spec m))

collect_tests-lookup :
    (tests : List TestSpec) (found : Map Text BackendSpec) (name : Text)
    → lookup name (collect_tests tests found) ≡ first (lookup name found) (first_spec name tests)
unfolding collect_tests
collect_tests-lookup [] found name = sym (first-none (lookup name found))
collect_tests-lookup (t ∷ ts) found name =
    collect_tests-lookup ts (collect_specs t.backends found) name
    ∙ ap (λ o. first o (first_spec name ts)) (collect_specs-lookup t.backends found name)
    ∙ first_assoc (lookup name found) (lookup name t.backends) (first_spec name ts)

-- What is collected for a name is the specification in the first test that names it.
pub collect_tests-first_spec :
    (tests : List TestSpec) (name : Text)
    → lookup name (collect_tests tests []) ≡ first_spec name tests
unfolding lookup
collect_tests-first_spec tests name = collect_tests-lookup tests [] name

abbrev pub configured : Option BackendSpec → Option MockBackend → Option MockBackend
configured spec none = none
configured none (some mock) = some mock
configured (some spec) (some mock) = some (update_config (config_of spec) mock)

configured-none : (o : Option MockBackend) → configured none o ≡ o
configured-none none = refl
configured-none (some m) = refl

-- Configuring the backends for a test gives each backend that the test names its new configuration,
-- starts none and leaves every other one as it was.
pub configure_backends-lookup :
    (specs : Map Text BackendSpec) (mocks : Map Text MockBackend) (name : Text)
    → Distinct (keys specs)
    → lookup name (configure_backends specs mocks)
      ≡ configured (lookup name specs) (lookup name mocks)
unfolding configure_backends
configure_backends-lookup [] mocks name d = sym (configured-none (lookup name mocks))
configure_backends-lookup ((key, spec) ∷ specs) mocks name (n, d) =
    elim (Option-cases (lookup key mocks)) [
      | inl e ↦
          rw (e, configure_backends)
            (ground (
              arith,
              eq_iff key name,
              lookup-none key specs n,
              configure_backends-lookup specs mocks name d,
            ))
      | inr (mock, e) ↦
          let mocks' = insert key (update_config (config_of spec) mock) mocks in
          rw (e, configure_backends)
            (ground (
              arith,
              eq_iff key name,
              lookup-none key specs n,
              lookup-insert key name (update_config (config_of spec) mock) mocks,
              configure_backends-lookup specs mocks' name d,
            ))
    ]
