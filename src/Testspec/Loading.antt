-- ===== src/Testspec/Loading.antt =====
-- What a loaded test file satisfies.
use vcltest.Base.{
  true, false, ◌≡◌, ◌≢◌, refl, ◌∙◌, ◌↔◌, ◌⊎◌, inl, inr, Option, none, some, List, [], ◌∷◌, ℕ, suc,
  ◌+◌, eq_iff, All, arith, Bool-cases, if_true, if_false,
}
use vcltest.Base.Int.{ℤ, int_eq, pos}
use vcltest.Base.Map.{Map}
use vcltest.Base.Text.{Text, text_eq, codes, is_empty}
use vcltest.Testspec.{RequestSpec, BackendSpec, ScenarioStep, TestSpec}
use vcltest.Testspec.Loader.{
  apply_defaults, single_defaults, scenario_defaults, is_scenario, or_status, with_method,
  with_statuses, with_headers, all_step_defaults, validate, validate_step, validate_steps,
  validate_single, bad_backend, is_failure_mode,
}

-- A failure mode that the mock backend knows.
abbrev pub IsMode : Text → Type 0
IsMode m = (m ≡ []) ⊎ ((m ≡ codes "failed") ⊎ (m ≡ codes "frozen"))

abbrev pub HaveModes : Map Text BackendSpec → Type 0
HaveModes m = All (λ e. IsMode e.1.failure_mode) m

abbrev pub IsStep : ScenarioStep → Type 0
IsStep s =
    (s.at ≢ [])
    × (s.request.url ≢ [])
    × (s.expectations.response.status ≢ pos 0)
    × HaveModes s.backends

abbrev pub IsSingle : TestSpec → Type 0
IsSingle t =
    (t.scenario ≡ [])
    × (t.request.url ≢ [])
    × (t.expectations.response.status ≢ pos 0)
    × HaveModes t.backends

abbrev pub IsScenario : TestSpec → Type 0
IsScenario t = (t.scenario ≢ []) × (t.request.url ≡ []) × All IsStep t.scenario

-- A test has a name and is either a single request or a scenario, and not both.
abbrev pub IsTest : TestSpec → Type 0
IsTest t = (t.name ≢ []) × (IsSingle t ⊎ IsScenario t)

is_empty_iff : (s : Text) → (is_empty s ≡ true) ↔ (s ≡ [])
is_empty_iff [] = (λ _. refl, λ _. refl)
is_empty_iff (c ∷ s) = (λ h. cc, λ h. cc)

is_failure_mode_iff : (m : Text) → (is_failure_mode m ≡ true) ↔ IsMode m
is_failure_mode_iff m =
    ground (arith, is_empty_iff m, eq_iff m (codes "failed"), eq_iff m (codes "frozen"))

bad_backend_iff : (m : Map Text BackendSpec) → (bad_backend m ≡ none) ↔ HaveModes m
bad_backend_iff [] = (λ _. tt, λ _. refl)
bad_backend_iff ((name, spec) ∷ m) =
    ground (arith, bad_backend_iff m, is_failure_mode_iff spec.failure_mode)

validate_step_iff : (i : ℕ) (s : ScenarioStep) → (validate_step i s ≡ none) ↔ IsStep s
unfolding validate_step
validate_step_iff i s = ground (
  arith,
  is_empty_iff s.at,
  is_empty_iff s.request.url,
  eq_iff s.expectations.response.status (pos 0),
  bad_backend_iff s.backends,
)

validate_steps_iff : (i : ℕ) (ss : List ScenarioStep) → (validate_steps i ss ≡ none) ↔ All IsStep ss
unfolding validate_steps
validate_steps_iff i [] = (λ _. tt, λ _. refl)
validate_steps_iff i (s ∷ ss) = ground (arith, validate_step_iff i s, validate_steps_iff (i + 1) ss)

validate_single_iff :
    (t : TestSpec)
    → (validate_single t ≡ none) ↔ ((t.expectations.response.status ≢ pos 0) × HaveModes t.backends)
unfolding validate_single
validate_single_iff t =
    ground (arith, eq_iff t.expectations.response.status (pos 0), bad_backend_iff t.backends)

is_scenario_iff : (t : TestSpec) → (is_scenario t ≡ false) ↔ (t.scenario ≡ [])
is_scenario_iff t = ground arith

-- Validation accepts exactly the tests that have a name and are either a single request, with a URL, an
-- expected status and backends in known failure modes, or a scenario whose every step has these and a
-- time; the fields of the other kind are not both set.
pub validate_iff : (t : TestSpec) → (validate t ≡ none) ↔ IsTest t
unfolding validate
validate_iff t = ground (
  arith,
  is_empty_iff t.name,
  is_empty_iff t.request.url,
  is_scenario_iff t,
  eq_iff t.expectations.response.status (pos 0),
  bad_backend_iff t.backends,
  validate_steps_iff 1 t.scenario,
)

or_status-ne-zero : (n : ℕ) (s : ℤ) → or_status (pos (suc n)) s ≢ pos 0
or_status-ne-zero n s = ground (arith, eq_iff s (pos 0))

or_status_self :
    (n : ℕ) (s : ℤ)
    → or_status (pos (suc n)) (or_status (pos (suc n)) s) ≡ or_status (pos (suc n)) s
or_status_self n s = ground (arith, eq_iff s (pos 0))

with_method_self : (r : RequestSpec) → with_method (with_method r) ≡ with_method r
with_method_self r = ground (arith, is_empty_iff r.method)

with_headers_self : (h : Option (Map Text Text)) → with_headers (with_headers h) ≡ with_headers h
with_headers_self none = refl
with_headers_self (some h) = refl

with_statuses_self : (m : Map Text BackendSpec) → with_statuses (with_statuses m) ≡ with_statuses m
with_statuses_self [] = refl
with_statuses_self ((name, b) ∷ m) =
    rw (or_status_self 403 b.status, with_headers_self b.headers, with_statuses_self m) refl

all_step_defaults_self :
    (ss : List ScenarioStep) → all_step_defaults (all_step_defaults ss) ≡ all_step_defaults ss
all_step_defaults_self [] = refl
all_step_defaults_self (s ∷ ss) =
    rw
      (
        with_method_self s.request,
        with_statuses_self s.backends,
        or_status_self 199 s.expectations.response.status,
        all_step_defaults_self ss,
      )
      refl

is_scenario-scenario_defaults : (t : TestSpec) → is_scenario (scenario_defaults t) ≡ is_scenario t
is_scenario-scenario_defaults t = ground arith

single_defaults_self : (t : TestSpec) → single_defaults (single_defaults t) ≡ single_defaults t
single_defaults_self t =
    rw
      (
        with_method_self t.request,
        with_statuses_self t.backends,
        or_status_self 199 t.expectations.response.status,
      )
      refl

scenario_defaults_self :
    (t : TestSpec) → scenario_defaults (scenario_defaults t) ≡ scenario_defaults t
scenario_defaults_self t = rw (all_step_defaults_self t.scenario) refl

apply_defaults_cases :
    (t : TestSpec)
    → ((is_scenario t ≡ true) × (apply_defaults t ≡ scenario_defaults t))
      ⊎ ((is_scenario t ≡ false) × (apply_defaults t ≡ single_defaults t))
unfolding apply_defaults
apply_defaults_cases t = elim (Bool-cases (is_scenario t)) [
  | inl e ↦ inl (e, if_true _ _ _ e)
  | inr e ↦ inr (e, if_false _ _ _ e)
]

apply_defaults-true : (t : TestSpec) → is_scenario t ≡ true → apply_defaults t ≡ scenario_defaults t
unfolding apply_defaults
apply_defaults-true t e = if_true _ _ _ e

apply_defaults-false : (t : TestSpec) → is_scenario t ≡ false → apply_defaults t ≡ single_defaults t
unfolding apply_defaults
apply_defaults-false t e = if_false _ _ _ e

-- Applying the defaults again changes nothing.
pub apply_defaults-apply_defaults :
    (t : TestSpec) → apply_defaults (apply_defaults t) ≡ apply_defaults t
apply_defaults-apply_defaults t = elim (apply_defaults_cases t) [
  | inl (e, q) ↦ rw q (
      apply_defaults-true (scenario_defaults t) (is_scenario-scenario_defaults t ∙ e)
      ∙ scenario_defaults_self t)
  | inr (e, q) ↦ rw q (apply_defaults-false (single_defaults t) e ∙ single_defaults_self t)
]

with_statuses-HaveModes : (m : Map Text BackendSpec) → HaveModes m → HaveModes (with_statuses m)
with_statuses-HaveModes [] h = tt
with_statuses-HaveModes ((name, b) ∷ m) (i, h) = (i, with_statuses-HaveModes m h)

url-with_method : (r : RequestSpec) → (with_method r).url ≡ r.url
url-with_method r = ground arith

all_step_defaults-IsStep :
    (ss : List ScenarioStep) → All IsStep ss → All IsStep (all_step_defaults ss)
all_step_defaults-IsStep [] h = tt
all_step_defaults-IsStep (s ∷ ss) ((a, u, st, m), h) = (
  (
    a,
    rw (url-with_method s.request) u,
    or_status-ne-zero 199 s.expectations.response.status,
    with_statuses-HaveModes s.backends m,
  ),
  all_step_defaults-IsStep ss h,
)

all_step_defaults-ne-nil : (ss : List ScenarioStep) → ss ≢ [] → all_step_defaults ss ≢ []
all_step_defaults-ne-nil [] h = h
all_step_defaults-ne-nil (s ∷ ss) h = λ e. cc

pub apply_defaults-IsTest : (t : TestSpec) → IsTest t → IsTest (apply_defaults t)
apply_defaults-IsTest t (n, i) = elim (apply_defaults_cases t) [
  | inl (e, q) ↦ rw q (
    n,
    elim i [
      | inl (none_there, _, _, _) ↦ absurd (cc ((is_scenario_iff t).1 none_there, e))
      | inr (some_there, no_url, ss) ↦
          inr (all_step_defaults-ne-nil _ some_there, no_url, all_step_defaults-IsStep _ ss)
    ],
  )
  | inr (e, q) ↦ rw q (
    n,
    elim i [
      | inl (nothing, url, st, m) ↦ inl (
        nothing,
        rw (url-with_method t.request) url,
        or_status-ne-zero 199 t.expectations.response.status,
        with_statuses-HaveModes t.backends m,
      )
      | inr (some_there, _, _) ↦ absurd (some_there ((is_scenario_iff t).0 e))
    ],
  )
]
