-- ===== src/Assertion/Parts.antt =====
-- When each part of the check keeps a passing result passing.
use vcltest.Base.{
  Bool, true, false, not, ◌≡◌, ◌≢◌, refl, ◌↔◌, ◌⊎◌, inl, inr, Option, none, some, [], ◌∷◌, ◌==◌,
  eq_iff, length, nat_beq_iff, if◌then◌else◌, arith, subst, Bool-cases,
}
use vcltest.Base.Int.{ℤ, int_eq, pos, ◌<ℤ◌, ltb_ℤ_iff}
use vcltest.Base.Map.{Map, lookup, get_or}
use vcltest.Base.Text.{Text, text_eq, codes, is_empty, atoi, fields}
use vcltest.Base.Http.{get_header}
use vcltest.Testspec.{ResponseExpectations, BackendExpectations}
use vcltest.Assertion.{
  Response, Result, Failure, fail_if, check_headers, check_response_expectations, uncalled,
  check_called, check_total, total_calls, check_per_backend, check_backend_expectations,
  check_if_cached, check_hit, check_age_gt, check_age_lt, positive_age, header_differs,
  calls_differ, status_differs,
}
use vcltest.Assertion.Meets.{
  HasHeaders, MeetsResponse, WasCalled, HasCounts, MeetsBackend, IsCached, MeetsHit, Above, Below,
}

is_empty_iff : (s : Text) → (is_empty s ≡ true) ↔ (s ≡ [])
is_empty_iff [] = (λ _. refl, λ _. refl)
is_empty_iff (c ∷ s) = (λ h. cc, λ h. cc)

abbrev pub Passes : Result → Type 0
Passes r = r.passed ≡ true

fail_if-Passes :
    (b : Bool) (e : Failure) (r : Result) → Passes (fail_if b e r) ↔ (Passes r × (b ≡ false))
fail_if-Passes b e r = ground arith

check_headers-Passes :
    (hs : Map Text Text) (response : Response) (r : Result)
    → Passes (check_headers hs response r) ↔ (Passes r × HasHeaders hs response)
unfolding check_headers
check_headers-Passes [] response r = ground arith
check_headers-Passes ((key, expected) ∷ hs) response r =
    let actual = get_header response.headers key in
    let next = fail_if (not (actual == expected)) (header_differs key expected actual) r in
    ground (
      arith,
      check_headers-Passes hs response next,
      eq_iff actual expected,
      fail_if-Passes (not (actual == expected)) (header_differs key expected actual) r,
    )

pub check_response-Passes :
    (exp : ResponseExpectations) (response : Response) (r : Result)
    → Passes (check_response_expectations exp response r) ↔ (Passes r × MeetsResponse exp response)
unfolding check_response_expectations
check_response-Passes exp response r =
    let after_status =
      fail_if (not (response.status == exp.status)) (status_differs exp.status response.status) r in
    ground (
      arith,
      check_headers-Passes exp.headers response after_status,
      eq_iff response.status exp.status,
      is_empty_iff exp.body_contains,
    )

uncalled-cases : (o : Option ℤ) → (uncalled o ≡ false) ↔ ((n : ℤ) × (o ≡ some n) × (n ≢ pos 0))
uncalled-cases none = (λ h. cc, λ (n, e, _). cc)
uncalled-cases (some n) = (
  λ h. (n, refl, λ z. cc ((eq_iff n (pos 0)).1 z, h)),
  λ (m, e, z). elim (Bool-cases (n == pos 0)) [
    | inl q ↦ absurd (z (cc ((eq_iff n (pos 0)).0 q, e)))
    | inr q ↦ q
  ],
)

uncalled_iff :
    (name : Text) (calls : Map Text ℤ)
    → (uncalled (lookup name calls) ≡ false) ↔ WasCalled name calls
uncalled_iff name calls = uncalled-cases (lookup name calls)

check_per_backend-Passes :
    (es calls : Map Text ℤ) (r : Result)
    → Passes (check_per_backend es calls r) ↔ (Passes r × HasCounts es calls)
unfolding check_per_backend
check_per_backend-Passes [] calls r = ground arith
check_per_backend-Passes ((name, expected) ∷ es) calls r =
    let actual = get_or (pos 0) (lookup name calls) in
    ground (
      arith,
      eq_iff actual expected,
      check_per_backend-Passes es calls
          (fail_if (not (actual == expected)) (calls_differ name expected actual) r),
    )

check_total-Passes :
    (o : Option ℤ) (calls : Map Text ℤ) (r : Result)
    → Passes (check_total o calls r)
      ↔ (Passes r × ((o ≡ none) ⊎ (o ≡ some (total_calls calls (pos 0)))))
check_total-Passes none calls r = ground arith
check_total-Passes (some n) calls r = ground (arith, eq_iff (total_calls calls (pos 0)) n)

pub check_backend-Passes :
    (exp : BackendExpectations) (calls : Map Text ℤ) (r : Result)
    → Passes (check_backend_expectations exp calls r) ↔ (Passes r × MeetsBackend exp calls)
unfolding check_backend_expectations
check_backend-Passes exp calls r =
    let used = if not (is_empty exp.used) then check_called exp.used calls r else r in
    ground (
      arith,
      is_empty_iff exp.name,
      is_empty_iff exp.used,
      uncalled_iff exp.name calls,
      uncalled_iff exp.used calls,
      check_total-Passes exp.calls calls used,
      check_per_backend-Passes exp.per_backend calls (check_total exp.calls calls used),
    )

positive_age_iff :
    (o : Option ℤ) → (positive_age o ≡ true) ↔ ((n : ℤ) × (o ≡ some n) × (pos 0 <ℤ n))
positive_age_iff none = (λ h. cc, λ (n, e, _). cc)
positive_age_iff (some n) = (
  λ h. (n, refl, (ltb_ℤ_iff (pos 0) n).0 h),
  λ (m, e, z). let q : m ≡ n = cc in (ltb_ℤ_iff (pos 0) n).1 (subst (λ k. pos 0 <ℤ k) q z),
)

-- An empty header has no words and no number, so the code's tests for it add nothing.
fields-nil : (s : Text) → is_empty s ≡ true → length (fields s) ≢ 2
unfolding fields
fields-nil [] e h = omega arith
fields-nil (c ∷ s) e h = absurd cc

atoi-nil : (s : Text) → is_empty s ≡ true → atoi s ≡ none
unfolding atoi
atoi-nil [] e = refl
atoi-nil (c ∷ s) e = absurd cc

check_if_cached_iff : (response : Response) → (check_if_cached response ≡ true) ↔ IsCached response
unfolding check_if_cached
check_if_cached_iff response =
    let xv = get_header response.headers (codes "X-Varnish") in
    let age = get_header response.headers (codes "Age") in
    ground (
      arith,
      positive_age_iff (atoi age),
      fields-nil xv,
      atoi-nil age,
      nat_beq_iff (length (fields xv)) 2,
    )

pub check_hit-Passes :
    (hit : Option Bool) (response : Response) (r : Result)
    → Passes (check_hit hit response r) ↔ (Passes r × MeetsHit hit response)
check_hit-Passes none response r = ground arith
check_hit-Passes (some true) response r = ground (arith, check_if_cached_iff response)
check_hit-Passes (some false) response r = ground (arith, check_if_cached_iff response)

pub check_age_gt-Passes :
    (o : Option ℤ) (age : ℤ) (r : Result) → Passes (check_age_gt o age r) ↔ (Passes r × Above o age)
check_age_gt-Passes none age r = ground arith
check_age_gt-Passes (some n) age r = ground arith

pub check_age_lt-Passes :
    (o : Option ℤ) (age : ℤ) (r : Result) → Passes (check_age_lt o age r) ↔ (Passes r × Below o age)
check_age_lt-Passes none age r = ground arith
check_age_lt-Passes (some n) age r = ground arith
