-- ===== src/Assertion/Verdict.antt =====
-- When `Check` passes, against a description of the expectations that keeps no list of errors.
use vcltest.Base.{
  true, ◌≡◌, refl, ◌↔◌, inl, inr, Option, none, some, List, [], ◌∷◌, eq_iff, All, arith, subst,
  Option-cases,
}
use vcltest.Base.Int.{ℤ}
use vcltest.Base.Map.{Map, lookup}
use vcltest.Base.Text.{Text, text_eq, codes, atoi}
use vcltest.Base.Http.{get_header}
use vcltest.Testspec.{BackendExpectations, CacheExpectations, ExpectationsSpec}
use vcltest.Assertion.{
  Response, Result, check_response_expectations, check_hit, check_age, check_age_gt,
  check_cache_expectations, jar_map, check_cookies, check_cookie_expectations, check_backend_if,
  check_cache_if, check, check_cookie,
}
use vcltest.Assertion.Meets.{
  MeetsResponse, MeetsBackend, MeetsHit, Above, Below, MeetsAge, MeetsCookies,
}
use vcltest.Assertion.Parts.{
  Passes, check_response-Passes, check_backend-Passes, check_hit-Passes, check_age_gt-Passes,
  check_age_lt-Passes,
}

atoi-nil : atoi [] ≡ none
unfolding atoi
atoi-nil = refl

check_age-Passes :
    (exp : CacheExpectations) (age : Text) (r : Result)
    → Passes (check_age exp age r)
      ↔ (Passes r × ((n : ℤ) × (atoi age ≡ some n) × Above exp.age_gt n × Below exp.age_lt n))
check_age-Passes exp [] r = (λ h. cc, λ (_, (n, e, _, _)). absurd (cc (atoi-nil, e)))
check_age-Passes exp (c ∷ s) r = elim (Option-cases (atoi (c ∷ s))) [
  | inl e ↦ rw e (λ h. cc, λ (_, (n, q, _, _)). absurd cc)
  | inr (n, e) ↦
      let above = check_age_gt-Passes exp.age_gt n r in
      let below = check_age_lt-Passes exp.age_lt n (check_age_gt exp.age_gt n r) in
      rw e (
        λ h. ((above.0 (below.0 h).0).0, (n, refl, (above.0 (below.0 h).0).1, (below.0 h).1)),
        λ (p, (m, q, a, b)).
            let same : m ≡ n = cc in
            below.1 (
              above.1 (p, subst (λ k. Above exp.age_gt k) same a),
              subst (λ k. Below exp.age_lt k) same b,
            ),
      )
]

check_cache-Passes :
    (exp : CacheExpectations) (response : Response) (r : Result)
    → Passes (check_cache_expectations exp response r)
      ↔ (Passes r × (MeetsHit exp.hit response × MeetsAge exp response))
unfolding check_cache_expectations
check_cache-Passes exp response r =
    let age = get_header response.headers (codes "Age") in
    ground (
      arith,
      check_hit-Passes exp.hit response r,
      check_age-Passes exp age (check_hit exp.hit response r),
    )

check_cookies-Passes :
    (cs jar : Map Text Text) (r : Result)
    → Passes (check_cookies cs jar r) ↔ (Passes r × All (λ e. lookup e.0 jar ≡ some e.1) cs)
unfolding check_cookies
check_cookies-Passes [] jar r = ground arith
check_cookies-Passes ((name, expected) ∷ cs) jar r = elim (Option-cases (lookup name jar)) [
  | inl e ↦
      rw (e, check_cookies)
        (ground (arith, check_cookies-Passes cs jar (check_cookie name expected none r)))
  | inr (actual, e) ↦
      rw (e, check_cookies)
        (ground (
          arith,
          eq_iff actual expected,
          check_cookies-Passes cs jar (check_cookie name expected (some actual) r),
        ))
]

check_cookie_if-Passes :
    (cs : Map Text Text) (jar : Option (Text → List (Text × Text))) (url : Option Text) (r : Result)
    → Passes
        (elim cs as (λ _. Result) [ [] ↦ r | c ∷ rest ↦ check_cookie_expectations cs jar url r ])
      ↔ (Passes r × MeetsCookies cs jar url)
unfolding check_cookie_expectations
check_cookie_if-Passes [] jar url r = ground arith
check_cookie_if-Passes (c ∷ cs) none url r = ground arith
check_cookie_if-Passes (c ∷ cs) (some cookies) none r = ground arith
check_cookie_if-Passes (c ∷ cs) (some cookies) (some url) r =
    check_cookies-Passes (c ∷ cs) (jar_map (cookies url) []) r

abbrev pub MeetsBackendIf : Option BackendExpectations → Map Text ℤ → Type 0
MeetsBackendIf none calls = Unit
MeetsBackendIf (some exp) calls = MeetsBackend exp calls

abbrev pub MeetsCacheIf : Option CacheExpectations → Response → Type 0
MeetsCacheIf none response = Unit
MeetsCacheIf (some exp) response = MeetsHit exp.hit response × MeetsAge exp response

check_backend_if-Passes :
    (o : Option BackendExpectations) (calls : Map Text ℤ) (r : Result)
    → Passes (check_backend_if o calls r) ↔ (Passes r × MeetsBackendIf o calls)
unfolding check_backend_if
check_backend_if-Passes none calls r = ground arith
check_backend_if-Passes (some exp) calls r = check_backend-Passes exp calls r

check_cache_if-Passes :
    (o : Option CacheExpectations) (response : Response) (r : Result)
    → Passes (check_cache_if o response r) ↔ (Passes r × MeetsCacheIf o response)
unfolding check_cache_if
check_cache_if-Passes none response r = ground arith
check_cache_if-Passes (some exp) response r = check_cache-Passes exp response r

-- The check passes exactly if the response meets the expectations of the response itself, of the
-- backends called, of the cache and of the cookies, where each of the last three counts only if the
-- test states it.
pub check-passed_iff :
    (exp : ExpectationsSpec) (response : Response) (calls : Map Text ℤ)
    (jar : Option (Text → List (Text × Text))) (url : Option Text)
    → ((check exp response calls jar url).passed ≡ true) ↔ (
        MeetsResponse exp.response response
        × MeetsBackendIf exp.backend calls
        × MeetsCacheIf exp.cache response
        × MeetsCookies exp.cookies jar url)
unfolding check
check-passed_iff exp response calls jar url =
    let r1 =
      check_response_expectations exp.response response (record { passed = true; errors = [] }) in
    let r2 = check_backend_if exp.backend calls r1 in
    let r3 = check_cache_if exp.cache response r2 in
    let p1 = check_response-Passes exp.response response (record { passed = true; errors = [] }) in
    let p2 = check_backend_if-Passes exp.backend calls r1 in
    let p3 = check_cache_if-Passes exp.cache response r2 in
    let p4 = check_cookie_if-Passes exp.cookies jar url r3 in
    (
      λ h.
          let (k3, cookies) = p4.0 h in
          let (k2, cache) = p3.0 k3 in
          let (k1, backend) = p2.0 k2 in ((p1.0 k1).1, backend, cache, cookies),
      λ (response', backend, cache, cookies).
          p4.1 (p3.1 (p2.1 (p1.1 (refl, response'), backend), cache), cookies),
    )
