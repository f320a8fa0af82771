-- ===== src/Assertion/Reports.antt =====
-- The errors that `Check` reports go with its verdict.
use vcltest.Base.{
  Bool, true, false, not, ◌≡◌, refl, sym, ◌↔◌, inl, inr, ◌||◌, Option, none, some, List, [], ◌∷◌,
  ◌++◌, ℕ, ◌≤◌, if◌then◌else◌, arith, Bool-cases, Option-cases, leb, length, take, length-take-le,
}
use vcltest.Base.Int.{ℤ, int_eq}
use vcltest.Base.Map.{Map, lookup}
use vcltest.Base.Text.{Text, text_eq, is_empty, atoi}
use vcltest.Testspec.{
  ResponseExpectations, BackendExpectations, CacheExpectations, ExpectationsSpec,
}
use vcltest.Assertion.{
  Response, Result, Failure, fail, fail_if, check_headers, check_response_expectations, check_total,
  check_per_backend, check_backend_expectations, check_hit, check_age, check_age_gt, check_age_lt,
  check_cache_expectations, jar_map, check_cookies, check_cookie_expectations, check_backend_if,
  check_cache_if, check, is_given, truncate_body, Preview, empty, whole, truncated,
}

abbrev pub is_nil : List Failure → Bool
is_nil [] = true
is_nil (e ∷ es) = false

-- The verdict says whether there are errors.
abbrev pub Agrees : Result → Type 0
Agrees r = r.passed ≡ is_nil r.errors

is_nil-append : (es : List Failure) (e : Failure) → is_nil (es ++ e ∷ []) ≡ false
is_nil-append [] e = refl
is_nil-append (x ∷ es) e = refl

fail-Agrees : (e : Failure) (r : Result) → Agrees (fail e r)
fail-Agrees e r = sym (is_nil-append r.errors e)

fail_if-Agrees : (b : Bool) (e : Failure) (r : Result) → Agrees r → Agrees (fail_if b e r)
fail_if-Agrees true e r h = fail-Agrees e r
fail_if-Agrees false e r h = h

check_headers-Agrees :
    (hs : Map Text Text) (response : Response) (r : Result)
    → Agrees r
    → Agrees (check_headers hs response r)
unfolding check_headers
check_headers-Agrees [] response r h = h
check_headers-Agrees ((key, expected) ∷ hs) response r h =
    check_headers-Agrees hs response _ (fail_if-Agrees _ _ r h)

check_response-Agrees :
    (exp : ResponseExpectations) (response : Response) (r : Result)
    → Agrees r
    → Agrees (check_response_expectations exp response r)
unfolding check_response_expectations
check_response-Agrees exp response r h =
    fail_if-Agrees _ _ _ (check_headers-Agrees exp.headers response _ (fail_if-Agrees _ _ r h))

check_per_backend-Agrees :
    (es calls : Map Text ℤ) (r : Result) → Agrees r → Agrees (check_per_backend es calls r)
unfolding check_per_backend
check_per_backend-Agrees [] calls r h = h
check_per_backend-Agrees ((name, expected) ∷ es) calls r h =
    check_per_backend-Agrees es calls _ (fail_if-Agrees _ _ r h)

check_total-Agrees :
    (o : Option ℤ) (calls : Map Text ℤ) (r : Result) → Agrees r → Agrees (check_total o calls r)
check_total-Agrees none calls r h = h
check_total-Agrees (some n) calls r h = fail_if-Agrees _ _ r h

if-Agrees : (b : Bool) (x y : Result) → Agrees x → Agrees y → Agrees (if b then x else y)
if-Agrees true x y h k = h
if-Agrees false x y h k = k

check_backend_if-Agrees :
    (o : Option BackendExpectations) (calls : Map Text ℤ) (r : Result)
    → Agrees r
    → Agrees (check_backend_if o calls r)
unfolding check_backend_if check_backend_expectations
check_backend_if-Agrees none calls r h = h
check_backend_if-Agrees (some exp) calls r h =
    if-Agrees (not (is_empty exp.name)) _ _ (fail_if-Agrees _ _ r h) (
      check_per_backend-Agrees exp.per_backend calls _ (
        check_total-Agrees exp.calls calls _
          (if-Agrees (not (is_empty exp.used)) _ _ (fail_if-Agrees _ _ r h) h)))

check_hit-Agrees :
    (hit : Option Bool) (response : Response) (r : Result)
    → Agrees r
    → Agrees (check_hit hit response r)
check_hit-Agrees none response r h = h
check_hit-Agrees (some hit) response r h = fail_if-Agrees _ _ r h

check_age_gt-Agrees :
    (o : Option ℤ) (age : ℤ) (r : Result) → Agrees r → Agrees (check_age_gt o age r)
check_age_gt-Agrees none age r h = h
check_age_gt-Agrees (some n) age r h = fail_if-Agrees _ _ r h

check_age_lt-Agrees :
    (o : Option ℤ) (age : ℤ) (r : Result) → Agrees r → Agrees (check_age_lt o age r)
check_age_lt-Agrees none age r h = h
check_age_lt-Agrees (some n) age r h = fail_if-Agrees _ _ r h

check_age-Agrees :
    (exp : CacheExpectations) (age : Text) (r : Result) → Agrees r → Agrees (check_age exp age r)
check_age-Agrees exp age r h =
    if-Agrees (is_empty age) _ _ (fail-Agrees _ r) (elim (Option-cases (atoi age)) [
      | inl e ↦ rw e (fail-Agrees _ r)
      | inr (n, e) ↦
          rw e (check_age_lt-Agrees exp.age_lt n _ (check_age_gt-Agrees exp.age_gt n r h))
    ])

check_cache_if-Agrees :
    (o : Option CacheExpectations) (response : Response) (r : Result)
    → Agrees r
    → Agrees (check_cache_if o response r)
unfolding check_cache_if check_cache_expectations
check_cache_if-Agrees none response r h = h
check_cache_if-Agrees (some exp) response r h =
    let hit = check_hit-Agrees exp.hit response r h in
    if-Agrees (is_given exp.age_gt || is_given exp.age_lt) _ _ (check_age-Agrees exp _ _ hit) hit

check_cookies-Agrees :
    (cs jar : Map Text Text) (r : Result) → Agrees r → Agrees (check_cookies cs jar r)
unfolding check_cookies
check_cookies-Agrees [] jar r h = h
check_cookies-Agrees ((name, expected) ∷ cs) jar r h =
    check_cookies-Agrees cs jar _ (elim (Option-cases (lookup name jar)) [
      | inl e ↦ rw e (fail-Agrees _ r)
      | inr (actual, e) ↦ rw e (fail_if-Agrees _ _ r h)
    ])

check_cookie_expectations-Agrees :
    (cs : Map Text Text) (jar : Option (Text → List (Text × Text))) (url : Option Text) (r : Result)
    → Agrees r
    → Agrees (check_cookie_expectations cs jar url r)
unfolding check_cookie_expectations
check_cookie_expectations-Agrees cs none url r h = fail-Agrees _ r
check_cookie_expectations-Agrees cs (some cookies) none r h = fail-Agrees _ r
check_cookie_expectations-Agrees cs (some cookies) (some url) r h =
    check_cookies-Agrees cs (jar_map (cookies url) []) r h

cookies_if-Agrees :
    (cs : Map Text Text) (jar : Option (Text → List (Text × Text))) (url : Option Text) (r : Result)
    → Agrees r
    → Agrees
        (elim cs as (λ _. Result) [ [] ↦ r | c ∷ rest ↦ check_cookie_expectations cs jar url r ])
cookies_if-Agrees [] jar url r h = h
cookies_if-Agrees (c ∷ cs) jar url r h = check_cookie_expectations-Agrees (c ∷ cs) jar url r h

pub check-Agrees :
    (exp : ExpectationsSpec) (response : Response) (calls : Map Text ℤ)
    (jar : Option (Text → List (Text × Text))) (url : Option Text)
    → Agrees (check exp response calls jar url)
unfolding check
check-Agrees exp response calls jar url =
    let r3 = check_cache_if-Agrees exp.cache response _ (
      check_backend_if-Agrees exp.backend calls _ (
        check_response-Agrees exp.response response (record { passed = true; errors = [] })
          refl)) in
    cookies_if-Agrees exp.cookies jar url _ r3

-- A check passes exactly if it reports no error.
pub check-errors_iff :
    (exp : ExpectationsSpec) (response : Response) (calls : Map Text ℤ)
    (jar : Option (Text → List (Text × Text))) (url : Option Text)
    → ((check exp response calls jar url).passed ≡ true)
      ↔ ((check exp response calls jar url).errors ≡ [])
check-errors_iff exp response calls jar url =
    let agrees = check-Agrees exp response calls jar url in ground arith

-- What is shown of a body is empty, the whole body or its beginning with the length of the whole.
abbrev pub Shows : Text → ℕ → Preview → Type 0
Shows body max empty = body ≡ []
Shows body max (whole s) = (s ≡ body) × (length s ≤ max)
Shows body max (truncated s n) = (s ≡ take max body) × (length s ≤ max) × (n ≡ length body)

-- What a message shows of a body is never longer than the limit, and is a beginning of the body.
pub truncate_body-bound : (body : Text) (max : ℕ) → Shows body max (truncate_body body max)
unfolding truncate_body
truncate_body-bound [] max = refl
truncate_body-bound (c ∷ s) max = elim (Bool-cases (leb (length (c ∷ s)) max)) [
  | inl e ↦ rw e (refl, ground arith)
  | inr e ↦ rw e (refl, length-take-le max (c ∷ s), refl)
]
