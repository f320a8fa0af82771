-- ===== src/Assertion.antt =====
-- pkg/assertion/assertion.go: the check of one response against what a test expects. A message is
-- kept as what it says, not as its wording.
pub mod Meets
pub mod Parts
pub mod Verdict
pub mod Reports
mod Samples
use vcltest.Base.{
  Bool, true, false, not, ◌&&◌, ◌||◌, Option, none, some, List, [], ◌∷◌, ◌++◌, ℕ, ◌==◌, leb,
  nat_beq, length, take, if◌then◌else◌, filter,
}
use vcltest.Base.Int.{ℤ, int_eq, pos, ltb_ℤ, leb_ℤ, ◌+ℤ◌}
use vcltest.Base.Map.{Map, lookup, insert, get_or}
use vcltest.Base.Text.{Text, text_eq, codes, is_empty, contains_text, atoi, fields}
use vcltest.Base.Http.{Headers, get_header}
use vcltest.Testspec.{
  ResponseExpectations, BackendExpectations, CacheExpectations, ExpectationsSpec,
}

-- `client.Response`
pub record Response : Type 0 where
  pub status : ℤ
  pub headers : Headers
  pub body : Text

-- `truncateBody`: the whole body, or its beginning and its length.
pub data Preview : Type 0 where
  empty : Preview
  whole : Text → Preview
  truncated : Text → ℕ → Preview

unfoldable pub truncate_body : Text → ℕ → Preview
truncate_body body max =
    if is_empty body
    then empty
    else if leb (length body) max
    then whole body
    else truncated (take max body) (length body)

pub data Failure : Type 0 where
  status_differs : ℤ → ℤ → Failure
  header_differs : Text → Text → Text → Failure
  body_lacks : Text → Preview → Failure
  not_called : Text → Map Text ℤ → Failure
  total_differs : ℤ → ℤ → Failure
  calls_differ : Text → ℤ → ℤ → Failure
  hit_differs : Bool → Bool → Text → Text → Failure
  age_missing no_jar no_url : Failure
  age_invalid : Text → Failure
  age_not_above age_not_below : ℤ → ℤ → Failure
  cookie_missing : Text → Failure
  cookie_differs : Text → Text → Text → Failure

pub record Result : Type 0 where
  pub passed : Bool
  pub errors : List Failure

-- `result.Passed = false` and the `append` to `result.Errors`, which the code always does together.
abbrev pub fail : Failure → Result → Result
fail e r = record r { passed = false; errors = r.errors ++ e ∷ [] }

abbrev pub fail_if : Bool → Failure → Result → Result
fail_if b e r = if b then fail e r else r

-- The loop over the expected headers.
unfoldable pub check_headers : Map Text Text → Response → Result → Result
check_headers [] response r = r
check_headers ((key, expected) ∷ hs) response r =
    let actual = get_header response.headers key in
    check_headers hs response
      (fail_if (not (actual == expected)) (header_differs key expected actual) r)

-- `checkResponseExpectations`
unfoldable pub check_response_expectations : ResponseExpectations → Response → Result → Result
unfolding check_headers truncate_body
check_response_expectations exp response r =
    let after_status =
      fail_if (not (response.status == exp.status)) (status_differs exp.status response.status) r in
    fail_if
      (not (is_empty exp.body_contains) && not (contains_text response.body exp.body_contains))
      (body_lacks exp.body_contains (truncate_body response.body 500))
      (check_headers exp.headers response after_status)

-- `!found || calls == 0`
abbrev pub uncalled : Option ℤ → Bool
uncalled none = true
uncalled (some n) = n == pos 0

-- `formatBackendCalls`: the entries that it prints.
abbrev pub called_backends : Map Text ℤ → Map Text ℤ
called_backends calls = filter (λ e. ltb_ℤ (pos 0) e.1) calls

abbrev pub check_called : Text → Map Text ℤ → Result → Result
check_called name calls r =
    fail_if (uncalled (lookup name calls)) (not_called name (called_backends calls)) r

abbrev pub total_calls : Map Text ℤ → ℤ → ℤ
total_calls [] total = total
total_calls ((name, n) ∷ m) total = total_calls m (total +ℤ n)

unfoldable pub check_per_backend : Map Text ℤ → Map Text ℤ → Result → Result
check_per_backend [] calls r = r
check_per_backend ((name, expected) ∷ es) calls r =
    let actual = get_or (pos 0) (lookup name calls) in
    check_per_backend es calls
      (fail_if (not (actual == expected)) (calls_differ name expected actual) r)

abbrev pub check_total : Option ℤ → Map Text ℤ → Result → Result
check_total none calls r = r
check_total (some n) calls r =
    let total = total_calls calls (pos 0) in fail_if (not (total == n)) (total_differs n total) r

-- `checkBackendExpectations`
unfoldable pub check_backend_expectations : BackendExpectations → Map Text ℤ → Result → Result
unfolding check_per_backend
check_backend_expectations exp calls r =
    if not (is_empty exp.name)
    then check_called exp.name calls r
    else check_per_backend exp.per_backend calls (
        check_total exp.calls calls
          (if not (is_empty exp.used) then check_called exp.used calls r else r))

-- The Age header as the second sign of a cached response.
abbrev pub positive_age : Option ℤ → Bool
positive_age none = false
positive_age (some n) = ltb_ℤ (pos 0) n

-- `checkIfCached`
unfoldable pub check_if_cached : Response → Bool
unfolding fields
check_if_cached response =
    let x_varnish = get_header response.headers (codes "X-Varnish") in
    let age = get_header response.headers (codes "Age") in
    if not (is_empty x_varnish) && nat_beq (length (fields x_varnish)) 2
    then true
    else not (is_empty age) && positive_age (atoi age)

abbrev pub check_hit : Option Bool → Response → Result → Result
check_hit none response r = r
check_hit (some hit) response r =
    let cached = check_if_cached response in
    fail_if (if hit then not cached else cached)
      (hit_differs hit cached (get_header response.headers (codes "X-Varnish"))
        (get_header response.headers (codes "Age")))
      r

abbrev pub check_age_gt : Option ℤ → ℤ → Result → Result
check_age_gt none age r = r
check_age_gt (some n) age r = fail_if (leb_ℤ age n) (age_not_above n age) r

abbrev pub check_age_lt : Option ℤ → ℤ → Result → Result
check_age_lt none age r = r
check_age_lt (some n) age r = fail_if (leb_ℤ n age) (age_not_below n age) r

abbrev pub check_age : CacheExpectations → Text → Result → Result
check_age exp age r = if is_empty age then fail age_missing r else elim (atoi age) [
  | none ↦ fail (age_invalid age) r
  | some n ↦ check_age_lt exp.age_lt n (check_age_gt exp.age_gt n r)
]

abbrev pub is_given : Option ℤ → Bool
is_given none = false
is_given (some n) = true

-- `checkCacheExpectations`
unfoldable pub check_cache_expectations : CacheExpectations → Response → Result → Result
unfolding check_if_cached
check_cache_expectations exp response r =
    let after_hit = check_hit exp.hit response r in
    if is_given exp.age_gt || is_given exp.age_lt
    then check_age exp (get_header response.headers (codes "Age")) after_hit
    else after_hit

-- `jarMap`: the last cookie of a name counts.
unfoldable pub jar_map : List (Text × Text) → Map Text Text → Map Text Text
unfolding insert
jar_map [] m = m
jar_map ((name, value) ∷ cs) m = jar_map cs (insert name value m)

abbrev pub check_cookie : Text → Text → Option Text → Result → Result
check_cookie name expected none r = fail (cookie_missing name) r
check_cookie name expected (some actual) r =
    fail_if (not (actual == expected)) (cookie_differs name expected actual) r

unfoldable pub check_cookies : Map Text Text → Map Text Text → Result → Result
unfolding lookup
check_cookies [] jar r = r
check_cookies ((name, expected) ∷ cs) jar r =
    check_cookies cs jar (check_cookie name expected (lookup name jar) r)

-- `checkCookieExpectations`: `jar` gives the cookies of a URL, and is `none` for a nil jar.
unfoldable pub check_cookie_expectations :
    Map Text Text → Option (Text → List (Text × Text)) → Option Text → Result → Result
unfolding check_cookies jar_map
check_cookie_expectations expected none url r = fail no_jar r
check_cookie_expectations expected (some cookies) none r = fail no_url r
check_cookie_expectations expected (some cookies) (some url) r =
    check_cookies expected (jar_map (cookies url) []) r

unfoldable pub check_backend_if : Option BackendExpectations → Map Text ℤ → Result → Result
unfolding check_backend_expectations
check_backend_if none calls r = r
check_backend_if (some exp) calls r = check_backend_expectations exp calls r

unfoldable pub check_cache_if : Option CacheExpectations → Response → Result → Result
unfolding check_cache_expectations
check_cache_if none response r = r
check_cache_if (some exp) response r = check_cache_expectations exp response r

-- `Check`
unfoldable pub check :
    ExpectationsSpec
    → Response
    → Map Text ℤ
    → Option (Text → List (Text × Text))
    → Option Text
    → Result
unfolding check_response_expectations check_cookie_expectations check_backend_if check_cache_if
check exp response calls jar url =
    let r1 =
      check_response_expectations exp.response response (record { passed = true; errors = [] }) in
    let r2 = check_backend_if exp.backend calls r1 in
    let r3 = check_cache_if exp.cache response r2 in
    elim exp.cookies [ [] ↦ r3 | c ∷ cs ↦ check_cookie_expectations exp.cookies jar url r3 ]
