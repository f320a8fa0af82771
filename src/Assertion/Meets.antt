-- ===== src/Assertion/Meets.antt =====
-- What it means that a response meets what a test expects, without running the check.
use vcltest.Base.{Bool, true, false, ◌≡◌, ◌≢◌, ◌⊎◌, Option, none, some, List, [], ◌∷◌, length, All}
use vcltest.Base.Int.{ℤ, int_eq, pos, ◌<ℤ◌}
use vcltest.Base.Map.{Map, lookup, get_or}
use vcltest.Base.Text.{Text, text_eq, codes, contains_text, atoi, fields}
use vcltest.Base.Http.{get_header}
use vcltest.Testspec.{ResponseExpectations, BackendExpectations, CacheExpectations}
use vcltest.Assertion.{Response, total_calls, jar_map}

abbrev pub HasHeaders : Map Text Text → Response → Type 0
HasHeaders hs response = All (λ e. get_header response.headers e.0 ≡ e.1) hs

abbrev pub MeetsResponse : ResponseExpectations → Response → Type 0
MeetsResponse exp response =
    (response.status ≡ exp.status)
    × HasHeaders exp.headers response
    × ((exp.body_contains ≡ []) ⊎ (contains_text response.body exp.body_contains ≡ true))

abbrev pub WasCalled : Text → Map Text ℤ → Type 0
WasCalled name calls = (n : ℤ) × (lookup name calls ≡ some n) × (n ≢ pos 0)

abbrev pub HasCounts : Map Text ℤ → Map Text ℤ → Type 0
HasCounts expected calls = All (λ e. get_or (pos 0) (lookup e.0 calls) ≡ e.1) expected

-- With a name, the other fields do not matter.
abbrev pub MeetsBackend : BackendExpectations → Map Text ℤ → Type 0
MeetsBackend exp calls =
    ((exp.name ≢ []) × WasCalled exp.name calls)
    ⊎ ((exp.name ≡ [])
        × ((exp.used ≡ []) ⊎ WasCalled exp.used calls)
        × ((exp.calls ≡ none) ⊎ (exp.calls ≡ some (total_calls calls (pos 0))))
        × HasCounts exp.per_backend calls)

-- Two transaction numbers in X-Varnish, or a positive Age.
abbrev pub IsCached : Response → Type 0
IsCached response =
    (length (fields (get_header response.headers (codes "X-Varnish"))) ≡ 2)
    ⊎ ((n : ℤ) × (atoi (get_header response.headers (codes "Age")) ≡ some n) × (pos 0 <ℤ n))

abbrev pub MeetsHit : Option Bool → Response → Type 0
MeetsHit none response = Unit
MeetsHit (some true) response = IsCached response
MeetsHit (some false) response = ¬ IsCached response

abbrev pub Above : Option ℤ → ℤ → Type 0
Above none age = Unit
Above (some n) age = n <ℤ age

abbrev pub Below : Option ℤ → ℤ → Type 0
Below none age = Unit
Below (some n) age = age <ℤ n

-- A bound on the age asks for an Age header that is a number within it.
abbrev pub MeetsAge : CacheExpectations → Response → Type 0
MeetsAge exp response =
    ((exp.age_gt ≡ none) × (exp.age_lt ≡ none))
    ⊎ ((age : ℤ) × (atoi (get_header response.headers (codes "Age")) ≡ some age)
        × Above exp.age_gt age
        × Below exp.age_lt age)

abbrev pub MeetsCookies : Map Text Text → Option (Text → List (Text × Text)) → Option Text → Type 0
MeetsCookies [] jar url = Unit
MeetsCookies (c ∷ cs) none url = ⊥
MeetsCookies (c ∷ cs) (some cookies) none = ⊥
MeetsCookies (c ∷ cs) (some cookies) (some url) =
    All (λ e. lookup e.0 (jar_map (cookies url) []) ≡ some e.1) (c ∷ cs)
