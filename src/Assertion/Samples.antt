-- ===== src/Assertion/Samples.antt =====
-- Runs of `Check` on a cached response.
use vcltest.Base.{
  Bool, true, false, ◌≡◌, refl, ◌↔◌, Option, none, some, List, [], ◌∷◌, ℕ, ◌≤◌, length, take,
}
use vcltest.Base.Int.{ℤ, pos}
use vcltest.Base.Map.{Map}
use vcltest.Base.Text.{Text, codes}
use vcltest.Testspec.{ExpectationsSpec}
use vcltest.Assertion.{Response, check, status_differs}
use vcltest.Assertion.Meets.{MeetsResponse, MeetsCookies}
use vcltest.Assertion.Verdict.{MeetsBackendIf, MeetsCacheIf, check-passed_iff}
use vcltest.Assertion.Reports.{check-errors_iff}

abbrev cached : Response
cached = record {
  status = pos 200;
  headers = (codes "X-Varnish", codes "32770 3" ∷ []) ∷ (codes "Age", codes "12" ∷ []) ∷ [];
  body = codes "hello";
}

abbrev calls : Map Text ℤ
calls = (codes "api", pos 0) ∷ []

abbrev expected : ℤ → ExpectationsSpec
expected status = record {
  response = record {
    status = status;
    headers = (codes "age", codes "12") ∷ [];
    body_contains = codes "ell";
  };
  backend = some (record { name = []; calls = some (pos 0); used = []; per_backend = [] });
  cache = some (record { hit = some true; age_gt = some (pos 10); age_lt = none });
  cookies = (codes "id", codes "7") ∷ [];
}

abbrev jar : Option (Text → List (Text × Text))
jar = some (λ url. (codes "id", codes "7") ∷ [])

check_sample : (check (expected (pos 200)) cached calls jar (some (codes "/"))).passed ≡ true
unfolding check vcltest.Base.Text.text_beq vcltest.Base.Http.get_header vcltest.Base.Text.atoi
    vcltest.Base.Int.◌+ℤ◌ vcltest.Base.Text.contains_text
check_sample = refl

check_sample_failing :
    (check (expected (pos 503)) cached calls jar (some (codes "/"))).errors
    ≡ status_differs (pos 503) (pos 200) ∷ []
unfolding check vcltest.Base.Text.text_beq vcltest.Base.Http.get_header vcltest.Base.Text.atoi
    vcltest.Base.Int.◌+ℤ◌ vcltest.Base.Text.contains_text
check_sample_failing = refl

check-passed_iff_example :
    ((check (expected (pos 200)) cached calls jar (some (codes "/"))).passed ≡ true) ↔ (
      MeetsResponse (expected (pos 200)).response cached
      × MeetsBackendIf (expected (pos 200)).backend calls
      × MeetsCacheIf (expected (pos 200)).cache cached
      × MeetsCookies (expected (pos 200)).cookies jar (some (codes "/")))
check-passed_iff_example = check-passed_iff (expected (pos 200)) cached calls jar (some (codes "/"))

check-errors_iff_example :
    ((check (expected (pos 503)) cached calls jar (some (codes "/"))).passed ≡ true)
    ↔ ((check (expected (pos 503)) cached calls jar (some (codes "/"))).errors ≡ [])
check-errors_iff_example = check-errors_iff (expected (pos 503)) cached calls jar (some (codes "/"))
