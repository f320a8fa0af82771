-- ===== src/Backend/Samples.antt =====
-- Runs of the mock backend.
use vcltest.Base.{
  Bool, true, false, ◌≡◌, refl, Option, none, some, List, [], ◌∷◌, ℕ, ◌<◌, ◌^◌, length,
}
use vcltest.Base.Int.{pos}
use vcltest.Base.Text.{Text, codes, decimal}
use vcltest.Base.Http.{Headers}
use vcltest.Backend.{
  Config, Request, hijacked, RouteConfig, reply, reset_by_peer, new, answer, get_route_config,
  handle_request, get_call_count, with_length, set_headers,
}
use vcltest.Backend.History.{Call, request, update, reset, stopping, run_calls, run_calls-answer}

abbrev pub route_for : Text → Text → RouteConfig
route_for body mode = record {
  status = pos 200;
  headers = (codes "content-length", codes "99") ∷ [];
  body = body;
  failure_mode = mode;
  echo_request = false;
}

abbrev pub config_for : Text → Config
config_for body = record {
  status = pos 200;
  headers = [];
  body = body;
  failure_mode = [];
  routes = (codes "/down", route_for [] (codes "failed")) ∷ [];
  echo_request = false;
}

abbrev pub get : Text → Request
get path = record {
  method = codes "GET";
  url = path;
  path = path;
  query = [];
  headers = [];
  body = [];
}

abbrev history : List Call
history =
    request hijacked (get (codes "/"))
    ∷ reset
    ∷ request hijacked (get (codes "/"))
    ∷ update (config_for (codes "new"))
    ∷ request hijacked (get (codes "/down"))
    ∷ stopping none
    ∷ []

get_call_count_sample : get_call_count (run_calls history (new (config_for []))) ≡ pos 2
unfolding get_call_count run_calls new
get_call_count_sample = refl

handle_request_sample :
    (handle_request hijacked (get (codes "/down")) (new (config_for []))).0 ≡ reset_by_peer
unfolding handle_request new vcltest.Base.Text.text_beq
handle_request_sample = refl

decimal_sample : decimal 2048 ≡ codes "2048"
unfolding decimal
decimal_sample = refl

run_calls-answer_example :
    ((handle_request hijacked (get (codes "/")) (run_calls history (new (config_for [])))).0
      ≡ answer hijacked (get (codes "/")) (get_route_config (config_for (codes "new")) (codes "/")))
    × (2 < 2 ^ 31 → get_call_count (run_calls history (new (config_for []))) ≡ pos 2)
run_calls-answer_example = run_calls-answer history (config_for []) hijacked (get (codes "/"))

abbrev headers_sent : Headers
headers_sent =
    with_length (codes "hello") (set_headers ((codes "content-length", codes "99") ∷ []) [])

replied :
    answer hijacked (get (codes "/")) (route_for (codes "hello") [])
    ≡ reply (pos 200) headers_sent (codes "hello")
unfolding answer vcltest.Base.Text.text_beq
replied = refl
