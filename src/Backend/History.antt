-- ===== src/Backend/History.antt =====
-- A mock backend after any sequence of calls.
use vcltest.Base.{
  ◌≡◌, refl, ap, sym, ◌∙◌, List, [], ◌∷◌, ℕ, ◌+◌, ◌%◌, ◌^◌, ◌<◌, arith, Option, length, eq_self,
  if_true, ◌≢◌,
}
use vcltest.Base.Int.{ℤ, pos, of_int32}
use vcltest.Base.Text.{Text, text_eq, codes, decimal}
use vcltest.Base.Http.{Headers, get_header, canonical, get_header-set_header}
use vcltest.Backend.{
  Config, MockBackend, Request, RouteConfig, Hijack, reply, new, answer, get_route_config,
  handle_request, get_call_count, reset_call_count, update_config, stop, set_headers, with_length,
}

-- A call of the backend: a request that reaches its server, or a call of its API.
pub data Call : Type 0 where
  request : Hijack → Request → Call
  update : Config → Call
  reset : Call
  stopping : Option Text → Call

unfoldable pub run_call : Call → MockBackend → MockBackend
unfolding handle_request update_config reset_call_count stop
run_call (request hj req) m = (handle_request hj req m).1
run_call (update c) m = update_config c m
run_call reset m = reset_call_count m
run_call (stopping e) m = (stop e m).1

unfoldable pub run_calls : List Call → MockBackend → MockBackend
unfolding run_call
run_calls [] m = m
run_calls (c ∷ cs) m = run_calls cs (run_call c m)

-- The configuration set last.
abbrev pub last_config : List Call → Config → Config
last_config [] c = c
last_config (request hj req ∷ cs) c = last_config cs c
last_config (update new_config ∷ cs) c = last_config cs new_config
last_config (reset ∷ cs) c = last_config cs c
last_config (stopping e ∷ cs) c = last_config cs c

-- The requests since the last reset, on top of `n`.
abbrev pub calls_since_reset : List Call → ℕ → ℕ
calls_since_reset [] n = n
calls_since_reset (request hj req ∷ cs) n = calls_since_reset cs (n + 1)
calls_since_reset (update c ∷ cs) n = calls_since_reset cs n
calls_since_reset (reset ∷ cs) n = calls_since_reset cs 0
calls_since_reset (stopping e ∷ cs) n = calls_since_reset cs n

run_calls-state :
    (cs : List Call) (m : MockBackend) (n : ℕ)
    → m.call_count ≡ n % 2 ^ 32
    → ((run_calls cs m).call_count ≡ calls_since_reset cs n % 2 ^ 32)
      × ((run_calls cs m).config ≡ last_config cs m.config)
unfolding run_calls run_call handle_request update_config reset_call_count stop
run_calls-state [] m n h = (h, refl)
run_calls-state (request hj req ∷ cs) m n h = run_calls-state cs _ (n + 1) (omega arith)
run_calls-state (update c ∷ cs) m n h = run_calls-state cs _ n h
run_calls-state (reset ∷ cs) m n h = run_calls-state cs _ 0 (omega arith)
run_calls-state (stopping e ∷ cs) m n h = run_calls-state cs _ n h

of_int32_small : (n : ℕ) → n < 2 ^ 31 → of_int32 (n % 2 ^ 32) ≡ pos n
unfolding of_int32
of_int32_small n h = let e : n % 2 ^ 32 ≡ n = omega arith in rw e (ground arith)

-- After any sequence of requests, updates, resets and stops, the backend answers by the configuration
-- set last and by nothing else of its history, and its call count is the number of requests since
-- the last reset, as long as these are fewer than 2^31.
pub run_calls-answer :
    (cs : List Call) (config : Config) (hj : Hijack) (req : Request)
    → ((handle_request hj req (run_calls cs (new config))).0
        ≡ answer hj req (get_route_config (last_config cs config) req.path))
      × (calls_since_reset cs 0 < 2 ^ 31
          → get_call_count (run_calls cs (new config)) ≡ pos (calls_since_reset cs 0))
unfolding handle_request get_call_count new
run_calls-answer cs config hj req =
    let (count, conf) = run_calls-state cs (new config) 0 (omega arith) in
    (
      ap (λ c. answer hj req (get_route_config c req.path)) conf,
      λ small. ap of_int32 count ∙ of_int32_small (calls_since_reset cs 0) small,
    )

answer-reply :
    (hj : Hijack) (req : Request) (route : RouteConfig) (status : ℤ) (h : Headers) (body : Text)
    → answer hj req route ≡ reply status h body
    → (h ≡ with_length route.body (set_headers route.headers [])) × (body ≡ route.body)
unfolding answer
answer-reply hj req route status h body e = ground arith

get_header-with_length :
    (c : ℕ) (body : Text) (h : Headers)
    → get_header (with_length (c ∷ body) h) (codes "Content-Length") ≡ decimal (length (c ∷ body))
get_header-with_length c body h =
    get_header-set_header (codes "Content-Length") (codes "Content-Length")
      (decimal (length (c ∷ body))) h
    ∙ if_true _ _ _ (eq_self (canonical (codes "Content-Length")))

-- A reply with a body states the length of the body, whatever Content-Length is configured.
pub answer-Content-Length :
    (hj : Hijack) (req : Request) (route : RouteConfig) (status : ℤ) (h : Headers) (body : Text)
    → answer hj req route ≡ reply status h body
    → body ≢ []
    → get_header h (codes "Content-Length") ≡ decimal (length body)
answer-Content-Length hj req route status h [] e some_body = absurd (some_body refl)
answer-Content-Length hj req route status h (c ∷ body) e some_body =
    let (same_headers, same_body) = answer-reply hj req route status h (c ∷ body) e in
    rw (same_headers, sym same_body) (get_header-with_length c body _)
