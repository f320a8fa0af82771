-- ===== src/Backend.antt =====
-- pkg/backend/mock.go: the mock HTTP server behind Varnish. What its handler answers is what it asks
-- of the ResponseWriter.
pub mod History
mod Samples
use vcltest.Base.{
  Bool, true, false, not, Option, none, some, List, [], ◌∷◌, ℕ, ◌+◌, ◌%◌, ◌^◌, ◌==◌, length,
  if◌then◌else◌,
}
use vcltest.Base.Int.{ℤ, pos, of_int32}
use vcltest.Base.Map.{Map, lookup}
use vcltest.Base.Text.{Text, text_eq, codes, is_empty, decimal}
use vcltest.Base.Http.{Headers, set_header}

pub record RouteConfig : Type 0 where
  pub status : ℤ
  pub headers : Map Text Text
  pub body : Text
  pub failure_mode : Text
  pub echo_request : Bool

pub record Config : Type 0 where
  pub status : ℤ
  pub headers : Map Text Text
  pub body : Text
  pub failure_mode : Text
  pub routes : Map Text RouteConfig
  pub echo_request : Bool

-- `call_count` holds the bits of the atomic int32; `serving` says that there is a server, and
-- `stopped` that the shutdown channel is closed.
pub record MockBackend : Type 0 where
  pub call_count : ℕ
  pub config : Config
  pub serving : Bool
  pub stopped : Bool

-- `New`
unfoldable pub new : Config → MockBackend
new config = record { call_count = 0; config = config; serving = false; stopped = false }

-- `Start`: the listener's address, `none` where there is no listener.
unfoldable pub start : Option Text → MockBackend → Option Text × MockBackend
start none m = (none, m)
start (some addr) m = (some addr, record m { serving = true })

-- `getRouteConfig`
unfoldable pub get_route_config : Config → Text → RouteConfig
unfolding lookup
get_route_config c path = elim (lookup path c.routes) [
  | some route ↦ route
  | none ↦ record {
    status = c.status;
    headers = c.headers;
    body = c.body;
    failure_mode = c.failure_mode;
    echo_request = c.echo_request;
  }
]

-- A request, with its URL taken apart by net/url.
pub record Request : Type 0 where
  pub method : Text
  pub url : Text
  pub path : Text
  pub query : Map Text (List Text)
  pub headers : Headers
  pub body : Text

-- Whether the connection can be taken over.
pub data Hijack : Type 0 where
  unsupported hijacked : Hijack
  refused : Text → Hijack

-- An echo holds the six fields of `EchoResponse`, which are those of the request.
pub data Answer : Type 0 where
  echo : Request → Answer
  frozen reset_by_peer : Answer
  server_error : Text → Answer
  reply : ℤ → Headers → Text → Answer

-- The loop over the configured headers.
abbrev pub set_headers : Map Text Text → Headers → Headers
set_headers [] h = h
set_headers ((key, value) ∷ hs) h = set_headers hs (set_header key value h)

abbrev pub with_length : Text → Headers → Headers
with_length body h =
    if is_empty body then h else set_header (codes "Content-Length") (decimal (length body)) h

-- `handleRequest` behind the choice of the route.
unfoldable pub answer : Hijack → Request → RouteConfig → Answer
answer hj req route =
    if route.echo_request
    then echo req
    else if route.failure_mode == codes "frozen"
    then frozen
    else if route.failure_mode == codes "failed"
    then elim hj [
      | unsupported ↦ server_error (codes "hijacking not supported")
      | refused e ↦ server_error e
      | hijacked ↦ reset_by_peer
    ]
    else reply route.status (with_length route.body (set_headers route.headers [])) route.body

-- `handleRequest`
unfoldable pub handle_request : Hijack → Request → MockBackend → Answer × MockBackend
unfolding answer get_route_config
handle_request hj req m = (
  answer hj req (get_route_config m.config req.path),
  record m { call_count = (m.call_count + 1) % 2 ^ 32 },
)

-- Whether a frozen handler still waits, given whether its client has gone.
abbrev pub still_waits : Bool → MockBackend → Bool
still_waits client_gone m = if m.stopped then false else not client_gone

-- `GetCallCount`
unfoldable pub get_call_count : MockBackend → ℤ
unfolding of_int32
get_call_count m = of_int32 m.call_count

-- `ResetCallCount`
unfoldable pub reset_call_count : MockBackend → MockBackend
reset_call_count m = record m { call_count = 0 }

-- `UpdateConfig`
unfoldable pub update_config : Config → MockBackend → MockBackend
update_config config m = record m { config = config }

-- `Stop`: the error is that of closing the server, if there is one.
unfoldable pub stop : Option Text → MockBackend → Option Text × MockBackend
stop close_error m = (if m.serving then close_error else none, record m { stopped = true })
