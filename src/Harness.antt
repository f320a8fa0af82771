-- ===== src/Harness.antt =====
-- pkg/harness/backends.go and the parts of pkg/harness/harness.go that run the tests: the mock
-- backends of a test file and the loop over its tests.
pub mod Run
pub mod Lifecycle
pub mod Starts
pub mod Names
mod Quiet
pub mod Ending
pub mod Ends
pub mod Finish
pub mod Backends
pub mod Totals
mod Samples
use vcltest.Base.{
  Bool, true, false, not, ◌&&◌, ◌||◌, Option, none, some, List, [], ◌∷◌, ◌++◌, ℕ, ◌+◌, ◌==◌, any,
  nat_beq, length, if◌then◌else◌,
}
use vcltest.Base.Int.{ℤ, int_eq, pos}
use vcltest.Base.Map.{Map, lookup, insert, is_some, get_or}
use vcltest.Base.Text.{Text, text_eq, codes, split, atoi}
use vcltest.Testspec.{RouteSpec, BackendSpec, TestSpec}
use vcltest.Testspec.Loader.{or_status}
use vcltest.Backend.{RouteConfig, Config, MockBackend, new, start, stop, update_config}

-- `vclmod.BackendAddress`
pub record BackendAddress : Type 0 where
  pub host : Text
  pub port : Text

-- `convertRoutes`
unfoldable pub convert_routes : Map Text RouteSpec → Map Text RouteConfig
convert_routes [] = []
convert_routes ((path, spec) ∷ m) =
    (
      path,
      record {
        status = spec.status;
        headers = get_or [] spec.headers;
        body = spec.body;
        failure_mode = spec.failure_mode;
        echo_request = spec.echo_request;
      },
    )
    ∷ convert_routes m

-- The configuration of a backend by its specification, with the default status of this package.
unfoldable pub config_of : BackendSpec → Config
unfolding convert_routes
config_of spec = record {
  status = or_status (pos 200) spec.status;
  headers = get_or [] spec.headers;
  body = spec.body;
  failure_mode = spec.failure_mode;
  routes = convert_routes spec.routes;
  echo_request = spec.echo_request;
}

-- The first specification of each name counts.
unfoldable pub collect_specs : Map Text BackendSpec → Map Text BackendSpec → Map Text BackendSpec
unfolding lookup insert
collect_specs [] found = found
collect_specs ((name, spec) ∷ m) found =
    collect_specs m (if is_some (lookup name found) then found else insert name spec found)

unfoldable pub collect_tests : List TestSpec → Map Text BackendSpec → Map Text BackendSpec
unfolding collect_specs
collect_tests [] found = found
collect_tests (t ∷ ts) found = collect_tests ts (collect_specs t.backends found)

-- The backend that stands in where no test names one.
abbrev pub default_spec : BackendSpec
default_spec = record {
  status = pos 200;
  headers = none;
  body = [];
  failure_mode = [];
  routes = [];
  echo_request = false;
}

unfoldable pub all_specs : List TestSpec → Map Text BackendSpec
unfolding collect_tests
all_specs tests = elim (collect_tests tests []) [
  | [] ↦ (codes "default", default_spec) ∷ []
  | s ∷ ss ↦ s ∷ ss
]

abbrev has_byte : ℕ → Text → Bool
has_byte b s = any (nat_beq b) s

-- `net.SplitHostPort` for a host without brackets, the form of a listener's IPv4 address: one colon,
-- and no bracket anywhere.
unfoldable pub split_host_port : Text → Option (Text × Text)
unfolding split
split_host_port s = if has_byte b'[' s || has_byte b']' s then none else elim (split s b':') [
  | [] ↦ none
  | host ∷ more ↦ elim more [
    | [] ↦ none
    | port ∷ rest ↦ elim rest [ [] ↦ some (host, port) | x ∷ xs ↦ none ]
  ]
]

-- `parseAddress`
unfoldable pub parse_address : Text → Option BackendAddress
unfolding split_host_port atoi
parse_address s = elim (split_host_port s) [
  | none ↦ none
  | some (host, port) ↦ elim (atoi port) [
    | none ↦ none
    | some n ↦ some (record { host = host; port = port })
  ]
]

pub record Started : Type 0 where
  pub addresses : Map Text BackendAddress
  pub mocks : Map Text MockBackend

-- `stopAllBackends`; an error is only logged.
unfoldable pub stop_all_backends : Map Text MockBackend → Map Text MockBackend
unfolding stop
stop_all_backends [] = []
stop_all_backends ((name, m) ∷ ms) = (name, (stop none m).1) ∷ stop_all_backends ms

-- What becomes of the backends: all are started, or one gets no listener, or the address of one that has
-- been started does not parse. A failure stops the others, but not that last one.
pub data Starting : Type 0 where
  started : Started → Starting
  no_listener : Map Text MockBackend → Starting
  no_address : MockBackend → Map Text MockBackend → Starting

-- The loop that starts the backends. `listen` gives the address that the backend of a name gets, and
-- `none` where it gets no listener.
unfoldable pub start_specs : (Text → Option Text) → Map Text BackendSpec → Started → Starting
unfolding config_of new start parse_address insert stop_all_backends
start_specs listen [] s = started s
start_specs listen ((name, spec) ∷ m) s = elim (listen name) [
  | none ↦ no_listener (stop_all_backends s.mocks)
  | some addr ↦ elim (parse_address addr) [
    | none ↦ no_address (start (some addr) (new (config_of spec))).1 (stop_all_backends s.mocks)
    | some a ↦ start_specs listen m (record {
      addresses = insert name a s.addresses;
      mocks = insert name (start (some addr) (new (config_of spec))).1 s.mocks;
    })
  ]
]

-- `startAllBackends`
unfoldable pub start_all_backends : (Text → Option Text) → List TestSpec → Starting
unfolding all_specs start_specs
start_all_backends listen tests =
    start_specs listen (all_specs tests) (record { addresses = []; mocks = [] })

-- `configureBackendsForTest`, and the same loop of the runner's scenario steps.
unfoldable pub configure_backends :
    Map Text BackendSpec → Map Text MockBackend → Map Text MockBackend
unfolding lookup insert config_of update_config
configure_backends [] mocks = mocks
configure_backends ((name, spec) ∷ m) mocks = elim (lookup name mocks) [
  | none ↦ configure_backends m mocks
  | some mock ↦ configure_backends m (insert name (update_config (config_of spec) mock) mocks)
]
