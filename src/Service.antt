-- ===== src/Service.antt =====
-- pkg/service/manager.go: `NewManager` and the port on which Varnish takes requests. The goroutines of
-- `Start` are not modelled.
pub mod Ports
pub mod Listing
mod Samples
use vcltest.Base.{
  Bool, true, false, Option, none, some, List, [], ◌∷◌, ℕ, any, nat_beq, if◌then◌else◌, not,
}
use vcltest.Base.Int.{ℤ, pos, leb_ℤ, int_beq}
use vcltest.Base.Text.{Text, is_empty}
use vcltest.Varnishadm.{VarnishResponse}
use vcltest.Varnishadm.Commands.{
  Answer, answered, lost, unread, crashed, refused, ListenAddress, debug_listen_address_structured,
}

-- `Config`; the logger is only asked for.
pub record Config : Type 0 where
  pub secret : Text
  pub varnish_cmd : Text
  pub vcl_path : Text
  pub varnish_config : Option vcltest.Varnish.Config
  pub has_logger : Bool

pub data ConfigError : Type 0 where
  nil_config nil_logger nil_varnish_config empty_secret empty_vcl_path : ConfigError

pub data NewManager : Type 0 where
  invalid : ConfigError → NewManager
  manager : vcltest.Varnish.Manager → NewManager

module _ (join : Text → Text → Text) where
  unfoldable pub with_varnish : Config → Option vcltest.Varnish.Config → NewManager
  unfolding vcltest.Varnish.new
  with_varnish cfg none = invalid nil_varnish_config
  with_varnish cfg (some v) =
      if is_empty cfg.secret
      then invalid empty_secret
      else if is_empty cfg.vcl_path
      then invalid empty_vcl_path
      else manager (vcltest.Varnish.new join v.work_dir v.varnish_dir)

  -- `NewManager`; of the manager, its manager of Varnish.
  unfoldable pub new_manager : Option Config → NewManager
  unfolding with_varnish
  new_manager none = invalid nil_config
  new_manager (some cfg) =
      if cfg.has_logger then with_varnish cfg cfg.varnish_config else invalid nil_logger

abbrev pub contains_colon : Text → Bool
contains_colon s = any (λ c. nat_beq c b':') s

-- The loop of `GetHTTPPort`: the first IPv4 port and the fallback, each 0 where there is none.
unfoldable pub find_ports : List ListenAddress → ℤ → ℤ × ℤ
find_ports [] fallback = (pos 0, fallback)
find_ports (addr ∷ addresses) fallback = elim (leb_ℤ addr.port (pos 0)) [
  | true ↦ find_ports addresses fallback
  | false ↦ elim (contains_colon addr.address) [
    | false ↦ (addr.port, fallback)
    | true ↦ find_ports addresses (if int_beq fallback (pos 0) then addr.port else fallback)
  ]
]

pub data HttpPort : Type 0 where
  port : ℤ → HttpPort
  no_http_address unanswered : HttpPort

abbrev pub choose_port : ℤ × ℤ → HttpPort
choose_port (ipv4, fallback) =
    if not (leb_ℤ ipv4 (pos 0))
    then port ipv4
    else if not (leb_ℤ fallback (pos 0))
    then port fallback
    else no_http_address

unfoldable pub port_answer : {W : Type 0} → Answer (List ListenAddress) × W → HttpPort × W
unfolding find_ports
port_answer (answered addresses, w) = (choose_port (find_ports addresses (pos 0)), w)
port_answer (lost, w) = (unanswered, w)
port_answer (unread, w) = (unanswered, w)
port_answer (crashed, w) = (unanswered, w)
port_answer (refused s t, w) = (unanswered, w)

-- `GetHTTPPort`
unfoldable pub get_http_port :
    {W : Type 0} → (Text → W → Option VarnishResponse × W) → W → HttpPort × W
unfolding debug_listen_address_structured port_answer
get_http_port exec w = port_answer (debug_listen_address_structured exec w)
