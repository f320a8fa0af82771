-- ===== src/Varnishadm/Commands.antt =====
-- pkg/varnishadm/commands.go: what each command sends, and how an answer is read. `exec` sends a line
-- and gives the response, or `none` where the connection fails.
use vcltest.Base.{
  Bool, Option, none, some, List, [], ◌∷◌, ◌++◌, ℕ, suc, ◌&&◌, nat_beq, if◌then◌else◌,
}
use vcltest.Base.Int.{ℤ, pos, negsuc}
use vcltest.Base.Text.{Text, codes, text_beq, is_empty, fields, lines, trim_space, atoi, decimal}
use vcltest.Runner.{VclShowResult}
use vcltest.Varnishadm.{VarnishResponse, clis_ok}
use vcltest.Varnishadm.Show
use vcltest.Varnishadm.Show.{shown, parse_vcl_show}

pub data Answer (A : Type 0) : Type 0 where
  answered : A → Answer A
  lost unread crashed : Answer A
  refused : ℕ → Text → Answer A

-- A command whose answer is read: an error of the connection, then a status other than 200.
unfoldable pub read_answer :
    {W A : Type 0} → (Text → Answer A) → Option VarnishResponse × W → Answer A × W
read_answer parse (none, w) = (lost, w)
read_answer parse (some resp, w) =
    if nat_beq resp.status_code clis_ok
    then (parse resp.payload, w)
    else (refused resp.status_code resp.payload, w)

pub record ListenAddress : Type 0 where
  pub name : Text
  pub address : Text
  pub port : ℤ

-- `strings.ReplaceAll(s, "\r\n", "\n")`
unfoldable pub unix_lines : Text → Text
unix_lines [] = []
unix_lines (c ∷ []) = c ∷ []
unix_lines (c ∷ d ∷ s) =
    let rest = unix_lines (d ∷ s) in if nat_beq c b'\r' && nat_beq d b'\n' then rest else c ∷ rest

unfoldable pub split_lines : Text → List Text
unfolding unix_lines lines
split_lines s = lines (unix_lines s)

-- The third field: the port of a socket, -1 for a Unix socket.
unfoldable pub port_of : Text → Option ℤ
unfolding text_beq atoi
port_of s = if text_beq s (codes "-") then some (negsuc 0) else atoi s

unfoldable pub socket_of : List Text → Option ListenAddress
unfolding port_of
socket_of (name ∷ address ∷ port ∷ []) = elim (port_of port) [
  | none ↦ none
  | some p ↦ some (record { name = name; address = address; port = p })
]
socket_of _ = none

-- A line that is not empty, in front of the addresses of the other lines.
abbrev pub add_socket :
    Option ListenAddress → Option (List ListenAddress) → Option (List ListenAddress)
add_socket (some a) (some as') = some (a ∷ as')
add_socket _ _ = none

unfoldable pub parse_sockets : List Text → Option (List ListenAddress)
unfolding trim_space fields socket_of
parse_sockets [] = some []
parse_sockets (line ∷ rest) =
    let sockets = parse_sockets rest in
    if is_empty (trim_space line)
    then sockets
    else add_socket (socket_of (fields (trim_space line))) sockets

-- `parseListenAddresses`
unfoldable pub parse_listen_addresses : Text → Option (List ListenAddress)
unfolding split_lines parse_sockets
parse_listen_addresses payload = parse_sockets (split_lines payload)

abbrev pub or_unread : {A : Type 0} → Option A → Answer A
or_unread none = unread
or_unread (some a) = answered a

-- A panic of the parser ends the program.
abbrev pub of_shown : Show.ShowResult VclShowResult → Answer VclShowResult
of_shown (shown r) = answered r
of_shown (Show.invalid_config_id t) = unread
of_shown (Show.invalid_size t) = unread
of_shown Show.panics = crashed

-- The value of a parameter; `F` are the numbers of 64 bits, a duration counts nanoseconds.
pub data ParamValue (F : Type 0) : Type 0 where
  int_value duration : ℤ → ParamValue F
  bool_value : Bool → ParamValue F
  float_value : F → ParamValue F
  string_value : Text → ParamValue F
  size : ℕ → Text → ParamValue F

-- `strconv.Itoa`
unfoldable pub itoa : ℤ → Text
unfolding decimal
itoa (pos n) = decimal n
itoa (negsuc n) = b'-' ∷ decimal (suc n)

-- The conversion of `ParamSetTyped`; `format_float` is `FormatFloat` and `format_seconds` prints a
-- duration's seconds without decimals.
unfoldable pub param_text : {F : Type 0} → (F → Text) → (ℤ → Text) → ParamValue F → Text
unfolding decimal itoa
param_text format_float format_seconds (int_value z) = itoa z
param_text format_float format_seconds (duration z) = format_seconds z
param_text format_float format_seconds (bool_value b) = if b then codes "on" else codes "off"
param_text format_float format_seconds (float_value f) = format_float f
param_text format_float format_seconds (string_value t) = t
param_text format_float format_seconds (size n unit) = decimal n ++ unit

-- The end of `ParamSet`: the response comes with an error unless its status is 200.
unfoldable pub param_answer : {W : Type 0} → Option VarnishResponse × W → Answer VarnishResponse × W
param_answer (none, w) = (lost, w)
param_answer (some resp, w) =
    if nat_beq resp.status_code clis_ok
    then (answered resp, w)
    else (refused resp.status_code resp.payload, w)

module _ {W : Type 0} (exec : Text → W → Option VarnishResponse × W) where
  abbrev pub Sent : Type 0
  Sent = W → Option VarnishResponse × W

  -- `Ping`, `Status`, `Start`, `Stop`, `PanicShow` and `PanicClear`
  abbrev ping : Sent
  ping = exec (codes "ping")

  abbrev status : Sent
  status = exec (codes "status")

  abbrev start : Sent
  start = exec (codes "start")

  abbrev stop : Sent
  stop = exec (codes "stop")

  abbrev panic_show : Sent
  panic_show = exec (codes "panic.show")

  abbrev panic_clear : Sent
  panic_clear = exec (codes "panic.clear")

  -- The commands of VCLs.
  abbrev pub vcl_list : Sent
  vcl_list = exec (codes "vcl.list")

  abbrev vcl_load : Text → Text → Sent
  vcl_load name path = exec (codes "vcl.load " ++ name ++ codes " " ++ path)

  abbrev vcl_use : Text → Sent
  vcl_use name = exec (codes "vcl.use " ++ name)

  abbrev vcl_discard : Text → Sent
  vcl_discard name = exec (codes "vcl.discard " ++ name)

  abbrev pub vcl_show : Text → Sent
  vcl_show name = exec (codes "vcl.show -v " ++ name)

  unfoldable vcl_show_structured : Text → W → Answer VclShowResult × W
  unfolding read_answer parse_vcl_show
  vcl_show_structured name w = read_answer (λ t. of_shown (parse_vcl_show t)) (vcl_show name w)

  unfoldable param_set : Text → Text → W → Answer VarnishResponse × W
  unfolding param_answer
  param_set name value w = param_answer (exec (codes "param.set " ++ name ++ codes " " ++ value) w)

  unfoldable param_set_typed :
      {F : Type 0} → (F → Text) → (ℤ → Text) → Text → ParamValue F → W → Answer VarnishResponse × W
  unfolding param_text param_set
  param_set_typed format_float format_seconds name value =
      param_set name (param_text format_float format_seconds value)

  abbrev param_show : Text → Sent
  param_show [] = exec (codes "param.show")
  param_show (c ∷ name) = exec (codes "param.show " ++ c ∷ name)

  -- The commands of TLS certificates, and the ban of everything.
  abbrev pub tls_cert_list : Sent
  tls_cert_list = exec (codes "tls.cert.list")

  abbrev tls_cert_load : Text → Text → Sent
  tls_cert_load name file = exec (codes "tls.cert.load " ++ name ++ codes " " ++ file)

  abbrev tls_cert_discard : Text → Sent
  tls_cert_discard id = exec (codes "tls.cert.discard " ++ id)

  abbrev tls_cert_commit : Sent
  tls_cert_commit = exec (codes "tls.cert.commit")

  abbrev tls_cert_rollback : Sent
  tls_cert_rollback = exec (codes "tls.cert.rollback")

  abbrev tls_cert_reload : Sent
  tls_cert_reload = exec (codes "tls.cert.reload")

  abbrev pub ban_nuke_cache : Sent
  ban_nuke_cache = exec (codes "ban req.url ~ .")

  abbrev pub debug_listen_address : Sent
  debug_listen_address = exec (codes "debug.listen_address")

  unfoldable pub debug_listen_address_structured : W → Answer (List ListenAddress) × W
  unfolding read_answer parse_listen_addresses
  debug_listen_address_structured w =
      read_answer (λ t. or_unread (parse_listen_addresses t)) (debug_listen_address w)
