-- ===== src/Service/Samples.antt =====
-- Runs of the choice of a port.
use vcltest.Base.{some, List, [], ◌∷◌, ◌≡◌, refl, map, Option, arith}
use vcltest.Base.Int.{pos, negsuc}
use vcltest.Base.Text.{Text, codes}
use vcltest.Varnishadm.{VarnishResponse, respond, clis_ok}
use vcltest.Varnishadm.Commands.{port_of}
use vcltest.Service.{HttpPort, port, get_http_port}
use vcltest.Service.Ports.{IsPort}
use vcltest.Service.Listing.{Listed, IsListed, socket_lines, get_http_port-socket_lines}

-- A Unix socket, an IPv6 socket and an IPv4 socket.
abbrev unix_socket : Listed
unix_socket =
    (record { name = codes "a2"; address = codes "/run/v.sock"; port = negsuc 0 }, codes "-")

abbrev ipv6_socket : Listed
ipv6_socket = (record { name = codes "a1"; address = codes "::"; port = pos 41111 }, codes "41111")

abbrev ipv4_socket : Listed
ipv4_socket =
    (record { name = codes "a0"; address = codes "0.0.0.0"; port = pos 42222 }, codes "42222")

abbrev sockets : List Listed
sockets = unix_socket ∷ ipv6_socket ∷ ipv4_socket ∷ []

abbrev listing_exec : Text → Unit {0} → Option VarnishResponse × Unit {0}
listing_exec cmd w = (some (respond clis_ok (socket_lines sockets)), w)

get_http_port_sample : (get_http_port listing_exec tt).0 ≡ port (pos 42222)
unfolding get_http_port socket_lines vcltest.Service.Listing.socket_line vcltest.Service.port_answer
get_http_port_sample = refl

sockets-Listed : vcltest.Base.All IsListed sockets
unfolding port_of
sockets-Listed = ground arith

get_http_port-socket_lines_example :
    IsPort (map (λ s. s.0) sockets) (get_http_port listing_exec tt).0
get_http_port-socket_lines_example =
    get_http_port-socket_lines listing_exec tt tt sockets sockets-Listed refl
