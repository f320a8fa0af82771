-- ===== src/Service/Listing.antt =====
-- What Varnish prints for `debug.listen_address`, from the text to the port that is taken.
use vcltest.Base.{
  Bool, true, false, Option, none, some, List, [], ◌∷◌, ◌++◌, ℕ, ◌≡◌, ◌≢◌, refl, sym, ap, ◌∙◌,
  subst, nat_beq, All, All-append, append-nil, append_assoc, arith, map, ◌&&◌, if_true, if_false,
}
use vcltest.Base.Int.{pos}
use vcltest.Base.Text.{
  Text, codes, lines, fields, fields-words, trim_space, trim_space-words, words-Lacks, is_space,
  spaced, IsWord, Lacks, split_at, is_empty,
}
use vcltest.Varnishadm.{VarnishResponse, respond, clis_ok}
use vcltest.Varnishadm.Commands.{
  ListenAddress, unix_lines, split_lines, port_of, socket_of, parse_sockets, parse_listen_addresses,
  debug_listen_address_structured, read_answer,
}
use vcltest.Service.{HttpPort, find_ports, choose_port, get_http_port}
use vcltest.Service.Ports.{IsPort, find_ports-Found, choose_port-IsPort}

-- A socket with the text of its port.
abbrev pub Listed : Type 0
Listed = ListenAddress × Text

unfoldable pub socket_line : Listed → Text
unfolding spaced
socket_line (a, t) = a.name ++ spaced (a.address ∷ t ∷ [])

unfoldable pub socket_lines : List Listed → Text
socket_lines [] = []
socket_lines (s ∷ ss) = socket_line s ++ b'\n' ∷ socket_lines ss

-- Three words, of which the last spells the port.
abbrev pub IsListed : Listed → Type 0
IsListed (a, t) = IsWord a.name × IsWord a.address × IsWord t × (port_of t ≡ some a.port)

word_filled : (w s : Text) → IsWord w → is_empty (w ++ s) ≡ false
word_filled [] s (n, h) = absurd (n refl)
word_filled (c ∷ w) s h = refl

module _ (a : ListenAddress) (t : Text) (h : IsListed (a, t)) where
  line-Lacks : (c : ℕ) → is_space c ≡ true → nat_beq 32 c ≡ false → Lacks c (socket_line (a, t))
  unfolding socket_line spaced
  line-Lacks c s n = words-Lacks c a.name (a.address ∷ t ∷ []) s n h.0 (h.1, (h.2, tt))

  line-trimmed : trim_space (socket_line (a, t)) ≡ socket_line (a, t)
  unfolding socket_line spaced
  line-trimmed = rw (append-nil t) (
      ap (λ s. trim_space (a.name ++ s)) (sym (append_assoc (b' ' ∷ a.address) (b' ' ∷ []) t))
      ∙ trim_space-words a.name (b' ' ∷ (a.address ++ b' ' ∷ [])) t h.0 h.2
      ∙ ap (λ s. a.name ++ s) (append_assoc (b' ' ∷ a.address) (b' ' ∷ []) t))

  line_fields : fields (socket_line (a, t)) ≡ a.name ∷ a.address ∷ t ∷ []
  unfolding socket_line spaced
  line_fields = fields-words a.name (a.address ∷ t ∷ []) h.0 (h.1, (h.2, tt))

  line_socket : socket_of (fields (socket_line (a, t))) ≡ some a
  unfolding socket_of
  line_socket = rw (line_fields, h.3, socket_of) refl

  line_filled : is_empty (socket_line (a, t)) ≡ false
  unfolding socket_line spaced
  line_filled = word_filled a.name (spaced (a.address ∷ t ∷ [])) h.0

unix_lines-Lacks : (s : Text) → Lacks b'\r' s → unix_lines s ≡ s
unfolding unix_lines
unix_lines-Lacks [] h = refl
unix_lines-Lacks (c ∷ []) h = refl
unix_lines-Lacks (c ∷ d ∷ s) (p, h) = rw (p, unix_lines-Lacks (d ∷ s) h) refl

socket_lines-Lacks : (ss : List Listed) → All IsListed ss → Lacks b'\r' (socket_lines ss)
unfolding socket_lines
socket_lines-Lacks [] h = tt
socket_lines-Lacks ((a, t) ∷ ss) (p, h) =
    All-append (λ x. nat_beq x b'\r' ≡ false) (socket_line (a, t)) (b'\n' ∷ socket_lines ss)
      (line-Lacks a t p b'\r' refl refl) (refl, socket_lines-Lacks ss h)

parse_sockets-cons :
    (line : Text) (rest : List Text) (a : ListenAddress) (as' : List ListenAddress)
    → is_empty line ≡ false
    → trim_space line ≡ line
    → socket_of (fields line) ≡ some a
    → parse_sockets rest ≡ some as'
    → parse_sockets (line ∷ rest) ≡ some (a ∷ as')
unfolding parse_sockets
parse_sockets-cons line rest a as' n t p q = rw (t, n, p, q) refl

no_sockets : parse_sockets (lines []) ≡ some []
unfolding parse_sockets lines vcltest.Base.Text.split trim_space
no_sockets = refl

parse_sockets-lines :
    (ss : List Listed)
    → All IsListed ss
    → parse_sockets (lines (socket_lines ss)) ≡ some (map (λ s. s.0) ss)
unfolding socket_lines lines
parse_sockets-lines [] h = no_sockets
parse_sockets-lines ((a, t) ∷ ss) (p, h) =
    ap parse_sockets
      (split_at b'\n' (socket_line (a, t)) (socket_lines ss) (line-Lacks a t p b'\n' refl refl))
    ∙ parse_sockets-cons (socket_line (a, t)) (lines (socket_lines ss)) a (map (λ s. s.0) ss)
        (line_filled a t p) (line-trimmed a t p) (line_socket a t p) (parse_sockets-lines ss h)

-- What Varnish lists, each socket on a line of three words, is read back, and the port that requests go
-- to is that of the first socket with an IPv4 address, without one that of the first TCP socket; it
-- is an error exactly where no TCP socket is listed.
pub get_http_port-socket_lines :
    {W : Type 0} (exec : Text → W → Option VarnishResponse × W) (w v : W) (ss : List Listed)
    → All IsListed ss
    → exec (codes "debug.listen_address") w ≡ (some (respond clis_ok (socket_lines ss)), v)
    → IsPort (map (λ s. s.0) ss) (get_http_port exec w).0
unfolding get_http_port debug_listen_address_structured read_answer parse_listen_addresses
    split_lines vcltest.Service.port_answer find_ports
get_http_port-socket_lines exec w v ss h e =
    rw (e, unix_lines-Lacks (socket_lines ss) (socket_lines-Lacks ss h), parse_sockets-lines ss h)
      (choose_port-IsPort (map (λ s. s.0) ss) _ (find_ports-Found (map (λ s. s.0) ss) (pos 0)))
