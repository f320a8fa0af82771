-- ===== src/Varnishadm/Samples.antt =====
-- Runs of the mock of the administration server.
use vcltest.Base.{none, List, [], ◌∷◌, ℕ, ◌≡◌, refl, map, All, arith, ◌↔◌, false}
use vcltest.Base.Int.{ℤ, pos}
use vcltest.Base.Text.{text_beq, Text, text_eq, codes}
use vcltest.Varnishadm.{
  error_response, MockVarnishadm, TlsCertEntry, new_cert, exec, respond, clis_ok, clis_unknown,
  set_response, set_tls_state,
}
use vcltest.Varnishadm.Store.{
  Command, load, discard, commit, rollback, other, Store, Describes, describe_all, exec_all,
  HasNoErrors, IsCommand,
}
use vcltest.Varnishadm.Transactions.{exec_all_correct}
use vcltest.Varnishadm.Frame.{ok, panics, short_body, read_from_connection, IsResponse}
use vcltest.Varnishadm.Show
use vcltest.Varnishadm.Show.{shown, result_of, parse_vcl_show}
use vcltest.Varnishadm.Listing.{Listed, listing, IsListed, entry_listed, parse_vcl_show-listing}
use vcltest.Varnishadm.Response.{read_from_connection_iff}
use vcltest.Varnishadm.Enough.{loop, parse_from-loop}
use vcltest.Varnishadm.Lists.{parse_vcl_list}
use vcltest.Base.{some}
use vcltest.Base.{◌≤◌, Option}
use vcltest.Base.Text.{join}
use vcltest.Base.Map.{lookup}
use vcltest.Varnishadm.Commands.{answered}
use vcltest.Varnishadm.Lists.{tls_cert_list_structured}
use vcltest.Varnishadm.Certificates.{
  IsDate, shown_cert, mock_exec, tls_cert_list_structured-mock_exec,
}

abbrev mock : MockVarnishadm
mock = record {
  responses = [];
  call_history = [];
  tls_certs_committed = [];
  tls_certs_staged = [];
  tls_transaction = false;
}

abbrev no_date : ℕ → Text
no_date t = []

abbrev commands : List (ℕ × Command)
commands =
    (0, load (codes "a") (codes "/a.pem"))
    ∷ (1, commit)
    ∷ (2, discard (codes "a"))
    ∷ (3, load (codes "b") (codes "/b.pem"))
    ∷ (4, rollback)
    ∷ (5, load (codes "b") (codes "/b.pem"))
    ∷ (6, other (codes "ping"))
    ∷ (7, commit)
    ∷ []

commands-IsCommand : All (λ (c : ℕ × Command). IsCommand c.1) commands
unfolding IsCommand
commands-IsCommand = ground arith

abbrev empty_store : Store
empty_store = ((λ id. none), (λ id. none))

exec_sample :
    (exec 0 no_date (codes "vcl.use boot") mock).0 ≡ respond clis_ok (codes "VCL 'boot' now active")
unfolding exec vcltest.Varnishadm.dispatch vcltest.Varnishadm.static_response
exec_sample = refl

exec_error_sample :
    (exec 0 no_date
      (codes "tls.cert.commit")
      (set_response (codes "tls.cert.commit") (respond clis_unknown []) mock)).0
    ≡ respond clis_unknown []
unfolding exec set_response
exec_error_sample = refl

list_sample :
    (exec 0 no_date (codes "tls.cert.list") (set_tls_state (new_cert 0 (codes "a") ∷ []) mock)).0
    ≡ respond clis_ok (
        codes
          "Frontend State   Hostname         Certificate ID  Expiration date           OCSP stapling\nmain     active  a                a                                         false")
unfolding exec set_tls_state vcltest.Varnishadm.dispatch vcltest.Varnishadm.by_certificate_id
list_sample = refl

exec_all_sample :
    map (λ (e : Text × TlsCertEntry). e.0) (exec_all no_date commands mock).tls_certs_committed
    ≡ codes "a" ∷ codes "b" ∷ []
unfolding exec_all vcltest.Varnishadm.dispatch vcltest.Varnishadm.load_parts
    vcltest.Varnishadm.load_staged vcltest.Varnishadm.discard_staged
exec_all_sample = refl

exec_all_correct_example :
    Describes (describe_all commands empty_store) (exec_all no_date commands mock)
unfolding HasNoErrors IsCommand Describes
exec_all_correct_example =
    exec_all_correct no_date commands empty_store mock commands-IsCommand (λ cmd. refl)
      ((λ id. refl), (λ id. refl))

abbrev pong : Text
pong = codes "200 4       \nPONG\n"

panics_sample : read_from_connection (codes "200 -1      \nPONG\n") ≡ panics
unfolding read_from_connection
panics_sample = refl

short_body_sample : read_from_connection (codes "200 5       \nPONG\n") ≡ short_body
unfolding read_from_connection
short_body_sample = refl

read_from_connection_iff_example :
    (read_from_connection pong ≡ ok (codes "PONG") (pos 200))
    ↔ IsResponse pong (codes "PONG") (pos 200)
read_from_connection_iff_example = read_from_connection_iff pong (codes "PONG") (pos 200)

pong_sample : read_from_connection pong ≡ ok (codes "PONG") (pos 200)
unfolding read_from_connection
pong_sample = refl

abbrev listed : Text → Text → ℤ → Text → Text → Listed
listed id size n name content = record {
  id_digits = id;
  size_digits = size;
  config_id = n;
  name = name;
  content = content;
}

abbrev files : List Listed
files =
    listed (codes "0") (codes "11") (pos 0) (codes "/main vcl") (codes "vcl 4.1;\n\n\n")
    ∷ listed (codes "12") (codes "0") (pos 12) (codes "<builtin>") []
    ∷ []

files-IsListed : All IsListed files
unfolding IsListed
files-IsListed = ground arith

parse_vcl_show-listing_example :
    parse_vcl_show (listing files) ≡ shown (result_of (map entry_listed files))
unfolding listing
parse_vcl_show-listing_example = parse_vcl_show-listing files files-IsListed (omega arith)

parse_vcl_show_sample : parse_vcl_show (listing files) ≡ shown (result_of (map entry_listed files))
unfolding parse_vcl_show listing
parse_vcl_show_sample = refl

overflow_sample :
    parse_vcl_show (codes "// VCL.SHOW 0 9223372036854775807 main.vcl\nvcl 4.1;") ≡ Show.panics
unfolding parse_vcl_show
overflow_sample = refl

parse_from-loop_example :
    ((fuel : ℕ) → 3 ≤ fuel → Show.parse_from fuel 0 (codes "a\nb") ≡ loop 0 (codes "a\nb"))
    × (loop 0 [] ≡ shown [])
    × ((c : ℕ)
        → loop 0 (c ∷ codes "a\nb")
          ≡ Show.read_cut loop 0 (Show.span Show.in_line (c ∷ codes "a\nb")))
parse_from-loop_example = parse_from-loop 0 (codes "a\nb")

-- The lines of the comments in parsers.go.
parse_vcl_list_sample :
    parse_vcl_list (
      codes
        "active      auto/warm          - vcl-api-orig (1 label)\navailable  label/warm          - label-api -> vcl-api-orig (1 return(vcl))\n")
    ≡ some (
        record {
          name = codes "vcl-api-orig";
          status = codes "active";
          temperature = codes "auto/warm";
          labels = pos 1;
          label_target = [];
          returns = pos 0;
        }
        ∷ record {
          name = codes "label-api";
          status = codes "available";
          temperature = codes "label/warm";
          labels = pos 0;
          label_target = codes "vcl-api-orig";
          returns = pos 1;
        }
        ∷ [])
unfolding parse_vcl_list
parse_vcl_list_sample = refl

abbrev a_date : ℕ → Text
a_date t = codes "Feb 29 13:38:00 2042 GMT"

abbrev a_time : Text → Option ℕ
a_time s = some 5

abbrev a_cert : TlsCertEntry
a_cert = record (new_cert 0 (codes "cert0")) { frontend = []; expiration = 5 }

abbrev with_cert : MockVarnishadm
with_cert = record mock {
  responses =
      (codes "tls.cert.list", record { status_code = 200; payload = codes "No certs" }) ∷ [];
  tls_certs_committed = (codes "cert0", a_cert) ∷ [];
}

join_date :
    a_date 5
    ≡ join
        (codes "Feb" ∷ codes "29" ∷ codes "13:38:00" ∷ codes "2042" ∷ codes "GMT" ∷ [])
        (codes " ")
unfolding join
join_date = refl

no_answer : error_response (lookup (codes "tls.cert.list") with_cert.responses) ≡ none
unfolding lookup text_beq
no_answer = refl

a_date-IsDate : IsDate a_date a_time 5
a_date-IsDate = record {
  month = codes "Feb";
  more = (codes "29", codes "13:38:00", codes "2042", codes "GMT");
  month_word = ground arith;
  more_words = ground arith;
  printed = join_date;
  read = refl;
}

tls_cert_list_structured-mock_exec_example :
    (tls_cert_list_structured (mock_exec a_date a_time 0) a_time with_cert).0
    ≡ answered (shown_cert a_cert ∷ [])
tls_cert_list_structured-mock_exec_example =
    tls_cert_list_structured-mock_exec a_date a_time 0 with_cert no_answer
      ((ground arith, ground arith, ground arith, ground arith, a_date-IsDate), tt)
