-- ===== src/Varnishadm.antt =====
-- The mock of Varnish's administration server (pkg/varnishadm/mock.go): its state, the handlers of
-- the `tls.cert` commands and `Exec`. A time is a number of seconds; the texts that the list of
-- certificates pads are those of one-byte characters. The mock's listener and its delay are left
-- out.
pub mod Store
pub mod Transactions
pub mod Frame
mod Cuts
pub mod Response
pub mod Show
pub mod Listing
pub mod Commands
pub mod Enough
pub mod Lists
mod Certs
pub mod Certificates
mod Samples
use vcltest.Base.{
  Bool, true, false, not, Option, none, some, List, [], ◌∷◌, ◌++◌, ℕ, ◌+◌, ◌-◌, ◌*◌, length, map,
  if◌then◌else◌, nat_beq, ltb, ◌==◌,
}
use vcltest.Base.Map.{Map, lookup, insert, remove, keys, is_some}
use vcltest.Base.Text.{
  Text, text_eq, codes, fields, join, has_prefix, trim_prefix, is_empty, text_beq,
}

abbrev pub clis_unknown : ℕ
clis_unknown = 101

abbrev pub clis_ok : ℕ
clis_ok = 200

pub record VarnishResponse : Type 0 where
  pub status_code : ℕ
  pub payload : Text

pub record TlsCertEntry : Type 0 where
  frontend : Text
  state : Text
  hostname : Text
  certificate_id : Text
  expiration : ℕ
  ocsp_stapling : Bool

pub record MockVarnishadm : Type 0 where
  responses : Map Text VarnishResponse
  call_history : List Text
  tls_certs_committed : Map Text TlsCertEntry
  tls_certs_staged : Map Text TlsCertEntry
  tls_transaction : Bool

abbrev pub respond : ℕ → Text → VarnishResponse
respond s p = record { status_code = s; payload = p }

abbrev pub Handled : Type 0
Handled = VarnishResponse × MockVarnishadm

-- A transaction starts with a copy of the committed certificates.
unfoldable pub begin : MockVarnishadm → MockVarnishadm
begin m =
    if m.tls_transaction
    then m
    else record m { tls_certs_staged = m.tls_certs_committed; tls_transaction = true }

abbrev pub new_cert : ℕ → Text → TlsCertEntry
new_cert now id = record {
  frontend = codes "main";
  state = codes "active";
  hostname = id;
  certificate_id = id;
  expiration = now + 90 * 24 * 3600;
  ocsp_stapling = false;
}

abbrev pub load_staged : ℕ → Text → MockVarnishadm → Handled
unfolding lookup insert text_beq
load_staged now id m =
    if is_some (lookup id m.tls_certs_staged)
    then (respond 300 (codes "Id: \"" ++ id ++ codes "\" already exists"), m)
    else (
      respond clis_ok (codes "Certificate " ++ id ++ codes " loaded"),
      record m { tls_certs_staged = insert id (new_cert now id) m.tls_certs_staged },
    )

abbrev pub load_parts : ℕ → List Text → MockVarnishadm → Handled
unfolding begin
load_parts now (command ∷ id ∷ path ∷ more) m = load_staged now id (begin m)
load_parts now _ m = (respond clis_unknown (codes "Usage: tls.cert.load <id> <path>"), m)

unfoldable pub handle_tls_cert_load : ℕ → Text → MockVarnishadm → Handled
unfolding fields
handle_tls_cert_load now cmd m = load_parts now (fields cmd) m

abbrev pub discard_staged : Text → MockVarnishadm → Handled
unfolding lookup remove text_beq
discard_staged id m =
    if not (is_some (lookup id m.tls_certs_staged))
    then (respond 300 (codes "Certificate \"" ++ id ++ codes "\" not found"), m)
    else (
      respond clis_ok (codes "Certificate " ++ id ++ codes " discarded"),
      record m { tls_certs_staged = remove id m.tls_certs_staged },
    )

abbrev pub discard_parts : List Text → MockVarnishadm → Handled
unfolding begin
discard_parts (command ∷ id ∷ more) m = discard_staged id (begin m)
discard_parts _ m = (respond clis_unknown (codes "Usage: tls.cert.discard <id>"), m)

unfoldable pub handle_tls_cert_discard : Text → MockVarnishadm → Handled
unfolding fields
handle_tls_cert_discard cmd m = discard_parts (fields cmd) m

unfoldable pub handle_tls_cert_commit : MockVarnishadm → Handled
handle_tls_cert_commit m =
    if not m.tls_transaction then (respond clis_ok (codes "No changes to commit"), m) else (
      respond clis_ok (codes "TLS certificates committed"),
      record m {
        tls_certs_committed = m.tls_certs_staged;
        tls_certs_staged = [];
        tls_transaction = false;
      },
    )

unfoldable pub handle_tls_cert_rollback : MockVarnishadm → Handled
handle_tls_cert_rollback m =
    if not m.tls_transaction then (respond clis_ok (codes "No changes to rollback"), m) else (
      respond clis_ok (codes "TLS certificate changes rolled back"),
      record m { tls_certs_staged = []; tls_transaction = false },
    )

abbrev pub spaces : ℕ → Text
spaces Prim.Native.Nat.zero = []
spaces (Prim.Native.Nat.suc n) = 32 ∷ spaces n

-- `%-8s` and the like: spaces up to the width, which subtraction keeps from falling below 0.
abbrev pub pad : ℕ → Text → Text
pad width s = s ++ (spaces (width - length s) ++ codes " ")

-- The line of one certificate; `format_time` is Go's formatting of the expiration date.
abbrev pub cert_line : (ℕ → Text) → Text × TlsCertEntry → Text
cert_line format_time (id, cert) =
    pad 8 (if is_empty cert.frontend then codes "default" else cert.frontend)
    ++ (pad 7 cert.state
        ++ (pad 16 cert.hostname
            ++ (pad 15 cert.certificate_id
                ++ (pad 25 (format_time cert.expiration)
                    ++ (if cert.ocsp_stapling then codes "true" else codes "false")))))

abbrev pub list_heading : Text
list_heading =
    codes
      "Frontend State   Hostname         Certificate ID  Expiration date           OCSP stapling"

unfoldable pub handle_tls_cert_list : (ℕ → Text) → MockVarnishadm → Handled
unfolding join
handle_tls_cert_list format_time m = (
  respond clis_ok
      (join (list_heading ∷ map (cert_line format_time) m.tls_certs_committed) (codes "\n")),
  m,
)

-- The response that a test set for the command, when it is an error.
abbrev pub error_response : Option VarnishResponse → Option VarnishResponse
error_response none = none
error_response (some r) = if nat_beq r.status_code clis_ok then none else some r

-- What `Exec` answers to a command that is none of the certificates'.
unfoldable pub static_response : Text → Option VarnishResponse → VarnishResponse
unfolding has_prefix trim_prefix
static_response cmd (some r) = r
static_response cmd none =
    if has_prefix cmd (codes "vcl.load")
    then respond clis_ok (codes "VCL compiled")
    else if has_prefix cmd (codes "vcl.use")
    then respond clis_ok
        (codes "VCL '" ++ trim_prefix cmd (codes "vcl.use ") ++ codes "' now active")
    else respond clis_unknown (codes "Unknown request: " ++ cmd)

unfoldable pub dispatch : ℕ → (ℕ → Text) → Text → MockVarnishadm → Handled
unfolding has_prefix text_beq lookup handle_tls_cert_load handle_tls_cert_discard
    handle_tls_cert_commit handle_tls_cert_rollback handle_tls_cert_list
dispatch now format_time cmd m =
    if has_prefix cmd (codes "tls.cert.load ")
    then handle_tls_cert_load now cmd m
    else if has_prefix cmd (codes "tls.cert.discard ")
    then handle_tls_cert_discard cmd m
    else if cmd == codes "tls.cert.commit"
    then handle_tls_cert_commit m
    else if cmd == codes "tls.cert.rollback"
    then handle_tls_cert_rollback m
    else if cmd == codes "tls.cert.list"
    then handle_tls_cert_list format_time m
    else (static_response cmd (lookup cmd m.responses), m)

abbrev or_dispatch : Option VarnishResponse → ℕ → (ℕ → Text) → Text → MockVarnishadm → Handled
or_dispatch (some r) now format_time cmd m = (r, m)
or_dispatch none now format_time cmd m = dispatch now format_time cmd m

-- `Exec`; its error is always nil. The delay that a test asks for is left out.
unfoldable pub exec : ℕ → (ℕ → Text) → Text → MockVarnishadm → Handled
unfolding lookup text_beq
exec now format_time cmd m =
    or_dispatch (error_response (lookup cmd m.responses)) now format_time cmd
      (record m { call_history = m.call_history ++ cmd ∷ [] })

unfoldable pub set_response : Text → VarnishResponse → MockVarnishadm → MockVarnishadm
unfolding insert text_beq
set_response cmd r m = record m { responses = insert cmd r m.responses }

unfoldable pub by_certificate_id : List TlsCertEntry → Map Text TlsCertEntry → Map Text TlsCertEntry
unfolding insert text_beq
by_certificate_id [] certs = certs
by_certificate_id (c ∷ cs) certs = by_certificate_id cs (insert c.certificate_id c certs)

unfoldable pub set_tls_state : List TlsCertEntry → MockVarnishadm → MockVarnishadm
set_tls_state certs m = record m {
  tls_certs_committed = by_certificate_id certs [];
  tls_certs_staged = [];
  tls_transaction = false;
}
