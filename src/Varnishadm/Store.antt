-- ===== src/Varnishadm/Store.antt =====
-- A store of certificates as a description of the mock of Varnishadm.antt: what is committed, and
-- what a commit would make of it.
use vcltest.Base.{false, Option, none, some, List, [], ◌∷◌, ◌++◌, ℕ, ◌≡◌, if◌then◌else◌, ◌==◌}
use vcltest.Base.Map.{Map, lookup}
use vcltest.Base.Text.{Text, text_eq, text_beq, codes, has_prefix, spaced, IsWord}
use vcltest.Varnishadm.{
  VarnishResponse, TlsCertEntry, MockVarnishadm, new_cert, exec, error_response,
}

-- A command as its sender writes it.
pub data Command : Type 0 where
  load : Text → Text → Command
  discard : Text → Command
  commit : Command
  rollback : Command
  other : Text → Command

unfoldable pub command_text : Command → Text
unfolding spaced
command_text (load id path) = codes "tls.cert.load" ++ spaced (id ∷ path ∷ [])
command_text (discard id) = codes "tls.cert.discard" ++ spaced (id ∷ [])
command_text commit = codes "tls.cert.commit"
command_text rollback = codes "tls.cert.rollback"
command_text (other cmd) = cmd

-- Identifiers and paths are words, and the other commands are not about certificates.
unfoldable pub IsCommand : Command → Type 0
unfolding has_prefix
IsCommand (load id path) = IsWord id × IsWord path
IsCommand (discard id) = IsWord id
IsCommand commit = Unit
IsCommand rollback = Unit
IsCommand (other cmd) = has_prefix cmd (codes "tls.cert.") ≡ false

-- No error is set as the response to any command.
unfoldable pub HasNoErrors : Map Text VarnishResponse → Type 0
unfolding lookup text_beq
HasNoErrors rs = (cmd : Text) → error_response (lookup cmd rs) ≡ none

-- The described store: the committed certificates, and those that a commit would put there.
abbrev pub Store : Type 0
Store = (Text → Option TlsCertEntry) × (Text → Option TlsCertEntry)

abbrev pub or_cert : Option TlsCertEntry → TlsCertEntry → Option TlsCertEntry
or_cert none c = some c
or_cert (some d) c = some d

-- A certificate is loaded unless its identifier is taken.
unfoldable pub describe : ℕ → Command → Store → Store
unfolding text_beq
describe now (load id path) (c, v) =
    (c, λ j. if id == j then or_cert (v j) (new_cert now id) else v j)
describe now (discard id) (c, v) = (c, λ j. if id == j then none else v j)
describe now commit (c, v) = (v, v)
describe now rollback (c, v) = (c, c)
describe now (other cmd) (c, v) = (c, v)

-- Each command runs at its own time.
unfoldable pub describe_all : List (ℕ × Command) → Store → Store
describe_all [] s = s
describe_all ((now, c) ∷ cs) s = describe_all cs (describe now c s)

unfoldable pub exec_all : (ℕ → Text) → List (ℕ × Command) → MockVarnishadm → MockVarnishadm
unfolding exec command_text
exec_all format_time [] m = m
exec_all format_time ((now, c) ∷ cs) m =
    exec_all format_time cs (exec now format_time (command_text c) m).1

-- What a commit would put in place.
abbrev pub view : MockVarnishadm → Map Text TlsCertEntry
view m = if m.tls_transaction then m.tls_certs_staged else m.tls_certs_committed

unfoldable pub Describes : Store → MockVarnishadm → Type 0
unfolding lookup text_beq
Describes s m =
    ((id : Text) → lookup id m.tls_certs_committed ≡ s.0 id)
    × ((id : Text) → lookup id (view m) ≡ s.1 id)
