-- ===== src/Recorder.antt =====
-- pkg/recorder/types.go and the parsing half of pkg/recorder/recorder.go: lines of varnishlog as
-- messages.
pub mod Parser
pub mod Process
pub mod Lines
pub mod Traces
pub mod Executed
pub mod Backends
mod Samples
use vcltest.Base.{
  Bool, true, false, List, [], ◌∷◌, ℕ, Option, none, some, ltb, leb, ◌==◌, if◌then◌else◌, length,
  drop, filter, get_elem?,
}
use vcltest.Base.Text.{Text, text_eq, codes, fields, lines, join, is_empty}
use vcltest.Base.Map.{get_or}

pub data MessageType : Type 0 where
  vcl_trace vcl_call vcl_return backend_open req_url resp_status req_header resp_header other :
      MessageType

pub record Message : Type 0 where
  pub type : MessageType
  pub content : Text
  pub fields : List Text
  pub raw : Text

-- `fields[i]` behind a test of the length.
abbrev pub field : List Text → ℕ → Text
field fs i = get_or [] (get_elem? fs i)

-- `strings.Join(fields[2:], " ")`
abbrev rest_of : List Text → Text
rest_of fs = join (drop 2 fs) (32 ∷ [])

-- The two ways of setting `Content`, each behind its test of the length.
abbrev rest_if : ℕ → List Text → Text
rest_if n fs = if leb n (length fs) then rest_of fs else []

abbrev third : List Text → Text
third fs = if leb 3 (length fs) then field fs 2 else []

-- The `switch` of `parseLine`: the type and the content.
unfoldable pub classify : Text → List Text → MessageType × Text
unfolding join
classify t fs =
    if t == codes "VCL_trace"
    then (vcl_trace, rest_if 5 fs)
    else if t == codes "VCL_call"
    then (vcl_call, third fs)
    else if t == codes "VCL_return"
    then (vcl_return, third fs)
    else if t == codes "BackendOpen"
    then (backend_open, rest_if 3 fs)
    else if t == codes "ReqURL"
    then (req_url, third fs)
    else if t == codes "RespStatus"
    then (resp_status, third fs)
    else if t == codes "ReqHeader"
    then (req_header, rest_if 3 fs)
    else if t == codes "RespHeader"
    then (resp_header, rest_if 3 fs)
    else (other, [])

abbrev message_of : Text → List Text → MessageType × Text → Message
message_of line fs (t, c) = record { type = t; content = c; fields = fs; raw = line }

-- `parseLine`
unfoldable pub parse_line : Text → Message
unfolding classify
parse_line line =
    let fs = fields line in
    if ltb (length fs) 2
    then record { type = other; content = []; fields = []; raw = line }
    else message_of line fs (classify (field fs 1) fs)

abbrev pub is_other : MessageType → Bool
is_other other = true
is_other _ = false

-- The loop of `parseMessages`.
unfoldable pub parse_lines : List Text → List Message
unfolding parse_line
parse_lines [] = []
parse_lines (l ∷ ls) =
    let rest = parse_lines ls in
    if is_empty l then rest else if is_other (parse_line l).type then rest else parse_line l ∷ rest

-- `parseMessages`
unfoldable pub parse_messages : Text → List Message
unfolding parse_lines
parse_messages output = parse_lines (lines output)

-- `GetMessagesSince`: `none` for a log file that is missing; reading from an offset behind the end
-- gives nothing.
unfoldable pub get_messages_since : Option Text → ℕ → Option (List Message)
unfolding parse_messages
get_messages_since none offset = none
get_messages_since (some log) offset = some (parse_messages (drop offset log))

abbrev pub is_vcl : Message → Bool
is_vcl m = elim m.type [
  | vcl_trace ↦ true
  | vcl_call ↦ true
  | vcl_return ↦ true
  | backend_open ↦ true
  | _ ↦ false
]

-- `GetVCLMessagesSince`
unfoldable pub get_vcl_messages_since : Option Text → ℕ → Option (List Message)
unfolding get_messages_since
get_vcl_messages_since log offset = elim (get_messages_since log offset) [
  | none ↦ none
  | some ms ↦ some (filter is_vcl ms)
]
