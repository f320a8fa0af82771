-- ===== src/Varnishadm/Frame.antt =====
-- A response of the administration protocol as `readFromConnection` of pkg/varnishadm/varnishadm.go
-- takes it from the connection. The input is what arrives before the connection closes or the
-- deadline passes; the errors of setting the deadline are left out.
use vcltest.Base.{
  Option, none, some, [], ◌∷◌, ◌++◌, ℕ, ◌+◌, ◌≡◌, if◌then◌else◌, ltb, nat_beq, length, take, drop,
  get_elem?,
}
use vcltest.Base.Int.{ℤ, pos, negsuc}
use vcltest.Base.Text.{Text, trim_space, atoi}

-- What the caller gets, with the errors by their kinds. `panics` is the run-time error at a body
-- length below 0, for which there is no slice.
pub data ReadResult : Type 0 where
  ok : Text → ℤ → ReadResult
  short_header : ReadResult
  missing_space : ReadResult
  missing_newline : ReadResult
  invalid_status : Text → ReadResult
  invalid_length : Text → ReadResult
  panics : ReadResult
  short_body : ReadResult
  missing_trailing_newline : ReadResult

-- `s[i]`, 0 behind the end.
abbrev pub byte_or : Option ℕ → ℕ
byte_or none = 0
byte_or (some c) = c

abbrev pub byte_at : ℕ → Text → ℕ
byte_at i s = byte_or (get_elem? s i)

-- The last step takes `body_len + 1` bytes.
abbrev pub read_body : Text → ℤ → ℤ → ReadResult
read_body s status (pos body_len) =
    if ltb (length s) (body_len + 1)
    then short_body
    else if nat_beq (byte_at body_len s) b'\n'
    then ok (take body_len s) status
    else missing_trailing_newline
read_body s status (negsuc n) = panics

abbrev pub read_length : Text → ℤ → Text → Option ℤ → ReadResult
read_length s status text none = invalid_length text
read_length s status text (some body_len) = read_body s status body_len

unfoldable pub read_status : Text → Text → Text → Option ℤ → ReadResult
unfolding atoi trim_space
read_status s header text none = invalid_status text
read_status s header text (some status) =
    let length_text = trim_space (take 8 (drop 4 header)) in
    read_length s status length_text (atoi length_text)

-- The 13 bytes of the header and what follows them.
unfoldable pub read_header : Text → Text → ReadResult
unfolding atoi trim_space read_status
read_header header s =
    if nat_beq (byte_at 3 header) b' '
    then if nat_beq (byte_at 12 header) b'\n'
      then read_status s header (trim_space (take 3 header)) (atoi (trim_space (take 3 header)))
      else missing_newline
    else missing_space

unfoldable pub read_from_connection : Text → ReadResult
unfolding read_header
read_from_connection input =
    if ltb (length input) 13 then short_header else read_header (take 13 input) (drop 13 input)

abbrev pub header_of : Text → Text → Text
header_of status body_len = status ++ (b' ' ∷ (body_len ++ b'\n' ∷ []))

-- The bytes of a response: the header, the body and a newline, before what else has arrived. The
-- fields of the header spell the status and the length of the body.
unfoldable pub IsResponse : Text → Text → ℤ → Type 0
unfolding atoi trim_space
IsResponse input body status =
    (st : Text) × (ln : Text) × (rest : Text) × (length st ≡ 3)
    × (length ln ≡ 8)
    × (atoi (trim_space st) ≡ some status)
    × (atoi (trim_space ln) ≡ some (pos (length body)))
    × (input ≡ header_of st ln ++ (body ++ b'\n' ∷ rest))
