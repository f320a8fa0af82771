-- ===== src/Varnishadm/Lists.antt =====
-- pkg/varnishadm/parsers.go: the lists of VCLs and of certificates.
use vcltest.Base.{
  Bool, true, false, Option, none, some, List, [], ◌∷◌, ◌++◌, ℕ, ◌||◌, ◌&&◌, not, nat_beq,
  if◌then◌else◌,
}
use vcltest.Base.Int.{ℤ, pos}
use vcltest.Base.Map.{get_or}
use vcltest.Base.Text.{
  Text, codes, is_empty, text_beq, fields, lines, join, trim_space, contains_text, to_lower, atoi,
}
use vcltest.Varnishadm.{VarnishResponse, TlsCertEntry}
use vcltest.Varnishadm.Commands.{Answer, or_unread, read_answer, tls_cert_list, vcl_list}
use vcltest.Varnishadm.Show.{many, is_digit, re_space, span, literal, ◌>>=◌}

abbrev pub add_entry : {A : Type 0} → Option A → Option (List A) → Option (List A)
add_entry (some a) (some as') = some (a ∷ as')
add_entry _ _ = none

-- Reading a list fails with a line that cannot be read; a line of white space is skipped.
unfoldable pub parse_entries : {A : Type 0} → (Text → Option A) → List Text → Option (List A)
unfolding trim_space
parse_entries parse [] = some []
parse_entries parse (line ∷ rest) =
    let entries = parse_entries parse rest in
    if is_empty (trim_space line) then entries else add_entry (parse (trim_space line)) entries

unfoldable pub is_on : Text → Bool
unfolding to_lower text_beq
is_on s = text_beq (to_lower s) (codes "enabled") || text_beq (to_lower s) (codes "true")

-- `parseTLSCertLine`, cut into words; the words behind the tenth do not count. `parse_time` is
-- `time.Parse` with its one layout, and a date that it rejects is the zero time.
unfoldable pub cert_of : (Text → Option ℕ) → List Text → Option TlsCertEntry
unfolding join is_on
cert_of parse_time
      (frontend ∷ state ∷ hostname ∷ id ∷ month ∷ day ∷ time ∷ year ∷ zone ∷ ocsp ∷ more) =
    some (record {
      frontend = frontend;
      state = state;
      hostname = hostname;
      certificate_id = id;
      expiration = get_or 0 (parse_time (join (month ∷ day ∷ time ∷ year ∷ zone ∷ []) (codes " ")));
      ocsp_stapling = is_on ocsp;
    })
cert_of parse_time _ = none

unfoldable pub parse_tls_cert_line : (Text → Option ℕ) → Text → Option TlsCertEntry
unfolding cert_of fields
parse_tls_cert_line parse_time line = cert_of parse_time (fields line)

-- The heading is skipped where there is one.
unfoldable pub without_heading : List Text → List Text
unfolding contains_text
without_heading [] = []
without_heading (line ∷ rest) = if contains_text line (codes "Frontend") then rest else line ∷ rest

-- `parseTLSCertList`
unfoldable pub parse_tls_cert_list : (Text → Option ℕ) → Text → Option (List TlsCertEntry)
unfolding parse_entries without_heading lines trim_space parse_tls_cert_line
parse_tls_cert_list parse_time payload =
    parse_entries (parse_tls_cert_line parse_time) (without_heading (lines (trim_space payload)))

pub record VclEntry : Type 0 where
  pub name : Text
  pub status : Text
  pub temperature : Text
  pub labels : ℤ
  pub label_target : Text
  pub returns : ℤ

abbrev closed : Text × Text → Option Text → Option Text
closed (c ∷ w, d ∷ s) later = some (c ∷ w)
closed _ later = later

abbrev or_later : Option Text → Option Text → Option Text
or_later none later = later
or_later (some t) later = some t

-- Digits, white space, then the word.
abbrev counted : Text → Text → Option Text
unfolding many literal
counted word s = do
  (number, behind) ← many is_digit s
  (space, rest) ← many re_space behind
  end ← literal word rest
  some number

abbrev number_or_zero : Option Text → ℤ
unfolding atoi
number_or_zero none = pos 0
number_or_zero (some t) = get_or (pos 0) (atoi t)

-- `\(([^)]+)\)`: the first part in parentheses that is not empty.
unfoldable pub in_parentheses : Text → Option Text
unfolding span
in_parentheses [] = none
in_parentheses (c ∷ s) =
    let later = in_parentheses s in
    if nat_beq c b'(' then closed (span (λ d. not (nat_beq d b')')) s) later else later

-- `(\d+)\s+word`: the first number in front of the word.
unfoldable pub number_before : Text → Text → Option Text
unfolding many literal
number_before word [] = none
number_before word (c ∷ s) = or_later (counted word (c ∷ s)) (number_before word s)

-- The number, 0 where there is none or `Atoi` rejects it.
unfoldable pub count_of : Text → Text → ℤ
unfolding number_before atoi contains_text
count_of word inner =
    if contains_text inner word then number_or_zero (number_before word inner) else pos 0

-- `parseParenthesesContent`
unfoldable pub parse_parentheses_content : Text → ℤ × ℤ
unfolding in_parentheses count_of
parse_parentheses_content content = elim (in_parentheses content) [
  | none ↦ (pos 0, pos 0)
  | some inner ↦ (count_of (codes "label") inner, count_of (codes "return") inner)
]

-- The words of the name, up to the first one with a parenthesis, and what follows.
abbrev pub name_parts : List Text → List Text × List Text
unfolding contains_text
name_parts [] = ([], [])
name_parts (p ∷ ps) =
    let (names, rest) = name_parts ps in
    if contains_text p (codes "(") then ([], p ∷ ps) else (p ∷ names, rest)

-- `strings.Split(s, "->")`, with the part in hand.
unfoldable pub split_arrow : Text → Text → List Text
split_arrow w [] = w ∷ []
split_arrow w (c ∷ []) = (w ++ c ∷ []) ∷ []
split_arrow w (c ∷ d ∷ s) = elim (nat_beq c b'-' && nat_beq d b'>') [
  | true ↦ w ∷ split_arrow [] s
  | false ↦ split_arrow (w ++ c ∷ []) (d ∷ s)
]

abbrev pub labelled : VclEntry → List Text → VclEntry
unfolding trim_space
labelled entry (name ∷ target ∷ []) = record entry {
  name = trim_space name;
  label_target = trim_space target;
}
labelled entry _ = entry

-- A name with an arrow is a label and its target; one with two arrows leaves both empty.
abbrev pub with_name : VclEntry → Text → VclEntry
unfolding contains_text split_arrow trim_space
with_name entry name =
    if contains_text name (codes "->")
    then labelled entry (split_arrow [] name)
    else record entry { name = name }

-- Without parentheses the name is all that is left, an arrow in it included.
abbrev pub with_rest : VclEntry → List Text × List Text → VclEntry
unfolding join contains_text split_arrow trim_space parse_parentheses_content
with_rest entry (names, []) = record entry { name = join names (codes " ") }
with_rest entry (names, p ∷ ps) =
    let (labels, returns) = parse_parentheses_content (join (p ∷ ps) (codes " ")) in
    record (with_name entry (join names (codes " "))) { labels = labels; returns = returns }

abbrev pub vcl_of : List Text → Option VclEntry
unfolding join contains_text split_arrow trim_space parse_parentheses_content
vcl_of (status ∷ temperature ∷ dash ∷ p ∷ ps) = some (
    with_rest
      (record {
        name = [];
        status = status;
        temperature = temperature;
        labels = pos 0;
        label_target = [];
        returns = pos 0;
      })
      (name_parts (p ∷ ps)))
vcl_of _ = none

-- `parseVCLLine` and `parseVCLList`
unfoldable pub parse_vcl_line : Text → Option VclEntry
unfolding fields join contains_text split_arrow trim_space parse_parentheses_content
parse_vcl_line line = vcl_of (fields line)

unfoldable pub parse_vcl_list : Text → Option (List VclEntry)
unfolding parse_entries parse_vcl_line lines trim_space
parse_vcl_list payload = parse_entries parse_vcl_line (lines (trim_space payload))

module _ {W : Type 0} (exec : Text → W → Option VarnishResponse × W) where
  -- `VCLListStructured` and `TLSCertListStructured`
  unfoldable pub vcl_list_structured : W → Answer (List VclEntry) × W
  unfolding read_answer parse_vcl_list
  vcl_list_structured w = read_answer (λ t. or_unread (parse_vcl_list t)) (vcl_list exec w)

  unfoldable pub tls_cert_list_structured : (Text → Option ℕ) → W → Answer (List TlsCertEntry) × W
  unfolding read_answer parse_tls_cert_list
  tls_cert_list_structured parse_time w =
      read_answer (λ t. or_unread (parse_tls_cert_list parse_time t)) (tls_cert_list exec w)
