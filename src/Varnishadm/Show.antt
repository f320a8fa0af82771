-- ===== src/Varnishadm/Show.antt =====
-- The output of `vcl.show -v` as parseVCLShow of pkg/varnishadm/parsers.go cuts it into files.
use vcltest.Base.{
  Bool, not, Option, none, some, List, [], ◌∷◌, ◌++◌, ℕ, zero, suc, ◌+◌, ◌^◌, if◌then◌else◌, leb,
  nat_beq, ◌||◌, ◌&&◌, length, take, drop,
}
use vcltest.Base.Int.{ℤ, pos, negsuc, int_eq}
use vcltest.Base.Map.{Map, insert}
use vcltest.Base.Text.{Text, codes, is_empty, has_prefix, trim_space, atoi}
use vcltest.Runner.{VclConfigEntry, VclShowResult}

-- `\s` of Go's regular expressions.
abbrev pub re_space : ℕ → Bool
re_space c = nat_beq c 32 || (nat_beq c 9 || (nat_beq c 10 || (nat_beq c 12 || nat_beq c 13)))

abbrev pub is_digit : ℕ → Bool
is_digit c = leb b'0' c && leb c b'9'

-- The longest prefix of bytes that pass, and what follows it.
unfoldable pub span : (ℕ → Bool) → Text → Text × Text
span p [] = ([], [])
span p (c ∷ s) = let rest = span p s in if p c then (c ∷ rest.0, rest.1) else ([], c ∷ s)

abbrev pub some_text : Text × Text → Option (Text × Text)
some_text ([], s) = none
some_text (c ∷ w, s) = some (c ∷ w, s)

-- A class of bytes once or more.
unfoldable pub many : (ℕ → Bool) → Text → Option (Text × Text)
unfolding span
many p s = some_text (span p s)

unfoldable pub literal : Text → Text → Option Text
unfolding has_prefix
literal w s = if has_prefix s w then some (drop (length w) s) else none

-- `\s+(.+)$` up to the white space at the ends, which is trimmed.
unfoldable pub name_of : Text → Option Text
name_of (c ∷ d ∷ s) = if re_space c then some (d ∷ s) else none
name_of _ = none

infixl 5 ◌>>=◌
abbrev pub ◌>>=◌ : {A B : Type 0} → Option A → (A → Option B) → Option B
none >>= f = none
some a >>= f = f a

-- `^//\s+VCL\.SHOW\s+(\d+)\s+(\d+)\s+(.+)$`: the two numbers and the name.
unfoldable pub match_header : Text → Option (Text × Text × Text)
unfolding many literal name_of
match_header line = do
  after_slashes ← literal (codes "//") line
  (w, keyword) ← many re_space after_slashes
  after_keyword ← literal (codes "VCL.SHOW") keyword
  (x, numbers) ← many re_space after_keyword
  (id, after_id) ← many is_digit numbers
  (y, sizes) ← many re_space after_id
  (size, after_size) ← many is_digit sizes
  name ← name_of after_size
  some (id, size, name)

-- The errors of a number out of range, and the run-time error of a slice whose end has overflowed.
pub data ShowResult (A : Type 0) : Type 0 where
  shown : A → ShowResult A
  invalid_config_id : Text → ShowResult A
  invalid_size : Text → ShowResult A
  panics : ShowResult A

abbrev pub and_then : {A B : Type 0} → (A → B) → ShowResult A → ShowResult B
and_then f (shown a) = shown (f a)
and_then f (invalid_config_id t) = invalid_config_id t
and_then f (invalid_size t) = invalid_size t
and_then f panics = panics

abbrev pub Entries : Type 0
Entries = ShowResult (List VclConfigEntry)

unfoldable pub entry_of : ℤ → ℤ → Text → Text → VclConfigEntry
unfolding trim_space
entry_of id size name content = record {
  config_id = id;
  size = size;
  filename = trim_space name;
  source = content;
}

-- The content of a file is `size` bytes from `content_start`, or what there is of them; `rest` is the
-- payload from there on, and `next` reads on from a position. The sum has 64 bits: when it
-- overflows, it is negative.
unfoldable pub take_content : (ℕ → Text → Entries) → ℕ → Text → ℤ → Text → ℤ → Entries
unfolding entry_of
take_content next content_start rest id name (pos size) =
    if leb (2 ^ 63) (content_start + size)
    then panics
    else and_then (λ es. entry_of id (pos size) name (take size rest) ∷ es)
        (next (content_start + size) (drop size rest))
take_content next content_start rest id name (negsuc n) = panics

unfoldable pub read_entry :
    (ℕ → Text → Entries) → ℕ → Text → Text × Text × Text → Option ℤ → Option ℤ → Entries
unfolding take_content
read_entry next content_start rest (id, size, name) none n = invalid_config_id id
read_entry next content_start rest (id, size, name) (some config_id) none = invalid_size size
read_entry next content_start rest (id, size, name) (some config_id) (some n) =
    take_content next content_start rest config_id name n

abbrev pub in_line : ℕ → Bool
in_line c = not (nat_beq c b'\n')

-- A line is a header or skipped. `line` ends before the newline, and `tail` starts with it.
unfoldable pub read_line :
    (ℕ → Text → Entries) → ℕ → Text → Text → Option (Text × Text × Text) → Entries
unfolding read_entry atoi
read_line next at line tail none = next (at + length line + 1) (drop 1 tail)
read_line next at line tail (some (id, size, name)) =
    read_entry next (at + length line + (if is_empty tail then 0 else 1)) (drop 1 tail)
      (id, size, name) (atoi id) (atoi size)

unfoldable pub read_cut : (ℕ → Text → Entries) → ℕ → Text × Text → Entries
unfolding match_header read_line
read_cut next at (line, tail) = read_line next at line tail (match_header line)

-- The loop at the position `at`; `fuel` bounds the lines.
unfoldable pub parse_from : ℕ → ℕ → Text → Entries
unfolding span read_cut
parse_from zero at s = shown []
parse_from (suc fuel) at [] = shown []
parse_from (suc fuel) at (c ∷ s) = read_cut (parse_from fuel) at (span in_line (c ∷ s))

unfoldable pub config_map_of : List VclConfigEntry → Map ℤ Text → Map ℤ Text
unfolding insert
config_map_of [] m = m
config_map_of (e ∷ es) m = config_map_of es (insert e.config_id e.filename m)

unfoldable pub sources_of : List VclConfigEntry → Text
sources_of [] = []
sources_of (e ∷ es) = e.source ++ sources_of es

abbrev pub result_of : List VclConfigEntry → VclShowResult
unfolding config_map_of sources_of
result_of es = record { entries = es; config_map = config_map_of es []; vcl_source = sources_of es }

-- No line is shorter than one byte, so the length of the payload bounds their number.
unfoldable pub parse_vcl_show : Text → ShowResult VclShowResult
unfolding parse_from result_of
parse_vcl_show payload = and_then result_of (parse_from (length payload) 0 payload)
