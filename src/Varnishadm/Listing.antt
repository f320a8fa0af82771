-- ===== src/Varnishadm/Listing.antt =====
-- The listings that Varnish prints for `vcl.show -v`, against what Show.antt reads from them.
use vcltest.Base.{
  Bool, true, false, some, List, [], ◌∷◌, ◌++◌, ℕ, zero, suc, ◌+◌, ◌^◌, ◌<◌, ◌≤◌, ◌≡◌, ◌≢◌, refl,
  ap, ◌∙◌, if_false, nat_beq, leb, arith, All, length, length-append, All-append, take-append,
  drop-append, map,
}
use vcltest.Base.Int.{ℤ, pos}
use vcltest.Base.Text.{Text, codes, has_prefix, trim_space, atoi}
use vcltest.Runner.{VclConfigEntry}
use vcltest.Varnishadm.Show.{
  re_space, is_digit, span, many, literal, name_of, match_header, shown, and_then, Entries,
  entry_of, take_content, read_entry, in_line, read_line, read_cut, parse_from, result_of,
  parse_vcl_show,
}

-- A file of the listing: the digits of its two numbers, with what they spell.
pub record Listed : Type 0 where
  pub id_digits : Text
  pub size_digits : Text
  pub config_id : ℤ
  pub name : Text
  pub content : Text

abbrev header_line : Listed → Text
header_line f = codes "// VCL.SHOW " ++ (f.id_digits ++ (b' ' ∷ (f.size_digits ++ (b' ' ∷ f.name))))

-- Varnish prints the header, the content and a newline.
unfoldable pub listing : List Listed → Text
listing [] = []
listing (f ∷ fs) = header_line f ++ (b'\n' ∷ (f.content ++ (b'\n' ∷ listing fs)))

abbrev AreDigits : Text → Type 0
AreDigits s = (s ≢ []) × All (λ c. is_digit c ≡ true) s

-- The numbers are decimal, the size is that of the content, and the name is one trimmed line.
unfoldable pub IsListed : Listed → Type 0
unfolding atoi trim_space
IsListed f =
    AreDigits f.id_digits
    × AreDigits f.size_digits
    × (atoi f.id_digits ≡ some f.config_id)
    × (atoi f.size_digits ≡ some (pos (length f.content)))
    × (f.name ≢ [])
    × All (λ c. nat_beq c b'\n' ≡ false) f.name
    × (trim_space f.name ≡ f.name)

abbrev pub entry_listed : Listed → VclConfigEntry
entry_listed f = record {
  config_id = f.config_id;
  size = pos (length f.content);
  filename = f.name;
  source = f.content;
}

span-append :
    (p : ℕ → Bool) (w : Text) (c : ℕ) (s : Text)
    → All (λ d. p d ≡ true) w
    → p c ≡ false
    → span p (w ++ c ∷ s) ≡ (w, c ∷ s)
unfolding span
span-append p [] c s a h = rw h refl
span-append p (d ∷ w) c s (b, a) h = rw (b, span-append p w c s a h) refl

many-append :
    (p : ℕ → Bool) (w : Text) (c : ℕ) (s : Text)
    → w ≢ []
    → All (λ d. p d ≡ true) w
    → p c ≡ false
    → many p (w ++ c ∷ s) ≡ some (w, c ∷ s)
unfolding many
many-append p [] c s n a h = absurd (n refl)
many-append p (d ∷ w) c s n a h = rw (span-append p (d ∷ w) c s a h) refl

re_space-digit : (c : ℕ) → is_digit c ≡ true → re_space c ≡ false
re_space-digit c h = ground arith

name_of-space : (name : Text) → name ≢ [] → name_of (b' ' ∷ name) ≡ some name
unfolding name_of
name_of-space [] h = absurd (h refl)
name_of-space (c ∷ s) h = refl

span-digits : (w s : Text) → AreDigits w → span re_space (w ++ s) ≡ ([], w ++ s)
unfolding span
span-digits [] s (n, a) = absurd (n refl)
span-digits (c ∷ w) s (n, (b, a)) = rw (re_space-digit c b) refl

match_header-line :
    (f : Listed)
    → IsListed f
    → match_header (header_line f) ≡ some (f.id_digits, f.size_digits, f.name)
unfolding match_header IsListed literal has_prefix many span
match_header-line f (i, z, e, g, n, l, t) =
    rw
      (
        span-digits f.id_digits (b' ' ∷ (f.size_digits ++ b' ' ∷ f.name)) i,
        many-append is_digit f.id_digits b' ' (f.size_digits ++ b' ' ∷ f.name) i.0 i.1 refl,
        span-digits f.size_digits (b' ' ∷ f.name) z,
        many-append is_digit f.size_digits b' ' f.name z.0 z.1 refl,
        name_of-space f.name n,
      )
      refl

digits-IsLine : (w : Text) → All (λ c. is_digit c ≡ true) w → All (λ c. in_line c ≡ true) w
digits-IsLine [] a = tt
digits-IsLine (c ∷ w) (b, a) = (ground arith, digits-IsLine w a)

name-IsLine : (w : Text) → All (λ c. nat_beq c b'\n' ≡ false) w → All (λ c. in_line c ≡ true) w
name-IsLine [] a = tt
name-IsLine (c ∷ w) (b, a) = (ground arith, name-IsLine w a)

header_line-IsLine : (f : Listed) → IsListed f → All (λ c. in_line c ≡ true) (header_line f)
unfolding IsListed
header_line-IsLine f (i, z, e, g, n, l, t) = All-append _ (codes "// VCL.SHOW ") _ (ground arith) (
    All-append _ f.id_digits _ (digits-IsLine f.id_digits i.1) (
      refl,
      All-append _ f.size_digits _ (digits-IsLine f.size_digits z.1) (refl, name-IsLine f.name l),
    ))

-- A line that is a header, with its content behind it.
read_cut-header :
    (next : ℕ → Text → Entries) (at : ℕ) (line : Text) (f : Listed) (s : Text)
    → IsListed f
    → match_header line ≡ some (f.id_digits, f.size_digits, f.name)
    → at + length line + 1 + length f.content < 2 ^ 63
    → read_cut next at (line, b'\n' ∷ (f.content ++ s))
      ≡ and_then (λ es. entry_listed f ∷ es) (next (at + length line + 1 + length f.content) s)
unfolding read_cut read_line read_entry take_content entry_of IsListed
read_cut-header next at line f s (i, z, e, g, n, l, t) m b =
    rw (m, e, g, take-append, drop-append, t)
      (if_false (leb (2 ^ 63) (at + length line + 1 + length f.content)) _ _ (ground arith))

read_cut-listed :
    (next : ℕ → Text → Entries) (at : ℕ) (f : Listed) (s : Text)
    → IsListed f
    → at + length (header_line f) + 1 + length f.content < 2 ^ 63
    → read_cut next at (span in_line (header_line f ++ b'\n' ∷ (f.content ++ s)))
      ≡ and_then
          (λ es. entry_listed f ∷ es)
          (next (at + length (header_line f) + 1 + length f.content) s)
read_cut-listed next at f s h b =
    ap (read_cut next at)
      (span-append in_line (header_line f) b'\n' (f.content ++ s) (header_line-IsLine f h) refl)
    ∙ read_cut-header next at (header_line f) f s h (match_header-line f h) b

-- An empty line is skipped.
parse_from-newline :
    (fuel at : ℕ) (s : Text) → parse_from (suc fuel) at (b'\n' ∷ s) ≡ parse_from fuel (at + 1) s
unfolding parse_from span read_cut read_line match_header literal has_prefix
parse_from-newline fuel at s = ap (λ n. parse_from fuel n s) (omega arith)

length-listing :
    (f : Listed) (fs : List Listed)
    → length (listing (f ∷ fs))
      ≡ length (header_line f) + 1 + length f.content + 1 + length (listing fs)
unfolding listing
length-listing f fs =
    length-append (header_line f) (b'\n' ∷ (f.content ++ (b'\n' ∷ listing fs)))
    ∙ omega (arith, length-append f.content (b'\n' ∷ listing fs))

header_line-positive : (f : Listed) → 1 ≤ length (header_line f)
header_line-positive f = omega arith

parse_from-listing :
    (fuel at : ℕ) (fs : List Listed)
    → All IsListed fs
    → length (listing fs) ≤ fuel
    → at + length (listing fs) < 2 ^ 63
    → parse_from fuel at (listing fs) ≡ shown (map entry_listed fs)
unfolding listing parse_from
parse_from-listing zero at [] h l b = refl
parse_from-listing (suc fuel) at [] h l b = refl
parse_from-listing zero at (f ∷ fs) h l b = absurd (omega (arith, l))
parse_from-listing (suc zero) at (f ∷ fs) h l b = absurd (omega (arith, l))
parse_from-listing (suc (suc fuel)) at (f ∷ fs) (h, hs) l b =
    let n = length-listing f fs in
    let p = header_line-positive f in
    let end = at + length (header_line f) + 1 + length f.content in
    read_cut-listed (parse_from (suc fuel)) at f (b'\n' ∷ listing fs) h (omega (arith, n, b))
    ∙ ap (and_then (λ es. entry_listed f ∷ es)) (
        parse_from-newline fuel end (listing fs)
        ∙ parse_from-listing fuel (end + 1) fs hs (omega (arith, n, p, l)) (omega (arith, n, b)))

-- What Varnish prints for a list of files, shorter than 2^63 bytes, is read as exactly these files in
-- their order, with the map of their names and their contents joined. The digits of a file spell its
-- numbers, the size is that of its content, and its name is a text on one line without white space
-- at its ends.
pub parse_vcl_show-listing :
    (fs : List Listed)
    → All IsListed fs
    → length (listing fs) < 2 ^ 63
    → parse_vcl_show (listing fs) ≡ shown (result_of (map entry_listed fs))
unfolding parse_vcl_show
parse_vcl_show-listing fs h b =
    ap (and_then result_of)
      (parse_from-listing (length (listing fs)) 0 fs h (omega arith) (omega (arith, b)))
