-- ===== src/Base/Text.antt =====
-- Go strings as lists of bytes, with the functions of `strings` and `strconv` that the program
-- calls. White space, letters and digits are those of ASCII.
mod Fields
mod Parts
mod Number
unfoldable pub use Fields.{fields, fields_from, split, join, trim_space, lines, spaced}
pub use Fields.{
  IsWord, is_space, fields_word, fields-words, split_last, split_at, split-append, Lacks,
}
pub use Parts.{
  trim_space-words, words-Lacks, no_space-Lacks, fields_then, split-join, join-spaced, join-split,
  split-Lacks,
}
unfoldable pub use Number.{atoi, digits_value, decimal, decimal_digits}
pub use Number.{max_int}
use Prim.Native.Nat.{ℕ, ◌+◌}
use Prim.Native.Char.{code}
use Prim.Native.String.{String}
use mathlib.Core.Path.{◌≡◌, refl}
use mathlib.Core.Bool.{Bool, true, false, ◌&&◌, ◌||◌}
use mathlib.Core.Logic.{◌↔◌}
use mathlib.Core.List.{List, [], ◌∷◌, ◌++◌, map}
use native.Mathlib.Omega.{arith}
use vcltest.Base.Tests.{leb, nat_beq, nat_beq_iff, if◌then◌else◌, Eq, ◌==◌}
use vcltest.Base.Lists.{drop, length}

abbrev pub Text : Type 0
Text = List ℕ

-- The bytes of a literal.
abbrev pub codes : String → Text
codes String.[] = []
codes (String.◌∷◌ c s) = code c ∷ codes s

unfoldable pub text_beq : Text → Text → Bool
text_beq [] [] = true
text_beq (a ∷ s) (b ∷ t) = nat_beq a b && text_beq s t
text_beq _ _ = false

pub text_beq_iff : (s t : Text) → (text_beq s t ≡ true) ↔ (s ≡ t)
unfolding text_beq
text_beq_iff [] [] = ground arith
text_beq_iff [] (b ∷ t) = ground arith
text_beq_iff (a ∷ s) [] = ground arith
text_beq_iff (a ∷ s) (b ∷ t) = ground (arith, text_beq_iff s t, nat_beq_iff a b)

instance abbrev pub text_eq : Eq Text
text_eq = record { is_equal = text_beq; equal_iff = text_beq_iff }

-- `s == ""`
abbrev pub is_empty : Text → Bool
is_empty [] = true
is_empty (c ∷ s) = false

-- `strings.HasPrefix(s, p)`
unfoldable pub has_prefix : Text → Text → Bool
has_prefix s [] = true
has_prefix [] (b ∷ p) = false
has_prefix (a ∷ s) (b ∷ p) = nat_beq a b && has_prefix s p

-- `strings.Contains(s, p)`
unfoldable pub contains_text : Text → Text → Bool
unfolding has_prefix
contains_text [] p = is_empty p
contains_text (a ∷ s) p = has_prefix (a ∷ s) p || contains_text s p

-- `strings.TrimPrefix(s, p)`
unfoldable pub trim_prefix : Text → Text → Text
unfolding has_prefix
trim_prefix s p = if has_prefix s p then drop (length p) s else s

-- `strings.ToLower(s)`
abbrev lower : ℕ → ℕ
lower c = if leb b'A' c && leb c b'Z' then c + 32 else c

unfoldable pub to_lower : Text → Text
to_lower s = map lower s

pub has_prefix-append : (p s : Text) → has_prefix (p ++ s) p ≡ true
unfolding has_prefix
has_prefix-append [] [] = refl
has_prefix-append [] (c ∷ s) = refl
has_prefix-append (a ∷ p) s = ground (arith, nat_beq_iff a a, has_prefix-append p s)
