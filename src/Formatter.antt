-- ===== src/Formatter.antt =====
-- pkg/formatter/vcl_formatter.go: the source of a VCL with its executed lines or its entered blocks.
pub mod Message
pub mod Numbered
pub mod Shown
pub mod Failure
mod Samples
use vcltest.Base.{
  Bool, true, false, ◌||◌, ◌&&◌, Option, none, some, List, [], ◌∷◌, ◌++◌, ℕ, zero, suc, ◌+◌, ◌-◌,
  length, contains, if◌then◌else◌, any, map,
}
use vcltest.Base.Int.{ℤ, int_eq, pos}
use vcltest.Base.Map.{Map, lookup}
use vcltest.Base.Text.{Text, codes, lines, decimal, join}
use vcltest.Coverage.{
  Block, Blocks, block, nil, cons, FileBlocks, Header, BlockType, sub, if_, elseif, else_, header,
  get_line_status,
}
use vcltest.Coverage.Matcher.{get_entered_blocks, get_not_entered_blocks}
use vcltest.Varnishadm.Commands.{itoa}

abbrev pub color_reset : Text
color_reset = 27 ∷ codes "[0m"

abbrev pub color_green : Text
color_green = 27 ∷ codes "[32m"

abbrev pub color_gray : Text
color_gray = 27 ∷ codes "[90m"

abbrev pub color_red : Text
color_red = 27 ∷ codes "[31m"

abbrev pub color_yellow : Text
color_yellow = 27 ∷ codes "[33m"

abbrev pub color_bold : Text
color_bold = 27 ∷ codes "[1m"

-- The check mark and the cross, each with a space, in UTF-8.
abbrev pub check_mark : Text
check_mark = 226 ∷ 156 ∷ 147 ∷ b' ' ∷ []

abbrev pub cross : Text
cross = 226 ∷ 156 ∷ 151 ∷ []

abbrev pub no_mark : Text
no_mark = codes "  "

abbrev pub spaces : ℕ → Text
spaces zero = []
spaces (suc n) = b' ' ∷ spaces n

-- `%3d` and `%4d`
unfoldable pub pad_number : ℕ → ℕ → Text
unfolding decimal
pad_number width n = spaces (width - length (decimal n)) ++ decimal n

-- A line behind its mark and its number.
unfoldable pub numbered : ℕ → Text → ℕ → Text → Text
unfolding pad_number
numbered width mark n line = mark ++ (pad_number width n ++ (codes " | " ++ line))

abbrev pub in_color : Text → Text → Text
in_color color text = color ++ text ++ color_reset

-- The loop over the lines, with the number of the next one.
unfoldable pub each_line : (ℕ → Text → Text) → ℕ → List Text → Text
each_line f n [] = []
each_line f n (line ∷ rest) = f n line ++ b'\n' ∷ each_line f (n + 1) rest

unfoldable pub trace_line : Bool → Bool → ℕ → Text → Text
unfolding numbered
trace_line true true n line = in_color color_green (numbered 3 check_mark n line)
trace_line true false n line = in_color color_gray (numbered 3 no_mark n line)
trace_line false executed n line = numbered 3 (if executed then check_mark else no_mark) n line

-- `FormatVCLWithTrace`
unfoldable pub format_vcl_with_trace : Text → List ℤ → Bool → Text
unfolding each_line trace_line lines contains
format_vcl_with_trace source executed use_color =
    each_line (λ n line. trace_line use_color (contains executed (pos n)) n line) 1 (lines source)

-- The status of a line: `none` outside of every block.
unfoldable pub block_line : Bool → Option Bool → ℕ → Text → Text
unfolding numbered
block_line true none n line = numbered 4 no_mark n line
block_line true (some true) n line = in_color color_green (numbered 4 (codes "* ") n line)
block_line true (some false) n line = in_color color_gray (numbered 4 no_mark n line)
block_line false (some true) n line = numbered 4 (codes "* ") n line
block_line false _ n line = numbered 4 no_mark n line

unfoldable pub status_of : Option FileBlocks → Map ℤ Bool
unfolding get_line_status
status_of none = []
status_of (some blocks) = get_line_status blocks

-- `FormatVCLWithBlocks`
unfoldable pub format_vcl_with_blocks : Text → Option FileBlocks → Bool → Text
unfolding each_line block_line lines lookup status_of
format_vcl_with_blocks source blocks use_color =
    let status = status_of blocks in
    each_line (λ n line. block_line use_color (lookup (pos n) status) n line) 1 (lines source)
