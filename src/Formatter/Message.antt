-- ===== src/Formatter/Message.antt =====
-- The message of a failed test, from pkg/formatter/vcl_formatter.go.
use vcltest.Base.{
  Bool, true, false, ◌||◌, Option, none, some, List, [], ◌∷◌, ◌++◌, ℕ, zero, suc, ◌+◌, length,
  if◌then◌else◌, any, map,
}
use vcltest.Base.Int.{ℤ, int_eq}
use vcltest.Base.Text.{Text, codes, decimal, join}
use vcltest.Coverage.{
  Block, Blocks, block, nil, cons, FileBlocks, Header, sub, if_, elseif, else_, header,
}
use vcltest.Coverage.Matcher.{get_entered_blocks, get_not_entered_blocks}
use vcltest.Varnishadm.Commands.{itoa}
use vcltest.Formatter.{
  color_reset, color_gray, color_red, color_yellow, color_bold, cross, format_vcl_with_trace,
  format_vcl_with_blocks,
}

-- A label, with the colours in front of it and the reset behind.
abbrev label : Bool → Text → Text → Text
label use_color colors text = if use_color then colors ++ text ++ color_reset else text

abbrev format_title : Bool → Text → Text
format_title use_color name =
    b'\n'
    ∷ (label use_color (color_bold ++ color_red) (codes "FAILED:") ++ b' ' ∷ (name ++ b'\n' ∷ []))

abbrev format_errors : Bool → List Text → Text
format_errors use_color [] = []
format_errors use_color (e ∷ es) =
    codes "  "
    ++ label use_color color_red cross
    ++ b' ' ∷ (e ++ b'\n' ∷ format_errors use_color es)

abbrev format_heading : Bool → Text → Text
format_heading use_color text =
    b'\n' ∷ (label use_color (color_bold ++ color_yellow) text ++ b'\n' ∷ [])

abbrev file_title : Bool → Text → ℤ → Text
unfolding itoa
file_title use_color filename config_id =
    label use_color color_bold (filename ++ codes " (config " ++ itoa config_id ++ codes "):")
    ++ b'\n' ∷ []

abbrev format_backend_calls : Bool → ℕ → Text
unfolding decimal
format_backend_calls use_color calls =
    b'\n'
    ∷ (label use_color color_bold (codes "Backend Calls:") ++ b' ' ∷ (decimal calls ++ b'\n' ∷ []))

pub record VclFileInfo : Type 0 where
  pub config_id : ℤ
  pub filename : Text
  pub source : Text
  pub executed_lines : List ℤ

abbrev pub total_executed : List VclFileInfo → ℕ
total_executed [] = 0
total_executed (f ∷ fs) = length f.executed_lines + total_executed fs

-- The files, with an empty line in front of all but the first.
abbrev format_files : Bool → Bool → List VclFileInfo → Text
unfolding format_vcl_with_trace itoa
format_files use_color first [] = []
format_files use_color first (f ∷ fs) =
    (if first then [] else b'\n' ∷ [])
    ++ file_title use_color f.filename f.config_id
    ++ format_vcl_with_trace f.source f.executed_lines use_color
    ++ format_files use_color false fs

abbrev nothing_executed : Bool → Text
nothing_executed use_color =
    label use_color color_gray
      (codes "  (No user VCL executed - request handled entirely by built-in VCL)")
    ++ b'\n' ∷ []

-- Where no line of a file was executed, only the first file is shown.
abbrev format_traces : Bool → List VclFileInfo → ℕ → Text
unfolding format_vcl_with_trace itoa
format_traces use_color files zero = nothing_executed use_color ++ elim files [
  | [] ↦ []
  | f ∷ fs ↦
      b'\n'
      ∷ (file_title use_color f.filename f.config_id ++ format_vcl_with_trace f.source [] use_color)
]
format_traces use_color files (suc n) = format_files use_color true files

abbrev trace_section : Bool → List VclFileInfo → ℕ → Text
unfolding format_vcl_with_trace itoa decimal
trace_section use_color [] calls = []
trace_section use_color (f ∷ fs) calls =
    format_heading use_color (codes "VCL Execution Trace:")
    ++ format_traces use_color (f ∷ fs) (total_executed (f ∷ fs))
    ++ format_backend_calls use_color calls

-- `FormatTestFailure`
unfoldable pub format_test_failure : Text → List Text → List VclFileInfo → ℕ → Bool → Text
unfolding format_vcl_with_trace itoa decimal
format_test_failure name errors files calls use_color =
    format_title use_color name
    ++ format_errors use_color errors
    ++ trace_section use_color files calls

-- `blockHasAnyEntered`
unfoldable mutual
  pub block_has_any_entered : Block → Bool
  block_has_any_entered (block h cs) = h.entered || any_has_entered cs

  pub any_has_entered : Blocks → Bool
  any_has_entered nil = false
  any_has_entered (cons b bs) = block_has_any_entered b || any_has_entered bs

-- `blockDisplayName`
unfoldable pub block_display_name : Header → Text
unfolding itoa
block_display_name h = elim h.kind [
  | sub ↦ h.name
  | if_ ↦ codes "if@" ++ itoa h.header_line
  | elseif ↦ codes "elseif@" ++ itoa h.header_line
  | else_ ↦ codes "else@" ++ itoa h.header_line
]

pub record VclFileInfoWithBlocks : Type 0 where
  pub config_id : ℤ
  pub filename : Text
  pub source : Text
  pub blocks : Option FileBlocks

-- A file without a block tree has none that was entered.
unfoldable pub file_entered : Option FileBlocks → Bool
unfolding any_has_entered
file_entered none = false
file_entered (some fb) = any_has_entered fb.blocks

unfoldable pub any_file_entered : List VclFileInfoWithBlocks → Bool
unfolding file_entered
any_file_entered files = any (λ f. file_entered f.blocks) files

unfoldable pub display_names : List Block → Text
unfolding block_display_name join
display_names bs = join (map (λ b. block_display_name (header b)) bs) (codes ", ")

-- The blocks entered, `(none)` where there is none, and those not entered where there are any.
unfoldable pub summary_of : Bool → List Block → List Block → Text
unfolding display_names
summary_of use_color [] [] = []
summary_of use_color [] (b ∷ bs) =
    b'\n'
    ∷ (label use_color color_bold (codes "Blocks entered:")
        ++ codes " (none)\n"
        ++ label use_color color_bold (codes "Blocks not entered:")
        ++ b' ' ∷ (display_names (b ∷ bs) ++ b'\n' ∷ []))
summary_of use_color (b ∷ bs) [] =
    b'\n'
    ∷ (label use_color color_bold (codes "Blocks entered:")
        ++ b' ' ∷ (display_names (b ∷ bs) ++ b'\n' ∷ []))
summary_of use_color (b ∷ bs) (c ∷ cs) =
    b'\n'
    ∷ (label use_color color_bold (codes "Blocks entered:")
        ++ b' '
          ∷ (display_names (b ∷ bs)
              ++ b'\n'
                ∷ (label use_color color_bold (codes "Blocks not entered:")
                    ++ b' ' ∷ (display_names (c ∷ cs) ++ b'\n' ∷ []))))

abbrev block_summary : Bool → Option FileBlocks → Text
unfolding summary_of get_entered_blocks get_not_entered_blocks
block_summary use_color none = []
block_summary use_color (some fb) =
    summary_of use_color (get_entered_blocks fb) (get_not_entered_blocks fb)

abbrev format_block_files : Bool → Bool → List VclFileInfoWithBlocks → Text
unfolding format_vcl_with_blocks summary_of get_entered_blocks get_not_entered_blocks itoa
format_block_files use_color first [] = []
format_block_files use_color first (f ∷ fs) =
    (if first then [] else b'\n' ∷ [])
    ++ file_title use_color f.filename f.config_id
    ++ format_vcl_with_blocks f.source f.blocks use_color
    ++ block_summary use_color f.blocks
    ++ format_block_files use_color false fs

-- Where no block was entered, only the first file is shown, without a block tree.
abbrev pub nothing_entered : Bool → Text
nothing_entered use_color =
    label use_color color_gray
      (codes "  (No user VCL blocks entered - request handled entirely by built-in VCL)")
    ++ b'\n' ∷ []

unfoldable pub block_section : Bool → List VclFileInfoWithBlocks → ℕ → Text
unfolding format_vcl_with_blocks summary_of get_entered_blocks get_not_entered_blocks
    any_file_entered itoa decimal
block_section use_color [] calls = []
block_section use_color (f ∷ fs) calls =
    format_heading use_color (codes "VCL Block Coverage:")
    ++ (if any_file_entered (f ∷ fs)
        then format_block_files use_color true (f ∷ fs)
        else nothing_entered use_color
          ++ b'\n'
            ∷ (file_title use_color f.filename f.config_id
                ++ format_vcl_with_blocks f.source none use_color))
    ++ format_backend_calls use_color calls

-- `FormatTestFailureWithBlocks`
unfoldable pub format_test_failure_with_blocks :
    Text → List Text → List VclFileInfoWithBlocks → ℕ → Bool → Text
unfolding block_section
format_test_failure_with_blocks name errors files calls use_color =
    format_title use_color name
    ++ format_errors use_color errors
    ++ block_section use_color files calls
