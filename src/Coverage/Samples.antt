-- ===== src/Coverage/Samples.antt =====
-- Runs of pkg/coverage on a subroutine with an if and an else.
use vcltest.Base.{true, false, ◌≡◌, refl, ◌↔◌, Option, none, some, List, [], ◌∷◌, map, In, ℕ, arith}
use vcltest.Base.Int.{ℤ, int_eq, pos, ◌-ℤ◌, ◌+ℤ◌}
use vcltest.Base.Map.{lookup}
use vcltest.Base.Text.{Text, codes}
use mathlib.Core.Option
use vcltest.Coverage.{
  BlockType, sub, if_, else_, Header, Block, block, nil, cons, FileBlocks, header,
  find_block_at_line, get_line_status, all_blocks, all_children, find_in_blocks,
}
use vcltest.Coverage.Matcher.{inside_child, match_block, match_block_with_tolerance}
use vcltest.Coverage.Analyzer.{
  Lines, if_statement, block_statement, else_branch, none_left, then_more, Decl, sub_decl,
  other_decl, analyze_vcl,
}
use vcltest.Coverage.Entered.{Reached, is_entered, match_block-entered_iff}
use vcltest.Coverage.Lookup.{IsDeepest, find_block_at_line_correct}
use vcltest.Coverage.Trees.{
  last_flag, get_line_status-last, Apart, none_left as apart_nil, first, nested,
  get_line_status-find,
}
use vcltest.Coverage.Branches.{branches, all_branches}
use vcltest.Coverage.Reports.{Marked, match_block_with_tolerance-Marked}

abbrev lines_at : ℤ → ℤ → Lines
lines_at a b = record { start = a; end = b }

-- sub vcl_recv { if (a) { … } else { … } } on the lines 1 to 9.
abbrev recv_decl : Decl
recv_decl = sub_decl (record {
  name = codes "vcl_recv";
  at = lines_at (pos 1) (pos 9);
  body = some (
    lines_at (pos 1) (pos 9),
    then_more
        (if_statement (lines_at (pos 2) (pos 4)) (some (codes "a"))
          (block_statement (lines_at (pos 2) (pos 4)) none_left)
          (else_branch (block_statement (lines_at (pos 5) (pos 7)) none_left)))
        none_left,
  );
})

abbrev parse_sample : Text → Text → Option (List Decl)
parse_sample source path = some (other_decl ∷ recv_decl ∷ [])

abbrev header_at : BlockType → Text → ℕ → ℕ → Header
header_at kind name from to = record {
  kind = kind;
  name = name;
  header_line = pos from;
  open_brace = pos from;
  close_brace = pos to;
  entered = false;
}

abbrev recv : Block
recv = block (header_at sub (codes "vcl_recv") 1 9) (
    cons (block (header_at if_ (codes "a") 2 4) nil)
      (cons (block (header_at else_ [] 5 7) nil) nil))

abbrev file : FileBlocks
file = record { config_id = pos 0; filename = codes "a.vcl"; blocks = cons recv nil }

analyze_vcl_sample : analyze_vcl parse_sample [] (codes "a.vcl") ≡ some file
unfolding analyze_vcl
analyze_vcl_sample = refl

-- A trace in the if enters the if and the subroutine, and not the else.
flags_sample :
    map is_entered (all_blocks (match_block (pos 3 ∷ []) recv)) ≡ true ∷ true ∷ false ∷ []
unfolding match_block all_blocks
flags_sample = refl

-- The line of an opening brace enters nothing.
brace_sample :
    map is_entered (all_blocks (match_block (pos 2 ∷ []) recv)) ≡ false ∷ false ∷ false ∷ []
unfolding match_block all_blocks
brace_sample = refl

find_block_at_line_sample :
    find_block_at_line file (pos 6) ≡ some (block (header_at else_ [] 5 7) nil)
unfolding find_block_at_line find_in_blocks
find_block_at_line_sample = refl

match_block-entered_iff_example :
    (is_entered (match_block (pos 3 ∷ []) recv) ≡ true) ↔ Reached (pos 3 ∷ []) recv
match_block-entered_iff_example = match_block-entered_iff (pos 3 ∷ []) recv

find_block_at_line_correct_example :
    ((x : Block)
      → find_block_at_line file (pos 6) ≡ some x
      → In x (all_children file.blocks) × IsDeepest (pos 6) x)
    × ((find_block_at_line file (pos 6) ≡ none) ↔ (inside_child (pos 6) file.blocks ≡ false))
find_block_at_line_correct_example = find_block_at_line_correct file (pos 6)

get_line_status-last_example :
    lookup (pos 3) (get_line_status file) ≡ last_flag (pos 3) (all_children file.blocks) none
get_line_status-last_example = get_line_status-last file (pos 3)

match_block_with_tolerance-Marked_example :
    Marked (pos 1) (pos 6 ∷ []) recv (match_block_with_tolerance (pos 1) (pos 6 ∷ []) recv)
match_block_with_tolerance-Marked_example =
    match_block_with_tolerance-Marked (pos 1) (pos 6 ∷ []) recv

-- The else opens one line before the trace.
near_sample :
    map is_entered (all_blocks (match_block_with_tolerance (pos 1) (pos 6 ∷ []) recv))
    ≡ false ∷ false ∷ true ∷ []
unfolding match_block_with_tolerance all_blocks ◌-ℤ◌ ◌+ℤ◌
near_sample = refl

branches_sample :
    all_branches (other_decl ∷ recv_decl ∷ [])
    ≡ header_at sub (codes "vcl_recv") 1 9
      ∷ header_at if_ (codes "a") 2 4
      ∷ header_at else_ [] 5 7
      ∷ []
unfolding branches
branches_sample = refl

file-Apart : Apart file.blocks
file-Apart =
    first tt
      (nested (omega arith, omega arith, (omega arith, omega arith, tt))
        (first (omega arith, tt) (nested tt apart_nil) (first tt (nested tt apart_nil) apart_nil)))
      apart_nil

get_line_status-find_example :
    lookup (pos 3) (get_line_status file)
    ≡ Option.map (λ b. (header b).entered) (find_block_at_line file (pos 3))
get_line_status-find_example = get_line_status-find file (pos 3) file-Apart
