-- ===== src/Formatter/Samples.antt =====
-- Runs of the display of a subroutine with an if that was not entered.
use vcltest.Base.{
  true, false, Bool, none, some, List, [], ◌∷◌, ◌++◌, ℕ, ◌≡◌, refl, contains, ◌↔◌, Any, arith, inr,
  inl,
}
use vcltest.Base.Int.{ℤ, pos, int_eq}
use vcltest.Base.Text.{Text, codes}
use vcltest.Coverage.{BlockType, sub, if_, Header, Block, block, nil, cons, FileBlocks, Blocks}
use vcltest.Coverage.Trees.{Apart, none_left, first, nested}
use vcltest.Formatter.{check_mark, format_vcl_with_trace, format_vcl_with_blocks}
use vcltest.Formatter.Message.{VclFileInfoWithBlocks, format_test_failure_with_blocks}
use vcltest.Formatter.Shown.{
  Shows, innermost_entered, format_vcl_with_trace-Shows, format_vcl_with_blocks-Shows,
}

abbrev source : Text
source = codes "sub vcl_recv {\nif (a) {\n}\n}\n"

abbrev header_at : BlockType → ℕ → ℕ → Bool → Header
header_at kind from to entered = record {
  kind = kind;
  name = codes "vcl_recv";
  header_line = pos from;
  open_brace = pos from;
  close_brace = pos to;
  entered = entered;
}

abbrev tree : FileBlocks
tree = record {
  config_id = pos 0;
  filename = codes "main.vcl";
  blocks =
      cons (block (header_at sub 1 4 true) (cons (block (header_at if_ 2 3 false) nil) nil)) nil;
}

abbrev shown_blocks : Text
shown_blocks =
    codes "*    1 | sub vcl_recv {\n     2 | if (a) {\n     3 | }\n*    4 | }\n     5 | \n"

format_vcl_with_blocks_sample : format_vcl_with_blocks source (some tree) false ≡ shown_blocks
unfolding format_vcl_with_blocks vcltest.Coverage.fill_children vcltest.Base.Int.◌-ℤ◌
    vcltest.Base.Int.◌+ℤ◌
format_vcl_with_blocks_sample = refl

abbrev file : VclFileInfoWithBlocks
file = record {
  config_id = pos 0;
  filename = codes "main.vcl";
  source = source;
  blocks = some tree;
}

format_test_failure_with_blocks_sample :
    format_test_failure_with_blocks (codes "get") (codes "bad" ∷ []) (file ∷ []) 1 false
    ≡ codes "\nFAILED: get\n  "
      ++ (226 ∷ 156 ∷ 151 ∷ codes " bad\n\nVCL Block Coverage:\nmain.vcl (config 0):\n")
      ++ shown_blocks
      ++ codes "\nBlocks entered: vcl_recv\nBlocks not entered: if@2\n\nBackend Calls: 1\n"
unfolding format_test_failure_with_blocks vcltest.Coverage.fill_children vcltest.Base.Int.◌-ℤ◌
    vcltest.Base.Int.◌+ℤ◌ vcltest.Coverage.Matcher.children_with
format_test_failure_with_blocks_sample = refl

tree-Apart : Apart tree.blocks
tree-Apart =
    first tt (nested (omega arith, omega arith, tt) (first tt (nested tt none_left) none_left))
      none_left

format_vcl_with_trace-Shows_example :
    Shows check_mark source
      (λ n. contains (pos 1 ∷ pos 4 ∷ []) (pos n))
      (format_vcl_with_trace source (pos 1 ∷ pos 4 ∷ []) false)
format_vcl_with_trace-Shows_example = format_vcl_with_trace-Shows source (pos 1 ∷ pos 4 ∷ [])

format_vcl_with_blocks-Shows_example :
    Shows
      (codes "* ")
      source
      (innermost_entered tree)
      (format_vcl_with_blocks source (some tree) false)
format_vcl_with_blocks-Shows_example = format_vcl_with_blocks-Shows source tree tree-Apart
