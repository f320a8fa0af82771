-- ===== src/Coverage.antt =====
-- pkg/coverage/block.go: the tree of VCL blocks, and what it says of a line.
pub mod Matcher
pub mod Analyzer
pub mod Trees
pub mod Entered
pub mod Lookup
pub mod Reports
pub mod Extracted
pub mod Branches
mod Samples
use vcltest.Base.{Bool, true, false, ◌&&◌, Option, none, some, List, [], ◌∷◌, ◌++◌, ℕ, zero, suc}
use vcltest.Base.Int.{ℤ, int_eq, pos, leb_ℤ, ◌+ℤ◌, ◌-ℤ◌, pos_part}
use vcltest.Base.Map.{Map, insert}
use vcltest.Base.Text.{Text}

pub data BlockType : Type 0 where
  sub if_ elseif else_ : BlockType

-- The fields of a block but its children. Lines are Go `int`s.
pub record Header : Type 0 where
  pub kind : BlockType
  pub name : Text
  pub header_line : ℤ
  pub open_brace : ℤ
  pub close_brace : ℤ
  pub entered : Bool

mutual
  pub data Block : Type 0 where
    block : Header → Blocks → Block

  pub data Blocks : Type 0 where
    nil : Blocks
    cons : Block → Blocks → Blocks

pub record FileBlocks : Type 0 where
  pub config_id : ℤ
  pub filename : Text
  pub blocks : Blocks

abbrev pub header : Block → Header
header (block h cs) = h

abbrev pub children : Block → Blocks
children (block h cs) = cs

abbrev pub append_blocks : Blocks → Blocks → Blocks
append_blocks nil bs = bs
append_blocks (cons b as') bs = cons b (append_blocks as' bs)

-- `(b *Block) LineInBlock`, both ends included.
abbrev pub line_in_block : Header → ℤ → Bool
line_in_block h line = leb_ℤ h.open_brace line && leb_ℤ line h.close_brace

-- `(b *Block) AllBlocks`: the block and all below it, parents first.
unfoldable mutual
  pub all_blocks : Block → List Block
  all_blocks (block h cs) = block h cs ∷ all_children cs

  pub all_children : Blocks → List Block
  all_children nil = []
  all_children (cons b bs) = all_blocks b ++ all_children bs

abbrev pub or_else : Option Block → Option Block → Option Block
or_else none next = next
or_else (some b) next = some b

-- `findBlockAtLineRecursive`, and the loop of `FindBlockAtLine` over a list of blocks.
unfoldable mutual
  pub find_in_block : ℤ → Block → Option Block
  find_in_block line (block h cs) = elim (line_in_block h line) [
    | true ↦ or_else (find_in_blocks line cs) (some (block h cs))
    | false ↦ none
  ]

  pub find_in_blocks : ℤ → Blocks → Option Block
  find_in_blocks line nil = none
  find_in_blocks line (cons b bs) = or_else (find_in_block line b) (find_in_blocks line bs)

unfoldable pub find_block_at_line : FileBlocks → ℤ → Option Block
find_block_at_line fb line = find_in_blocks line fb.blocks

-- How many rounds `for line := open; line <= close; line++` makes.
abbrev pub rounds : ℤ → ℤ → ℕ
rounds from to = pos_part (to +ℤ pos 1 -ℤ from)

-- That loop: `status[line] = entered`.
unfoldable pub fill_lines : ℕ → ℤ → Bool → Map ℤ Bool → Map ℤ Bool
unfolding insert
fill_lines zero line entered status = status
fill_lines (suc n) line entered status =
    fill_lines n (line +ℤ pos 1) entered (insert line entered status)

-- `fillLineStatus`: the children write over their parent.
unfoldable mutual
  unfolding fill_lines

  pub fill_line_status : Block → Map ℤ Bool → Map ℤ Bool
  fill_line_status (block h cs) status =
      fill_children cs
        (fill_lines (rounds h.open_brace h.close_brace) h.open_brace h.entered status)

  pub fill_children : Blocks → Map ℤ Bool → Map ℤ Bool
  fill_children nil status = status
  fill_children (cons b bs) status = fill_children bs (fill_line_status b status)

unfoldable pub get_line_status : FileBlocks → Map ℤ Bool
get_line_status fb = fill_children fb.blocks []
