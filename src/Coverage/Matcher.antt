-- ===== src/Coverage/Matcher.antt =====
-- pkg/coverage/matcher.go: which blocks the traced lines enter. A traced line is in the set exactly
-- when it is in the list that the set is built from.
use vcltest.Base.{
  Bool, true, false, not, Option, none, some, ◌&&◌, ◌||◌, List, [], ◌∷◌, ◌++◌, ℕ, zero, suc, any,
  contains, if◌then◌else◌,
}
use vcltest.Base.Int.{ℤ, int_eq, pos, ltb_ℤ, ◌+ℤ◌, ◌-ℤ◌}
use vcltest.Coverage.{
  Header, Block, block, Blocks, nil, cons, FileBlocks, header, line_in_block, rounds,
}

-- The `insideChild` loop.
abbrev pub inside_child : ℤ → Blocks → Bool
inside_child line nil = false
inside_child line (cons c cs) = line_in_block (header c) line || inside_child line cs

-- A line that enters the block itself: strictly between its braces and in no direct child.
abbrev pub enters_itself : Header → Blocks → ℤ → Bool
enters_itself h cs line =
    (ltb_ℤ h.open_brace line && ltb_ℤ line h.close_brace) && not (inside_child line cs)

abbrev pub any_entered : Blocks → Bool
any_entered nil = false
any_entered (cons c cs) = (header c).entered || any_entered cs

abbrev pub mark : Header → Bool → Header
mark h b = record h { entered = h.entered || b }

-- `matchBlockRecursive`: the children first.
unfoldable mutual
  pub match_block : List ℤ → Block → Block
  match_block traced (block h cs) =
      let cs' = match_blocks traced cs in
      block (mark h (any (enters_itself h cs') traced || any_entered cs')) cs'

  pub match_blocks : List ℤ → Blocks → Blocks
  match_blocks traced nil = nil
  match_blocks traced (cons b bs) = cons (match_block traced b) (match_blocks traced bs)

-- `MatchTracesToBlocks`
unfoldable pub match_traces_to_blocks : Option FileBlocks → List ℤ → Option FileBlocks
match_traces_to_blocks none traced = none
match_traces_to_blocks (some fb) traced =
    some (record fb { blocks = match_blocks traced fb.blocks })

-- The loop over the lines from `OpenBrace - tolerance`, `n` of them.
unfoldable pub near_trace : ℕ → ℤ → List ℤ → Bool
unfolding contains
near_trace zero line traced = false
near_trace (suc n) line traced = contains traced line || near_trace n (line +ℤ pos 1) traced

unfoldable mutual
  unfolding near_trace

  pub match_block_with_tolerance : ℤ → List ℤ → Block → Block
  match_block_with_tolerance t traced (block h cs) =
      block (mark h (near_trace (rounds (pos 0 -ℤ t) t) (h.open_brace -ℤ t) traced))
        (match_blocks_with_tolerance t traced cs)

  pub match_blocks_with_tolerance : ℤ → List ℤ → Blocks → Blocks
  match_blocks_with_tolerance t traced nil = nil
  match_blocks_with_tolerance t traced (cons b bs) =
      cons (match_block_with_tolerance t traced b) (match_blocks_with_tolerance t traced bs)

unfoldable pub match_traces_to_blocks_with_tolerance :
    Option FileBlocks → List ℤ → ℤ → Option FileBlocks
match_traces_to_blocks_with_tolerance none traced t = none
match_traces_to_blocks_with_tolerance (some fb) traced t =
    some (record fb { blocks = match_blocks_with_tolerance t traced fb.blocks })

-- `getEnteredRecursive` and `getNotEnteredRecursive` differ by the flag that they keep.
unfoldable mutual
  pub blocks_with : Bool → Block → List Block
  blocks_with flag (block h cs) =
      (if (if flag then h.entered else not h.entered) then block h cs ∷ [] else [])
      ++ children_with flag cs

  pub children_with : Bool → Blocks → List Block
  children_with flag nil = []
  children_with flag (cons b bs) = blocks_with flag b ++ children_with flag bs

unfoldable pub get_entered_blocks : FileBlocks → List Block
get_entered_blocks fb = children_with true fb.blocks

unfoldable pub get_not_entered_blocks : FileBlocks → List Block
get_not_entered_blocks fb = children_with false fb.blocks
