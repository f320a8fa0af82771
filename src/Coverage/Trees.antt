-- ===== src/Coverage/Trees.antt =====
-- `GetLineStatus`: what it says of a line, and where it agrees with `FindBlockAtLine`.
use vcltest.Base.{
  Bool, true, false, ◌≡◌, refl, ap, sym, ◌∙◌, List, [], ◌∷◌, ◌++◌, ℕ, zero, suc, Option, none, some,
  arith, ◌&&◌, ◌||◌, if◌then◌else◌, Bool-cases, inl, inr, if_or, if_true, if_false, ◌==◌, eq_iff,
}
use mathlib.Core.Option
use vcltest.Base.Int.{
  ℤ, int_eq, pos, ◌+ℤ◌, ◌-ℤ◌, ◌≤ℤ◌, ◌<ℤ◌, leb_ℤ, ltb_ℤ, +ℤ_parts, -ℤ_parts, eq_of_parts, parts_zero,
}
use vcltest.Base.Map.{Map, lookup, insert, lookup-insert}
use vcltest.Coverage.{
  Header, Block, block, Blocks, nil, cons, header, FileBlocks, line_in_block, or_else,
  find_in_block, find_in_blocks, find_block_at_line, rounds, fill_lines, fill_line_status,
  fill_children, get_line_status, all_blocks, all_children,
}
use vcltest.Coverage.Matcher.{inside_child}
use vcltest.Coverage.Lookup.{find_in_block-in, find_in_block-out, find_in_blocks_out}

-- The flag of the last block of the list that holds the line; `acc` if none does.
abbrev pub last_flag : ℤ → List Block → Option Bool → Option Bool
last_flag line [] acc = acc
last_flag line (b ∷ bs) acc =
    last_flag line bs (if line_in_block (header b) line then some (header b).entered else acc)

last_flag-append :
    (line : ℤ) (as' bs : List Block) (acc : Option Bool)
    → last_flag line (as' ++ bs) acc ≡ last_flag line bs (last_flag line as' acc)
last_flag-append line [] bs acc = refl
last_flag-append line (a ∷ as') bs acc = last_flag-append line as' bs _

range_zero : (from line : ℤ) → (leb_ℤ from line && ltb_ℤ line (from +ℤ pos 0)) ≡ false
range_zero from line = ground (arith, +ℤ_parts from (pos 0))

range_suc :
    (n : ℕ) (from line : ℤ)
    → (leb_ℤ from line && ltb_ℤ line (from +ℤ pos (suc n)))
      ≡ (leb_ℤ (from +ℤ pos 1) line && ltb_ℤ line (from +ℤ pos 1 +ℤ pos n) || from == line)
range_suc n from line = ground (
  arith,
  +ℤ_parts from (pos (suc n)),
  +ℤ_parts from (pos 1),
  +ℤ_parts (from +ℤ pos 1) (pos n),
  eq_iff from line,
  eq_of_parts from line,
)

-- The loop writes exactly the lines of its range.
lookup-fill_lines :
    (n : ℕ) (from : ℤ) (e : Bool) (st : Map ℤ Bool) (line : ℤ)
    → lookup line (fill_lines n from e st)
      ≡ (if leb_ℤ from line && ltb_ℤ line (from +ℤ pos n) then some e else lookup line st)
unfolding fill_lines
lookup-fill_lines zero from e st line = rw (range_zero from line) refl
lookup-fill_lines (suc n) from e st line =
    rw
      (
        lookup-fill_lines n (from +ℤ pos 1) e (insert from e st) line,
        lookup-insert,
        range_suc n from line,
      )
      (if_or _ (from == line) (some e) (lookup line st))

-- The rounds from the opening to the closing brace.
range_rounds :
    (h : Header) (line : ℤ)
    → (leb_ℤ h.open_brace line
        && ltb_ℤ line (h.open_brace +ℤ pos (rounds h.open_brace h.close_brace)))
      ≡ line_in_block h line
range_rounds h line = ground (
  arith,
  +ℤ_parts h.open_brace (pos (rounds h.open_brace h.close_brace)),
  -ℤ_parts (h.close_brace +ℤ pos 1) h.open_brace,
  +ℤ_parts h.close_brace (pos 1),
  parts_zero (h.close_brace +ℤ pos 1 -ℤ h.open_brace),
)

module _ (line : ℤ) where
  mutual
    unfolding fill_line_status all_blocks

    fill_line_status-last :
        (b : Block) (st : Map ℤ Bool)
        → lookup line (fill_line_status b st) ≡ last_flag line (all_blocks b) (lookup line st)
    fill_line_status-last (block h cs) st = rw (
      fill_children-last cs _,
      lookup-fill_lines _ h.open_brace h.entered st line,
      range_rounds h line,
    )

    fill_children-last :
        (cs : Blocks) (st : Map ℤ Bool)
        → lookup line (fill_children cs st) ≡ last_flag line (all_children cs) (lookup line st)
    fill_children-last nil st = refl
    fill_children-last (cons b bs) st =
        rw (fill_children-last bs _, fill_line_status-last b st)
          (sym (last_flag-append line (all_blocks b) (all_children bs) _))

-- For any tree: the status of a line is the flag of the last block, parents before children, that
-- holds the line, and the line is missing from the map if no block holds it.
pub get_line_status-last :
    (fb : FileBlocks) (line : ℤ)
    → lookup line (get_line_status fb) ≡ last_flag line (all_children fb.blocks) none
unfolding get_line_status lookup
get_line_status-last fb line = fill_children-last line fb.blocks []

-- Children lie within their parent, and siblings follow one another without a shared line.
abbrev pub Within : Header → Blocks → Type 0
Within h nil = Unit
Within h (cons c cs) =
    (h.open_brace ≤ℤ (header c).open_brace)
    × ((header c).close_brace ≤ℤ h.close_brace)
    × Within h cs

abbrev pub Before : Header → Blocks → Type 0
Before h nil = Unit
Before h (cons c cs) = (h.close_brace <ℤ (header c).open_brace) × Before h cs

mutual
  pub data WellNested : Block → Type 0 where
    nested : {h : Header} {cs : Blocks} → Within h cs → Apart cs → WellNested (block h cs)

  pub data Apart : Blocks → Type 0 where
    none_left : Apart nil
    first :
        {b : Block} {bs : Blocks}
        → Before (header b) bs
        → WellNested b
        → Apart bs
        → Apart (cons b bs)

Within-out :
    (line : ℤ) (h : Header) (cs : Blocks)
    → Within h cs
    → line_in_block h line ≡ false
    → inside_child line cs ≡ false
Within-out line h nil w e = refl
Within-out line h (cons c cs) (lo, hi, w) e = ground (arith, Within-out line h cs w e)

Before-out :
    (line : ℤ) (h : Header) (cs : Blocks)
    → Before h cs
    → line_in_block h line ≡ true
    → inside_child line cs ≡ false
Before-out line h nil w e = refl
Before-out line h (cons c cs) (lo, w) e = ground (arith, Before-out line h cs w e)

-- `acc` unless a block was found.
abbrev flag_of : Option Block → Option Bool → Option Bool
flag_of none acc = acc
flag_of (some x) acc = some (header x).entered

flag_of-or_else :
    (a : Option Block) (x : Block) (acc : Option Bool)
    → flag_of a (some (header x).entered) ≡ flag_of (or_else a (some x)) acc
flag_of-or_else none x acc = refl
flag_of-or_else (some y) x acc = refl

flag_of-none : (a : Option Block) (acc : Option Bool) → a ≡ none → flag_of a acc ≡ acc
flag_of-none a acc e = rw e refl

flag_of-or_else-none :
    (a : Option Block) (acc : Option Bool) → flag_of a acc ≡ flag_of (or_else a none) acc
flag_of-or_else-none none acc = refl
flag_of-or_else-none (some x) acc = refl

-- Of two siblings at most one finds anything, so it does not matter which is asked first.
first_or_later :
    (line : ℤ) (b : Block) (bs : Blocks) (acc : Option Bool)
    → Before (header b) bs
    → flag_of (find_in_blocks line bs) (flag_of (find_in_block line b) acc)
      ≡ flag_of (or_else (find_in_block line b) (find_in_blocks line bs)) acc
first_or_later line (block h cs) bs acc before = elim (Bool-cases (line_in_block h line)) [
  | inr out ↦ rw (find_in_block-out line h cs out) refl
  | inl held ↦
      rw (find_in_blocks_out line bs (Before-out line h bs before held))
        (flag_of-or_else-none (find_in_block line (block h cs)) acc)
]

flag_of-map : (a : Option Block) → flag_of a none ≡ Option.map (λ b. (header b).entered) a
flag_of-map none = refl
flag_of-map (some x) = refl

module _ (line : ℤ) where
  mutual
    unfolding find_in_blocks all_blocks

    last_flag-find :
        {b : Block} (acc : Option Bool)
        → WellNested b
        → last_flag line (all_blocks b) acc ≡ flag_of (find_in_block line b) acc
    last_flag-find acc (nested {h} {cs} w a) = elim (Bool-cases (line_in_block h line)) [
      | inl held ↦ rw (find_in_block-in line h cs held) (
          ap (last_flag line (all_children cs)) (if_true _ (some h.entered) acc held)
          ∙ last_flag-find_all _ a
          ∙ flag_of-or_else (find_in_blocks line cs) (block h cs) acc)
      | inr out ↦ rw (find_in_block-out line h cs out) (
          ap (last_flag line (all_children cs)) (if_false _ (some h.entered) acc out)
          ∙ last_flag-find_all acc a
          ∙ flag_of-none _ acc (find_in_blocks_out line cs (Within-out line h cs w out)))
    ]

    last_flag-find_all :
        {bs : Blocks} (acc : Option Bool)
        → Apart bs
        → last_flag line (all_children bs) acc ≡ flag_of (find_in_blocks line bs) acc
    last_flag-find_all acc none_left = refl
    last_flag-find_all acc (first {b} {bs} before w a) =
        rw (last_flag-append line (all_blocks b) (all_children bs) acc, last_flag-find acc w)
          (last_flag-find_all _ a ∙ first_or_later line b bs acc before)

-- In a tree whose siblings share no line, the status map and the search agree on every line: the map
-- holds the flag of the block that the search finds, and nothing where it finds none.
pub get_line_status-find :
    (fb : FileBlocks) (line : ℤ)
    → Apart fb.blocks
    → lookup line (get_line_status fb)
      ≡ Option.map (λ b. (header b).entered) (find_block_at_line fb line)
unfolding find_block_at_line
get_line_status-find fb line a =
    get_line_status-last fb line
    ∙ last_flag-find_all line none a
    ∙ flag_of-map (find_in_blocks line fb.blocks)
