-- ===== src/Coverage/Lookup.antt =====
-- `FindBlockAtLine` and `GetLineStatus`, each against a description, and where they agree.
use vcltest.Base.{
  true, false, ◌≡◌, refl, sym, ◌≢◌, subst, ◌↔◌, ◌⊎◌, inl, inr, Option, none, some, In,
  In-append_left, In-append_right, arith, Bool-cases, or-eq-false,
}
use vcltest.Base.Int.{ℤ, int_eq}
use vcltest.Coverage.{
  Header, Block, block, Blocks, nil, cons, header, children, FileBlocks, line_in_block, or_else,
  find_in_block, find_in_blocks, find_block_at_line, all_blocks, all_children,
}
use vcltest.Coverage.Matcher.{inside_child}

-- The block holds the line and none of its children does.
pub record IsDeepest (line : ℤ) (x : Block) : Type 0 where
  pub holds : line_in_block (header x) line ≡ true
  pub deepest : inside_child line (children x) ≡ false

or_else_cases :
    (a b : Option Block) {x : Block}
    → or_else a b ≡ some x
    → (a ≡ some x) ⊎ ((a ≡ none) × (b ≡ some x))
or_else_cases none b h = inr (refl, h)
or_else_cases (some y) b h = inl h

module _ (line : ℤ) where
  pub find_in_block-out :
      (h : Header) (cs : Blocks)
      → line_in_block h line ≡ false
      → find_in_block line (block h cs) ≡ none
  unfolding find_in_block
  find_in_block-out h cs e = ground arith

  pub find_in_block-in :
      (h : Header) (cs : Blocks)
      → line_in_block h line ≡ true
      → find_in_block line (block h cs) ≡ or_else (find_in_blocks line cs) (some (block h cs))
  unfolding find_in_block
  find_in_block-in h cs e = ground arith

  or_else-ne-none : (a : Option Block) (b : Block) → or_else a (some b) ≢ none
  or_else-ne-none none b e = cc
  or_else-ne-none (some a) b e = cc

  find_in_block-none :
      (b : Block) → find_in_block line b ≡ none → line_in_block (header b) line ≡ false
  find_in_block-none (block h cs) e = elim (Bool-cases (line_in_block h line)) [
    | inl held ↦
        absurd (or_else-ne-none (find_in_blocks line cs) _ (rw (find_in_block-in h cs held) at e))
    | inr out ↦ out
  ]

  -- No block is found exactly if none holds the line.
  find_in_blocks-none : (bs : Blocks) → find_in_blocks line bs ≡ none → inside_child line bs ≡ false
  unfolding find_in_blocks
  find_in_blocks-none nil e = refl
  find_in_blocks-none (cons b bs) e = ground (arith, find_in_block-none b, find_in_blocks-none bs)

  pub find_in_blocks_out :
      (bs : Blocks) → inside_child line bs ≡ false → find_in_blocks line bs ≡ none
  unfolding find_in_blocks
  find_in_blocks_out nil e = refl
  find_in_blocks_out (cons (block h cs) bs) e =
      let (first, later) = or-eq-false (line_in_block h line) (inside_child line bs) e in
      rw (find_in_block-out h cs first) (find_in_blocks_out bs later)

  mutual
    unfolding find_in_blocks all_blocks

    find_in_block_sound :
        (b x : Block) → find_in_block line b ≡ some x → In x (all_blocks b) × IsDeepest line x
    find_in_block_sound (block h cs) x e = elim (Bool-cases (line_in_block h line)) [
      | inr out ↦ absurd (cc (find_in_block-out h cs out))
      | inl held ↦
          elim (or_else_cases (find_in_blocks line cs) _ (rw (find_in_block-in h cs held) at e)) [
            | inl below ↦ let (m, d) = find_in_blocks_sound cs x below in (inr m, d)
            | inr (stop, same) ↦
                let q : block h cs ≡ x = cc in
                (
                  inl (sym q),
                  subst (IsDeepest line) q
                      (record { holds = held; deepest = find_in_blocks-none cs stop }),
                )
          ]
    ]

    find_in_blocks_sound :
        (bs : Blocks) (x : Block)
        → find_in_blocks line bs ≡ some x
        → In x (all_children bs) × IsDeepest line x
    find_in_blocks_sound nil x e = absurd (cc)
    find_in_blocks_sound (cons b bs) x e = elim (or_else_cases (find_in_block line b) _ e) [
      | inl first ↦
          let (m, d) = find_in_block_sound b x first in (In-append_left x (all_blocks b) _ m, d)
      | inr (_, later) ↦
          let (m, d) = find_in_blocks_sound bs x later in (In-append_right x (all_blocks b) _ m, d)
    ]

-- What `FindBlockAtLine` finds is a block of the file that holds the line while none of its children
-- does; it finds nothing exactly if no top-level block holds the line.
pub find_block_at_line_correct :
    (fb : FileBlocks) (line : ℤ)
    → ((x : Block)
        → find_block_at_line fb line ≡ some x
        → In x (all_children fb.blocks) × IsDeepest line x)
      × ((find_block_at_line fb line ≡ none) ↔ (inside_child line fb.blocks ≡ false))
unfolding find_block_at_line
find_block_at_line_correct fb line = (
  find_in_blocks_sound line fb.blocks,
  (find_in_blocks-none line fb.blocks, find_in_blocks_out line fb.blocks),
)
