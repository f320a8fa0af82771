-- ===== src/Coverage/Entered.antt =====
-- What `MatchTracesToBlocks` enters, against a description that does not run the matcher.
use vcltest.Base.{
  Bool, true, false, ◌≡◌, refl, sym, ap, ◌↔◌, inl, inr, List, [], ◌∷◌, map, any, any_iff, Any,
  Any-map, ◌||◌, ◌⊎◌, arith, or_cases, or_left, or_right,
}
use mathlib.Core.List.{map-append}
use vcltest.Base.Int.{ℤ, ◌≤ℤ◌, ◌<ℤ◌, leb_ℤ_iff, ltb_ℤ_iff}
use vcltest.Coverage.{
  Header, Block, block, Blocks, nil, cons, header, line_in_block, all_blocks, all_children,
}
use vcltest.Coverage.Matcher.{inside_child, enters_itself, any_entered, match_block, match_blocks}

-- A line lies within the braces of one of the blocks.
abbrev pub IsWithin : ℤ → Blocks → Type 0
IsWithin line nil = ⊥
IsWithin line (cons (block h cs) bs) =
    ((h.open_brace ≤ℤ line) × (line ≤ℤ h.close_brace)) ⊎ IsWithin line bs

-- A line strictly between the braces of a block and within none of its children.
abbrev pub IsOwn : Header → Blocks → ℤ → Type 0
IsOwn h cs line = (h.open_brace <ℤ line) × (line <ℤ h.close_brace) × ¬ (IsWithin line cs)

inside_child_iff : (line : ℤ) (cs : Blocks) → (inside_child line cs ≡ true) ↔ IsWithin line cs
inside_child_iff line nil = (λ h. absurd (cc h), λ h. absurd h)
inside_child_iff line (cons (block h cs) bs) =
    ground
      (arith, inside_child_iff line bs, leb_ℤ_iff h.open_brace line, leb_ℤ_iff line h.close_brace)

enters_itself_iff :
    (h : Header) (cs : Blocks) (line : ℤ) → (enters_itself h cs line ≡ true) ↔ IsOwn h cs line
enters_itself_iff h cs line =
    ground
      (arith, inside_child_iff line cs, ltb_ℤ_iff h.open_brace line, ltb_ℤ_iff line h.close_brace)

-- A block is reached if it was entered before, if a traced line lies strictly between its braces and
-- in none of its children, or if one of its children is reached.
mutual
  pub data Reached (traced : List ℤ) : Block → Type 0 where
    already : {h : Header} {cs : Blocks} → h.entered ≡ true → Reached traced (block h cs)
    by_line : {h : Header} {cs : Blocks} → Any (IsOwn h cs) traced → Reached traced (block h cs)
    by_child : {h : Header} {cs : Blocks} → ReachedChild traced cs → Reached traced (block h cs)

  pub data ReachedChild (traced : List ℤ) : Blocks → Type 0 where
    here : {b : Block} {bs : Blocks} → Reached traced b → ReachedChild traced (cons b bs)
    there : {b : Block} {bs : Blocks} → ReachedChild traced bs → ReachedChild traced (cons b bs)

abbrev pub is_entered : Block → Bool
is_entered b = (header b).entered

module _ (traced : List ℤ) where
  -- The matcher changes flags only.
  line_in_block-match :
      (b : Block) (line : ℤ)
      → line_in_block (header (match_block traced b)) line ≡ line_in_block (header b) line
  unfolding match_block
  line_in_block-match (block h cs) line = refl

  inside_child-match :
      (cs : Blocks) (line : ℤ) → inside_child line (match_blocks traced cs) ≡ inside_child line cs
  unfolding match_blocks
  inside_child-match nil line = refl
  inside_child-match (cons c cs) line =
      rw (line_in_block-match c line, inside_child-match cs line) refl

  any_enters-match :
      (h : Header) (cs : Blocks) (ls : List ℤ)
      → any (enters_itself h (match_blocks traced cs)) ls ≡ any (enters_itself h cs) ls
  any_enters-match h cs [] = refl
  any_enters-match h cs (l ∷ ls) = rw (inside_child-match cs l, any_enters-match h cs ls) refl

  entered-match :
      (h : Header) (cs : Blocks)
      → is_entered (match_block traced (block h cs))
        ≡ (h.entered || (any (enters_itself h cs) traced || any_entered (match_blocks traced cs)))
  unfolding match_block
  entered-match h cs = rw (any_enters-match h cs traced) refl

  any_entered-nil : any_entered (match_blocks traced nil) ≡ false
  unfolding match_blocks
  any_entered-nil = refl

  any_entered-cons :
      (b : Block) (bs : Blocks)
      → any_entered (match_blocks traced (cons b bs))
        ≡ (is_entered (match_block traced b) || any_entered (match_blocks traced bs))
  unfolding match_blocks
  any_entered-cons b bs = refl

module _ (traced : List ℤ) where
  mutual
    match_sound : (b : Block) → is_entered (match_block traced b) ≡ true → Reached traced b
    match_sound (block h cs) e = elim (or_cases _ _ (rw (entered-match traced h cs) at e)) [
      | inl old ↦ already old
      | inr new ↦ elim (or_cases _ _ new) [
        | inl line ↦
            by_line (Any-map traced (λ l. (enters_itself_iff h cs l).0) ((any_iff _ traced).0 line))
        | inr child ↦ by_child (match_children_sound cs child)
      ]
    ]

    match_children_sound :
        (cs : Blocks) → any_entered (match_blocks traced cs) ≡ true → ReachedChild traced cs
    match_children_sound nil e = absurd (cc (any_entered-nil traced, e))
    match_children_sound (cons b bs) e =
        elim (or_cases _ _ (rw (any_entered-cons traced b bs) at e)) [
          | inl first ↦ here (match_sound b first)
          | inr later ↦ there (match_children_sound bs later)
        ]

  mutual
    match_complete : {b : Block} → Reached traced b → is_entered (match_block traced b) ≡ true
    match_complete (already {h} {cs} e) = rw (entered-match traced h cs) (or_left _ _ e)
    match_complete (by_line {h} {cs} l) = rw (entered-match traced h cs) (
        or_right h.entered _ (
          or_left _ _ (
            (any_iff (enters_itself h cs) traced).1
              (Any-map traced (λ x. (enters_itself_iff h cs x).1) l))))
    match_complete (by_child {h} {cs} r) = rw (entered-match traced h cs) (
        or_right h.entered _
          (or_right (any (enters_itself h cs) traced) _ (match_children_complete r)))

    match_children_complete :
        {cs : Blocks} → ReachedChild traced cs → any_entered (match_blocks traced cs) ≡ true
    match_children_complete (here {b} {bs} r) =
        rw (any_entered-cons traced b bs) (or_left _ _ (match_complete r))
    match_children_complete (there {b} {bs} r) =
        rw (any_entered-cons traced b bs)
          (or_right (is_entered (match_block traced b)) _ (match_children_complete r))

-- After matching, a block is entered exactly if it was entered before, or a traced line lies strictly
-- between its braces and in none of its children, or one of its children is reached in this way.
pub match_block-entered_iff :
    (traced : List ℤ) (b : Block) → (is_entered (match_block traced b) ≡ true) ↔ Reached traced b
match_block-entered_iff traced b = (match_sound traced b, match_complete traced)

mutual
  unfolding match_block all_blocks

  all_blocks-match_lem :
      (traced : List ℤ) (b : Block)
      → all_blocks (match_block traced b) ≡ map (match_block traced) (all_blocks b)
  all_blocks-match_lem traced (block h cs) =
      ap (λ bs. match_block traced (block h cs) ∷ bs) (all_children-match traced cs)

  all_children-match :
      (traced : List ℤ) (cs : Blocks)
      → all_children (match_blocks traced cs) ≡ map (match_block traced) (all_children cs)
  all_children-match traced nil = refl
  all_children-match traced (cons b bs) =
      rw (all_blocks-match_lem traced b, all_children-match traced bs)
        (sym (map-append (match_block traced) (all_blocks b) (all_children bs)))

-- The blocks of a matched tree are, one by one and in order, the matched blocks of the tree.
pub all_blocks-match :
    (traced : List ℤ) (b : Block)
    → all_blocks (match_block traced b) ≡ map (match_block traced) (all_blocks b)
all_blocks-match traced b = all_blocks-match_lem traced b
