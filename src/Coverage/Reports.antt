-- ===== src/Coverage/Reports.antt =====
-- The lists of entered and of not entered blocks, and the tolerant matcher.
use vcltest.Base.{
  Bool, true, false, not, ◌≡◌, refl, ap, sym, ◌↔◌, ◌⊎◌, inl, inr, List, ◌∷◌, ℕ, zero, suc, filter,
  contains, contains_iff, In, arith, Bool-cases, if◌then◌else◌, or_cases, or_left, or_right, Any,
  In-Any, Any-In, subst, filter-append,
}
use vcltest.Base.Int.{ℤ, int_eq, pos, ◌+ℤ◌, ◌-ℤ◌, ◌≤ℤ◌, ◌<ℤ◌, <ℤ_total, int_laws, parts_zero}
use vcltest.Coverage.{
  Header, Block, block, Blocks, nil, cons, header, rounds, all_blocks, all_children,
}
use vcltest.Coverage.Matcher.{
  near_trace, match_block_with_tolerance, match_blocks_with_tolerance, blocks_with, children_with,
}

-- The test of `getEnteredRecursive` (true) and of `getNotEnteredRecursive` (false).
abbrev pub has_flag : Bool → Block → Bool
has_flag flag b = if flag then (header b).entered else not (header b).entered

mutual
  unfolding blocks_with all_blocks

  blocks_with-filter_lem :
      (flag : Bool) (b : Block) → blocks_with flag b ≡ filter (has_flag flag) (all_blocks b)
  blocks_with-filter_lem flag (block h cs) = elim (Bool-cases (has_flag flag (block h cs))) [
    | inl e ↦ rw e (ap (λ bs. block h cs ∷ bs) (children_with-filter_lem flag cs))
    | inr e ↦ rw e (children_with-filter_lem flag cs)
  ]

  children_with-filter_lem :
      (flag : Bool) (cs : Blocks) → children_with flag cs ≡ filter (has_flag flag) (all_children cs)
  children_with-filter_lem flag nil = refl
  children_with-filter_lem flag (cons b bs) =
      rw (blocks_with-filter_lem flag b, children_with-filter_lem flag bs)
        (sym (filter-append (has_flag flag) (all_blocks b) (all_children bs)))

-- The two lists are the sublists of all blocks, in their order, whose flag is set and is not set.
pub children_with-filter :
    (flag : Bool) (cs : Blocks) → children_with flag cs ≡ filter (has_flag flag) (all_children cs)
children_with-filter flag cs = children_with-filter_lem flag cs

near_trace_sound :
    (n : ℕ) (line : ℤ) (traced : List ℤ)
    → near_trace n line traced ≡ true
    → (l : ℤ) × In l traced × (line ≤ℤ l) × (l <ℤ line +ℤ pos n)
unfolding near_trace
near_trace_sound zero line traced h = cc
near_trace_sound (suc n) line traced h = elim (or_cases _ _ h) [
  | inl here ↦ (line, (contains_iff traced line).0 here, omega arith, omega int_laws)
  | inr later ↦
      let (l, m, lo, hi) = near_trace_sound n (line +ℤ pos 1) traced later in
      (l, m, omega int_laws, omega int_laws)
]

near_trace_complete :
    (n : ℕ) (line : ℤ) (traced : List ℤ) (l : ℤ)
    → In l traced
    → line ≤ℤ l
    → l <ℤ line +ℤ pos n
    → near_trace n line traced ≡ true
unfolding near_trace
near_trace_complete zero line traced l m lo hi = absurd (omega int_laws)
near_trace_complete (suc n) line traced l m lo hi = elim (<ℤ_total line l) [
  | inl below ↦
      or_right (contains traced line) _
        (near_trace_complete n (line +ℤ pos 1) traced l m (omega int_laws) (omega int_laws))
  | inr (inl same) ↦
      or_left _ _ ((contains_iff traced line).1 (subst (λ x. In x traced) (sym same) m))
  | inr (inr above) ↦ absurd (omega arith)
]

-- A traced line within the tolerance of the opening brace.
abbrev pub Near : ℤ → ℤ → ℤ → Type 0
Near tolerance brace l = (brace -ℤ tolerance ≤ℤ l) × (l ≤ℤ brace +ℤ tolerance)

module _ (tolerance brace : ℤ) (traced : List ℤ) where
  abbrev near : Bool
  near = near_trace (rounds (pos 0 -ℤ tolerance) tolerance) (brace -ℤ tolerance) traced

  -- The loop runs over `2 * tolerance + 1` lines, and over none for a negative tolerance.
  rounds_end :
      (l : ℤ)
      → (l <ℤ (brace -ℤ tolerance) +ℤ pos (rounds (pos 0 -ℤ tolerance) tolerance))
        × (brace -ℤ tolerance ≤ℤ l)
      → l ≤ℤ brace +ℤ tolerance
  rounds_end l h = omega (int_laws, parts_zero (tolerance +ℤ pos 1 -ℤ (pos 0 -ℤ tolerance)))

  within_rounds :
      (l : ℤ)
      → Near tolerance brace l
      → l <ℤ (brace -ℤ tolerance) +ℤ pos (rounds (pos 0 -ℤ tolerance) tolerance)
  within_rounds l h = omega (int_laws, parts_zero (tolerance +ℤ pos 1 -ℤ (pos 0 -ℤ tolerance)))

  near_iff : (near ≡ true) ↔ Any (Near tolerance brace) traced
  near_iff = (
    λ h.
        let (l, m, lo, hi) = near_trace_sound _ _ traced h in
        In-Any (Near tolerance brace) traced m (lo, rounds_end l (hi, lo)),
    λ a.
        let (l, m, n) = Any-In (Near tolerance brace) traced a in
        near_trace_complete _ _ traced l m n.0 (within_rounds l n),
  )

-- One tree is another with only its flags changed: a block is entered exactly if it was before or a
-- traced line is near its opening brace, and so is every block below it.
mutual
  pub data Marked (tolerance : ℤ) (traced : List ℤ) : Block → Block → Type 0 where
    marked :
        {h h' : Header} {cs cs' : Blocks}
        → record h' { entered = false } ≡ record h { entered = false }
        → (h'.entered ≡ true) ↔ ((h.entered ≡ true) ⊎ Any (Near tolerance h.open_brace) traced)
        → AllMarked tolerance traced cs cs'
        → Marked tolerance traced (block h cs) (block h' cs')

  pub data AllMarked (tolerance : ℤ) (traced : List ℤ) : Blocks → Blocks → Type 0 where
    no_more : AllMarked tolerance traced nil nil
    and_more :
        {b b' : Block} {bs bs' : Blocks}
        → Marked tolerance traced b b'
        → AllMarked tolerance traced bs bs'
        → AllMarked tolerance traced (cons b bs) (cons b' bs')

mutual
  unfolding match_block_with_tolerance

  match_block_with_tolerance-Marked_lem :
      (tolerance : ℤ) (traced : List ℤ) (b : Block)
      → Marked tolerance traced b (match_block_with_tolerance tolerance traced b)
  match_block_with_tolerance-Marked_lem tolerance traced (block h cs) =
      marked refl (ground (arith, near_iff tolerance h.open_brace traced))
        (match_blocks_with_tolerance-AllMarked tolerance traced cs)

  match_blocks_with_tolerance-AllMarked :
      (tolerance : ℤ) (traced : List ℤ) (bs : Blocks)
      → AllMarked tolerance traced bs (match_blocks_with_tolerance tolerance traced bs)
  match_blocks_with_tolerance-AllMarked tolerance traced nil = no_more
  match_blocks_with_tolerance-AllMarked tolerance traced (cons b bs) =
      and_more (match_block_with_tolerance-Marked_lem tolerance traced b)
        (match_blocks_with_tolerance-AllMarked tolerance traced bs)

-- With tolerance every block of the tree, the nested ones too, is entered exactly if it was entered
-- before, or a traced line is at most `tolerance` lines away from its opening brace; nothing else of
-- the tree changes.
pub match_block_with_tolerance-Marked :
    (tolerance : ℤ) (traced : List ℤ) (b : Block)
    → Marked tolerance traced b (match_block_with_tolerance tolerance traced b)
match_block_with_tolerance-Marked tolerance traced b =
    match_block_with_tolerance-Marked_lem tolerance traced b
