-- ===== src/Formatter/Failure.antt =====
-- The message of a failed test: when it says that no block of the VCL was entered.
use vcltest.Base.{
  true, Option, none, some, List, [], ◌∷◌, ◌++◌, ◌≡◌, ◌⊎◌, inl, inr, ◌↔◌, any_iff, Any, or_cases,
  or_left, or_right,
}
use vcltest.Coverage.{Block, Blocks, block, nil, cons, FileBlocks, header, all_blocks, all_children}
use vcltest.Formatter.Message.{
  block_has_any_entered, any_has_entered, file_entered, any_file_entered, VclFileInfoWithBlocks,
}

abbrev pub IsEntered : Block → Type 0
IsEntered b = (header b).entered ≡ true

Any-append_left : (P : Block → Type 0) (bs cs : List Block) → Any P bs → Any P (bs ++ cs)
Any-append_left P [] cs h = absurd h
Any-append_left P (b ∷ bs) cs (inl p) = inl p
Any-append_left P (b ∷ bs) cs (inr h) = inr (Any-append_left P bs cs h)

Any-append_right : (P : Block → Type 0) (bs cs : List Block) → Any P cs → Any P (bs ++ cs)
Any-append_right P [] cs h = h
Any-append_right P (b ∷ bs) cs h = inr (Any-append_right P bs cs h)

Any-append_cases :
    (P : Block → Type 0) (bs cs : List Block) → Any P (bs ++ cs) → Any P bs ⊎ Any P cs
Any-append_cases P [] cs h = inr h
Any-append_cases P (b ∷ bs) cs (inl p) = inl (inl p)
Any-append_cases P (b ∷ bs) cs (inr h) = elim (Any-append_cases P bs cs h) [
  | inl l ↦ inl (inr l)
  | inr r ↦ inr r
]

mutual
  unfolding block_has_any_entered any_has_entered all_blocks all_children

  block_has_any_entered_only :
      (b : Block) → block_has_any_entered b ≡ true → Any IsEntered (all_blocks b)
  block_has_any_entered_only (block h cs) e = elim (or_cases h.entered (any_has_entered cs) e) [
    | inl y ↦ inl y
    | inr r ↦ inr (any_has_entered_only cs r)
  ]

  any_has_entered_only : (bs : Blocks) → any_has_entered bs ≡ true → Any IsEntered (all_children bs)
  any_has_entered_only nil e = absurd (cc e)
  any_has_entered_only (cons b bs) e =
      elim (or_cases (block_has_any_entered b) (any_has_entered bs) e) [
        | inl y ↦
            Any-append_left IsEntered (all_blocks b) (all_children bs)
              (block_has_any_entered_only b y)
        | inr r ↦
            Any-append_right IsEntered (all_blocks b) (all_children bs) (any_has_entered_only bs r)
      ]

mutual
  unfolding block_has_any_entered any_has_entered all_blocks all_children

  block_has_any_entered_if :
      (b : Block) → Any IsEntered (all_blocks b) → block_has_any_entered b ≡ true
  block_has_any_entered_if (block h cs) (inl y) = or_left h.entered (any_has_entered cs) y
  block_has_any_entered_if (block h cs) (inr r) =
      or_right h.entered (any_has_entered cs) (any_has_entered_if cs r)

  any_has_entered_if : (bs : Blocks) → Any IsEntered (all_children bs) → any_has_entered bs ≡ true
  any_has_entered_if nil h = absurd h
  any_has_entered_if (cons b bs) h =
      elim (Any-append_cases IsEntered (all_blocks b) (all_children bs) h) [
        | inl l ↦
            or_left (block_has_any_entered b) (any_has_entered bs) (block_has_any_entered_if b l)
        | inr r ↦ or_right (block_has_any_entered b) (any_has_entered bs) (any_has_entered_if bs r)
      ]

-- Every block of a file, at any depth; a file may have no block tree.
abbrev pub tree_blocks : Option FileBlocks → List Block
unfolding all_children
tree_blocks none = []
tree_blocks (some fb) = all_children fb.blocks

file_entered_iff :
    (fb : Option FileBlocks) → (file_entered fb ≡ true) ↔ Any IsEntered (tree_blocks fb)
unfolding file_entered all_children
file_entered_iff none = (λ e. absurd (cc e), λ h. absurd h)
file_entered_iff (some fb) = (any_has_entered_only fb.blocks, any_has_entered_if fb.blocks)

Any-map :
    (P Q : VclFileInfoWithBlocks → Type 0) (fs : List VclFileInfoWithBlocks)
    → ((f : VclFileInfoWithBlocks) → P f → Q f)
    → Any P fs
    → Any Q fs
Any-map P Q [] h k = absurd k
Any-map P Q (f ∷ fs) h (inl p) = inl (h f p)
Any-map P Q (f ∷ fs) h (inr k) = inr (Any-map P Q fs h k)

-- The test that decides whether a failed test's message shows the files with their blocks, or says that
-- no block was entered, holds exactly where some file has an entered block, at any depth of its tree.
pub any_file_entered_iff :
    (files : List VclFileInfoWithBlocks)
    → (any_file_entered files ≡ true) ↔ Any (λ f. Any IsEntered (tree_blocks f.blocks)) files
unfolding any_file_entered
any_file_entered_iff files = (
  λ e.
      Any-map _ _ files (λ f. (file_entered_iff f.blocks).0)
        ((any_iff (λ f. file_entered f.blocks) files).0 e),
  λ h.
      (any_iff (λ f. file_entered f.blocks) files).1
        (Any-map _ _ files (λ f. (file_entered_iff f.blocks).1) h),
)
