-- ===== src/Coverage/Branches.antt =====
-- Which blocks `AnalyzeVCL` finds at any depth, against the branches of the source.
use vcltest.Base.{
  false, ◌≡◌, refl, ap, ◌∙◌, List, [], ◌∷◌, ◌++◌, Option, none, some, map, append-nil,
}
use mathlib.Core.List.{map-append}
use vcltest.Base.Int.{ℤ, pos}
use vcltest.Base.Text.{Text}
use vcltest.Coverage.{
  BlockType, sub, if_, elseif, else_, Header, block, Blocks, nil, cons, append_blocks, header,
  all_children,
}
use vcltest.Coverage.Analyzer.{
  Lines, Statement, if_statement, block_statement, other, Else, no_else, else_branch, Statements,
  none_left, then_more, SubDecl, Decl, sub_decl, other_decl, extract_if_block, extract_if_chain,
  extract_else, extract_else_branch, extract_nested_blocks,
}
use vcltest.Coverage.Extracted.{all_children-append}

-- What a statement covers.
abbrev pub lines_of : Statement → Lines
lines_of (if_statement at cond t e) = at
lines_of (block_statement at body) = at
lines_of (other at) = at

-- A branch that no trace has entered: its kind, its condition or name, the line that it begins on, and
-- what stands between its braces.
abbrev pub branch : BlockType → Text → ℤ → Lines → Header
branch kind name line braces = record {
  kind = kind;
  name = name;
  header_line = line;
  open_brace = braces.start;
  close_brace = braces.end;
  entered = false;
}

abbrev pub condition : Option Text → Text
condition none = []
condition (some s) = s

-- The branches of a source in the order in which they are written: those of an `if`, its `elseif`s and
-- its `else`, each followed by the branches within its braces.
unfoldable mutual
  pub branches : Statements → List Header
  branches none_left = []
  branches (then_more s ss) = chain s ++ branches ss

  pub chain : Statement → List Header
  chain (if_statement at cond t e) =
      branch if_ (condition cond) at.start (lines_of t) ∷ (within t ++ else_branches e)
  chain (block_statement at body) = []
  chain (other at) = []

  pub within : Statement → List Header
  within (if_statement at cond t e) = []
  within (block_statement at body) = branches body
  within (other at) = []

  pub else_branches : Else → List Header
  else_branches no_else = []
  else_branches (else_branch s) = last_branches s

  pub last_branches : Statement → List Header
  last_branches (if_statement at cond t e) =
      branch elseif (condition cond) at.start (lines_of t) ∷ (within t ++ else_branches e)
  last_branches (block_statement at body) = branch else_ [] at.start at ∷ branches body
  last_branches (other at) = branch else_ [] at.start at ∷ []

-- A subroutine with its branches; without a body it has the lines 0 to 0.
abbrev pub sub_branches : SubDecl → List Header
sub_branches d = elim d.body [
  | none ↦ branch sub d.name d.at.start (record { start = pos 0; end = pos 0 }) ∷ []
  | some (braces, body) ↦ branch sub d.name d.at.start braces ∷ branches body
]

abbrev pub all_branches : List Decl → List Header
all_branches [] = []
all_branches (sub_decl d ∷ ds) = sub_branches d ++ all_branches ds
all_branches (other_decl ∷ ds) = all_branches ds

-- The headers of all blocks, parents first.
abbrev pub headers : Blocks → List Header
headers bs = map header (all_children bs)

headers-nil : headers nil ≡ []
unfolding all_children
headers-nil = refl

headers-cons :
    (h : Header) (cs bs : Blocks) → headers (cons (block h cs) bs) ≡ h ∷ (headers cs ++ headers bs)
unfolding all_children
headers-cons h cs bs = ap (λ t. h ∷ t) (map-append header (all_children cs) (all_children bs))

headers-block :
    (h : Header) (cs bs : Blocks) (hs : List Header)
    → headers cs ≡ hs
    → headers (cons (block h cs) bs) ≡ h ∷ (hs ++ headers bs)
headers-block h cs bs hs q = headers-cons h cs bs ∙ ap (λ t. h ∷ (t ++ headers bs)) q

headers-append : (as' bs : Blocks) → headers (append_blocks as' bs) ≡ headers as' ++ headers bs
headers-append as' bs =
    ap (map header) (all_children-append as' bs)
    ∙ map-append header (all_children as') (all_children bs)

headers-only :
    (h : Header) (cs : Blocks) (hs : List Header)
    → headers cs ≡ hs
    → headers (cons (block h cs) nil) ≡ h ∷ hs
headers-only h cs hs q =
    headers-cons h cs nil
    ∙ ap (λ t. h ∷ t) (ap (λ t. headers cs ++ t) headers-nil ∙ append-nil (headers cs) ∙ q)

headers-leaf : (h : Header) (bs : Blocks) → headers (cons (block h nil) bs) ≡ h ∷ headers bs
headers-leaf h bs = headers-cons h nil bs ∙ ap (λ t. h ∷ (t ++ headers bs)) headers-nil

mutual
  unfolding extract_nested_blocks branches

  headers-if :
      (kind : BlockType) (at : Lines) (cond : Option Text) (s : Statement) (bs : Blocks)
      → headers (cons (extract_if_block kind at cond s) bs)
        ≡ branch kind (condition cond) at.start (lines_of s) ∷ (within s ++ headers bs)
  headers-if kind at none (block_statement braces body) bs =
      headers-block _ _ bs (branches body) (headers-nested body)
  headers-if kind at (some c) (block_statement braces body) bs =
      headers-block _ _ bs (branches body) (headers-nested body)
  headers-if kind at none (if_statement l c t e) bs = headers-leaf _ bs
  headers-if kind at (some d) (if_statement l c t e) bs = headers-leaf _ bs
  headers-if kind at none (other l) bs = headers-leaf _ bs
  headers-if kind at (some d) (other l) bs = headers-leaf _ bs

  headers-chain : (s : Statement) → headers (extract_if_chain s) ≡ chain s
  headers-chain (if_statement at cond t e) =
      headers-if if_ at cond t (extract_else e)
      ∙ ap (λ hs. branch if_ (condition cond) at.start (lines_of t) ∷ (within t ++ hs))
          (headers-else e)
  headers-chain (block_statement l body) = headers-nil
  headers-chain (other l) = headers-nil

  headers-else : (e : Else) → headers (extract_else e) ≡ else_branches e
  headers-else no_else = headers-nil
  headers-else (else_branch s) = headers-last s

  headers-last : (s : Statement) → headers (extract_else_branch s) ≡ last_branches s
  headers-last (if_statement at cond t e) =
      headers-if elseif at cond t (extract_else e)
      ∙ ap (λ hs. branch elseif (condition cond) at.start (lines_of t) ∷ (within t ++ hs))
          (headers-else e)
  headers-last (block_statement l body) = headers-only _ _ (branches body) (headers-nested body)
  headers-last (other l) = headers-only _ nil [] headers-nil

  headers-nested : (ss : Statements) → headers (extract_nested_blocks ss) ≡ branches ss
  headers-nested none_left = headers-nil
  headers-nested (then_more s ss) =
      headers-append (extract_if_chain s) (extract_nested_blocks ss)
      ∙ ap (λ hs. hs ++ headers (extract_nested_blocks ss)) (headers-chain s)
      ∙ ap (λ hs. chain s ++ hs) (headers-nested ss)
