-- ===== src/Coverage/Extracted.antt =====
-- The blocks that `AnalyzeVCL` builds.
use vcltest.Base.{
  false, ◌≡◌, refl, ap, sym, ◌∙◌, List, [], ◌∷◌, ◌++◌, Option, none, some, All, All-append, subst,
  append_assoc, Option-cases, inl, inr,
}
use vcltest.Base.Int.{pos}
use vcltest.Base.Text.{Text}
use vcltest.Coverage.{
  BlockType, Header, Block, block, Blocks, nil, cons, append_blocks, FileBlocks, header, all_blocks,
  all_children,
}
use vcltest.Coverage.Analyzer.{
  Lines, Statement, if_statement, block_statement, other, Else, no_else, else_branch, Statements,
  none_left, then_more, SubDecl, Decl, sub_decl, other_decl, extract_if_block, extract_if_chain,
  extract_else, extract_else_branch, extract_nested_blocks, extract_sub_block, extract_subs,
  analyze_vcl,
}

abbrev pub IsFresh : Block → Type 0
IsFresh b = (header b).entered ≡ false

abbrev pub AllFresh : List Block → Type 0
AllFresh bs = All IsFresh bs

pub all_children-append :
    (as' bs : Blocks) → all_children (append_blocks as' bs) ≡ all_children as' ++ all_children bs
unfolding all_children
all_children-append nil bs = refl
all_children-append (cons b as') bs =
    ap (λ xs. all_blocks b ++ xs) (all_children-append as' bs)
    ∙ sym (append_assoc (all_blocks b) (all_children as') (all_children bs))

all_children-cons :
    (b : Block) (bs : Blocks)
    → AllFresh (all_blocks b)
    → AllFresh (all_children bs)
    → AllFresh (all_children (cons b bs))
unfolding all_children
all_children-cons b bs h k = All-append IsFresh (all_blocks b) (all_children bs) h k

all_blocks-block :
    (h : Header) (cs : Blocks)
    → h.entered ≡ false
    → AllFresh (all_children cs)
    → AllFresh (all_blocks (block h cs))
unfolding all_blocks
all_blocks-block h cs e k = (e, k)

nil-fresh : AllFresh (all_children nil)
unfolding all_children
nil-fresh = tt

mutual
  unfolding extract_nested_blocks

  if_block-fresh :
      (kind : BlockType) (at : Lines) (cond : Option Text) (s : Statement)
      → AllFresh (all_blocks (extract_if_block kind at cond s))
  if_block-fresh kind at cond (block_statement braces body) =
      all_blocks-block _ _ refl (nested-fresh body)
  if_block-fresh kind at cond (if_statement l c t e) = all_blocks-block _ nil refl nil-fresh
  if_block-fresh kind at cond (other l) = all_blocks-block _ nil refl nil-fresh

  chain-fresh : (s : Statement) → AllFresh (all_children (extract_if_chain s))
  chain-fresh (if_statement at cond t e) =
      all_children-cons _ _ (if_block-fresh _ at cond t) (else-fresh e)
  chain-fresh (block_statement l body) = nil-fresh
  chain-fresh (other l) = nil-fresh

  else-fresh : (e : Else) → AllFresh (all_children (extract_else e))
  else-fresh no_else = nil-fresh
  else-fresh (else_branch s) = branch-fresh s

  branch-fresh : (s : Statement) → AllFresh (all_children (extract_else_branch s))
  branch-fresh (if_statement at cond t e) =
      all_children-cons _ _ (if_block-fresh _ at cond t) (else-fresh e)
  branch-fresh (block_statement l body) =
      all_children-cons _ nil (all_blocks-block _ _ refl (nested-fresh body)) nil-fresh
  branch-fresh (other l) = all_children-cons _ nil (all_blocks-block _ nil refl nil-fresh) nil-fresh

  nested-fresh : (ss : Statements) → AllFresh (all_children (extract_nested_blocks ss))
  nested-fresh none_left = nil-fresh
  nested-fresh (then_more s ss) =
      subst AllFresh (sym (all_children-append (extract_if_chain s) (extract_nested_blocks ss)))
        (All-append IsFresh (all_children (extract_if_chain s)) _ (chain-fresh s) (nested-fresh ss))

sub-fresh : (d : SubDecl) → AllFresh (all_blocks (extract_sub_block d))
unfolding extract_sub_block
sub-fresh d = elim (Option-cases d.body) [
  | inl e ↦ rw (e, extract_sub_block) (all_blocks-block _ nil refl nil-fresh)
  | inr (b, e) ↦ rw (e, extract_sub_block) (all_blocks-block _ _ refl (nested-fresh b.1))
]

subs-fresh : (ds : List Decl) → AllFresh (all_children (extract_subs ds))
unfolding extract_subs
subs-fresh [] = nil-fresh
subs-fresh (sub_decl d ∷ ds) = all_children-cons _ _ (sub-fresh d) (subs-fresh ds)
subs-fresh (other_decl ∷ ds) = subs-fresh ds

abbrev pub names_of : Blocks → List Text
names_of nil = []
names_of (cons b bs) = (header b).name ∷ names_of bs

abbrev pub sub_names : List Decl → List Text
sub_names [] = []
sub_names (sub_decl d ∷ ds) = d.name ∷ sub_names ds
sub_names (other_decl ∷ ds) = sub_names ds

name-sub_block : (d : SubDecl) → (header (extract_sub_block d)).name ≡ d.name
unfolding extract_sub_block
name-sub_block d = elim (Option-cases d.body) [
  | inl e ↦ rw (e, extract_sub_block) refl
  | inr (b, e) ↦ rw (e, extract_sub_block) refl
]

names-subs : (ds : List Decl) → names_of (extract_subs ds) ≡ sub_names ds
unfolding extract_subs
names-subs [] = refl
names-subs (sub_decl d ∷ ds) = rw (name-sub_block d, names-subs ds) refl
names-subs (other_decl ∷ ds) = names-subs ds

-- An analysis succeeds exactly if the source parses. Its top-level blocks are then the subroutines of
-- the source, under their names and in their order, and no block at any depth is entered yet.
pub analyze_vcl_correct :
    (parse : Text → Text → Option (List Decl)) (source path : Text)
    → (parse source path ≡ none → analyze_vcl parse source path ≡ none)
      × ((ds : List Decl)
          → parse source path ≡ some ds
          → (fb : FileBlocks) × (analyze_vcl parse source path ≡ some fb)
            × (fb.filename ≡ path)
            × (names_of fb.blocks ≡ sub_names ds)
            × AllFresh (all_children fb.blocks))
unfolding analyze_vcl
analyze_vcl_correct parse source path = (
  λ e. rw (e, analyze_vcl) refl,
  λ ds e. (
    record { config_id = pos 0; filename = path; blocks = extract_subs ds },
    rw (e, analyze_vcl) refl,
    refl,
    names-subs ds,
    subs-fresh ds,
  ),
)
