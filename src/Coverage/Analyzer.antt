-- ===== src/Coverage/Analyzer.antt =====
-- pkg/coverage/analyzer.go: the blocks of a parsed VCL file. The parser is vendored: it is a
-- parameter, and its tree is seen as far as the analyzer looks into it.
use vcltest.Base.{false, Option, none, some, List, [], ◌∷◌}
use vcltest.Base.Int.{ℤ, pos}
use vcltest.Base.Text.{Text}
use vcltest.Coverage.{
  BlockType, sub, if_, elseif, else_, Header, Block, block, Blocks, nil, cons, append_blocks,
  FileBlocks,
}

-- `Start().Line` and `End().Line` of a node.
pub record Lines : Type 0 where
  pub start : ℤ
  pub end : ℤ

-- The three cases of the type switches; a condition is its `String()`, `none` where it is nil.
mutual
  pub data Statement : Type 0 where
    if_statement : Lines → Option Text → Statement → Else → Statement
    block_statement : Lines → Statements → Statement
    other : Lines → Statement

  pub data Else : Type 0 where
    no_else : Else
    else_branch : Statement → Else

  pub data Statements : Type 0 where
    none_left : Statements
    then_more : Statement → Statements → Statements

pub record SubDecl : Type 0 where
  pub name : Text
  pub at : Lines
  pub body : Option (Lines × Statements)

pub data Decl : Type 0 where
  sub_decl : SubDecl → Decl
  other_decl : Decl

abbrev condition_string : Option Text → Text
condition_string none = []
condition_string (some s) = s

abbrev pub fresh : BlockType → Text → ℤ → Lines → Header
fresh kind name line braces = record {
  kind = kind;
  name = name;
  header_line = line;
  open_brace = braces.start;
  close_brace = braces.end;
  entered = false;
}

unfoldable mutual
  -- `extractIfBlock`, by its "then" part
  pub extract_if_block : BlockType → Lines → Option Text → Statement → Block
  extract_if_block kind at cond (block_statement braces body) =
      block (fresh kind (condition_string cond) at.start braces) (extract_nested_blocks body)
  extract_if_block kind at cond (if_statement l c t e) =
      block (fresh kind (condition_string cond) at.start l) nil
  extract_if_block kind at cond (other l) =
      block (fresh kind (condition_string cond) at.start l) nil

  -- `extractIfChain`, for the statements that are an `if`
  pub extract_if_chain : Statement → Blocks
  extract_if_chain (if_statement at cond then_part else_part) =
      cons (extract_if_block if_ at cond then_part) (extract_else else_part)
  extract_if_chain (block_statement l body) = nil
  extract_if_chain (other l) = nil

  pub extract_else : Else → Blocks
  extract_else no_else = nil
  extract_else (else_branch s) = extract_else_branch s

  -- `extractElseBranch`
  pub extract_else_branch : Statement → Blocks
  extract_else_branch (if_statement at cond then_part else_part) =
      cons (extract_if_block elseif at cond then_part) (extract_else else_part)
  extract_else_branch (block_statement l body) =
      cons (block (fresh else_ [] l.start l) (extract_nested_blocks body)) nil
  extract_else_branch (other l) = cons (block (fresh else_ [] l.start l) nil) nil

  -- `extractNestedBlocks`
  pub extract_nested_blocks : Statements → Blocks
  extract_nested_blocks none_left = nil
  extract_nested_blocks (then_more s ss) =
      append_blocks (extract_if_chain s) (extract_nested_blocks ss)

unfoldable pub extract_sub_block : SubDecl → Block
unfolding extract_nested_blocks
extract_sub_block d = elim d.body [
  | none ↦ block (fresh sub d.name d.at.start (record { start = pos 0; end = pos 0 })) nil
  | some (braces, body) ↦ block (fresh sub d.name d.at.start braces) (extract_nested_blocks body)
]

-- The loop over the declarations.
unfoldable pub extract_subs : List Decl → Blocks
unfolding extract_sub_block
extract_subs [] = nil
extract_subs (sub_decl d ∷ ds) = cons (extract_sub_block d) (extract_subs ds)
extract_subs (other_decl ∷ ds) = extract_subs ds

-- `AnalyzeVCL`; `none` stands for its error.
unfoldable pub analyze_vcl : (Text → Text → Option (List Decl)) → Text → Text → Option FileBlocks
unfolding extract_subs
analyze_vcl parse source path = elim (parse source path) [
  | none ↦ none
  | some decls ↦ some (record { config_id = pos 0; filename = path; blocks = extract_subs decls })
]
