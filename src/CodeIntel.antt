-- ===== src/CodeIntel.antt =====
-- infra-codeintel: the records that its parts exchange (assembly/schemas.py).
pub mod DiGraph
pub mod Scores
pub mod Fusion
pub mod Files
pub mod Extraction
pub mod Pipeline
pub mod Listed
pub mod Watcher
pub mod Packing
pub mod Assembly
pub mod Structural
mod Tests
use praecepta.Prelude.{ℕ, String, List, Option}

pub record SourceLocation : Type 0 where
  pub file_path : String
  pub start_line : ℕ
  pub end_line : ℕ
  pub start_column : ℕ
  pub end_column : ℕ

-- `S` is the type of the scores, floating-point numbers that the modelled code only copies.
pub record CodeChunk (S : Type 0) : Type 0 where
  pub qualified_name : String
  pub name : String
  pub kind : String
  pub language : String
  pub location : SourceLocation
  pub signature : String
  pub docstring : Option String
  pub source_code : Option String
  pub context_snippet : Option String
  pub relevance_score : S
  pub structural_rank : S
  pub semantic_similarity : S
  pub retrieval_source : String
  pub calls : List String
  pub called_by : List String
  pub imports : List String
  pub imported_by : List String
  pub token_count : ℕ

-- types.py
pub data TagKind : Type 0 where
  definition reference : TagKind

pub record Tag : Type 0 where
  pub rel_fname : String
  pub fname : String
  pub line : ℕ
  pub name : String
  pub kind : TagKind
  pub sub_kind : String

pub data QueryIntent : Type 0 where
  understand modify navigate generate : QueryIntent

pub record SymbolSignature : Type 0 where
  pub qualified_name : String
  pub name : String
  pub kind : String
  pub language : String
  pub file_path : String
  pub start_line : ℕ
  pub end_line : ℕ
  pub signature : String
  pub docstring : Option String
  pub parent_symbol : Option String
  pub embedding_text : String
  pub token_count_estimate : ℕ
  pub last_modified : ℕ
