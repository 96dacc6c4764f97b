-- ===== src/CodeIntel/Assembly.antt =====
-- assembly/context_assembler.py (packages/infra-codeintel): queries, responses and the chunks made from
-- records, names and files.
pub mod Query
pub mod Names
pub mod Response
pub mod Outcomes
mod Tests
use praecepta.Prelude.{
  ℕ, zero, suc, ◌+◌, ◌*◌, String, ◌≡◌, Bool, true, false, not, ◌&&◌, ◌||◌, List, [], ◌∷◌, ◌++◌,
  Option, none, some, str_eq, if◌then◌else◌, ltb, ◌==◌,
}
use Prim.Native.Char.{code}
use praecepta.Prelude.Int.{ℤ}
use praecepta.Text.{truthy}
use praecepta.Text.Membership.{mem}
use praecepta.Dict
use praecepta.Dict.{Dict}
use praecepta.Errors.{Result, ok, err, ◌>>=◌, code_intel_error}
use praecepta.CodeIntel.{CodeChunk, SourceLocation, SymbolSignature, QueryIntent}
use praecepta.CodeIntel.Scores.{Scores}
use praecepta.CodeIntel.Fusion.{fuse_rankings}
use praecepta.CodeIntel.Files.{Files, full_path, relative_or, hydrate_chunk}
use praecepta.CodeIntel.Packing.{Packed, pack_to_budget}

pub record ContextQuery (S : Type 0) : Type 0 where
  pub natural_language : Option String
  pub symbol_names : List String
  pub file_paths : List String
  pub intent : QueryIntent
  pub token_budget : ℤ
  pub max_chunks : ℕ
  pub languages : List String
  pub symbol_kinds : List String
  pub include_dependencies : Bool
  pub dependency_depth : ℕ
  pub include_source_code : Bool
  pub structural_weight : S
  pub semantic_weight : S

pub record ContextResponse (S : Type 0) : Type 0 where
  pub chunks : List (CodeChunk S)
  pub total_tokens_used : ℕ
  pub token_budget : ℤ
  pub chunks_available : ℕ
  pub intent_detected : QueryIntent

-- What the pipeline asks of the two indexes; `dependencies` is `get_dependencies` in both directions.
pub record Indexes (S : Type 0) : Type 0 where
  pub search : String → (top_k : ℕ) → (filters : Dict String) → Dict S
  pub search_by_name : String → List String
  pub get_symbol_record : String → Option SymbolSignature
  pub get_ranked_symbols : (top_k : ℕ) → Dict S
  pub dependencies : String → (depth : ℕ) → List (String × String)

-- `bool(xs)`
abbrev pub nonempty {ℓ} : {A : Type ℓ} → List A → Bool
nonempty [] = false
nonempty (x ∷ xs) = true

abbrev pub given : Option String → Bool
given none = false
given (some s) = truthy s

-- `query.validate()`
unfoldable pub has_criteria : {S : Type 0} → ContextQuery S → Bool
has_criteria q = given q.natural_language || nonempty q.symbol_names || nonempty q.file_paths

-- `name.rsplit(".", maxsplit=1)[-1]`: what stands behind the last full stop seen so far
unfoldable pub behind : (found : String) → String → String
behind found String.[] = found
behind found (String.◌∷◌ c s) = behind (if code c == b'.' then s else found) s

unfoldable pub last_part : String → String
last_part s = behind s s

-- `_build_filters`, where no filter is an empty dict
unfoldable pub first_under : String → List String → Dict String → Dict String
first_under key [] filters = filters
first_under key (x ∷ xs) filters = Dict.put filters key x

unfoldable pub build_filters : {S : Type 0} → ContextQuery S → Dict String
build_filters q = first_under "kind" q.symbol_kinds (first_under "language" q.languages [])

abbrev pub chunk_names : {S : Type 0} → List (CodeChunk S) → List String
chunk_names [] = []
chunk_names (c ∷ cs) = c.qualified_name ∷ chunk_names cs

module _ {S : Type 0} (F : Scores S) where
  unfoldable pub symbol_name_to_chunk :
      (name : String) → (relevance_score : S) → (retrieval_source : String) → CodeChunk S
  symbol_name_to_chunk name relevance_score retrieval_source = record {
    qualified_name = name;
    name = last_part name;
    kind = "unknown";
    language = "unknown";
    location = record {
      file_path = name;
      start_line = 0;
      end_line = 0;
      start_column = 0;
      end_column = 0;
    };
    signature = name;
    docstring = none;
    source_code = none;
    context_snippet = none;
    relevance_score = relevance_score;
    structural_rank = F.tenths 0;
    semantic_similarity = F.tenths 0;
    retrieval_source = retrieval_source;
    calls = [];
    called_by = [];
    imports = [];
    imported_by = [];
    token_count = 10;
  }

  module _ (files : Files) (repo_root : String) where
    unfoldable pub symbol_record_to_chunk :
        SymbolSignature → (relevance_score : S) → (retrieval_source : String) → CodeChunk S
    symbol_record_to_chunk r relevance_score retrieval_source = record {
      qualified_name = r.qualified_name;
      name = r.name;
      kind = r.kind;
      language = r.language;
      location = record {
        file_path = relative_or files repo_root r.file_path r.file_path;
        start_line = r.start_line;
        end_line = r.end_line;
        start_column = 0;
        end_column = 0;
      };
      signature = r.signature;
      docstring = r.docstring;
      source_code = none;
      context_snippet = none;
      relevance_score = relevance_score;
      structural_rank = F.tenths 0;
      semantic_similarity = F.tenths 0;
      retrieval_source = retrieval_source;
      calls = [];
      called_by = [];
      imports = [];
      imported_by = [];
      token_count = r.token_count_estimate;
    }

    abbrev pub lines_or_zero : Option ℕ → ℕ
    lines_or_zero none = 0
    lines_or_zero (some n) = n

    -- the chunk of a file that exists
    unfoldable pub file_chunk : (file_path path : String) → CodeChunk S
    file_chunk file_path path =
        let line_count = lines_or_zero (files.count_lines path) in
        let rel = relative_or files repo_root path file_path in
        record {
          qualified_name = rel;
          name = files.base_name path;
          kind = "file";
          language = "unknown";
          location = record {
            file_path = rel;
            start_line = 1;
            end_line = line_count;
            start_column = 0;
            end_column = 0;
          };
          signature = rel;
          docstring = none;
          source_code = none;
          context_snippet = none;
          relevance_score = F.tenths 10;
          structural_rank = F.tenths 0;
          semantic_similarity = F.tenths 0;
          retrieval_source = "direct";
          calls = [];
          called_by = [];
          imports = [];
          imported_by = [];
          token_count = if ltb (line_count * 8) 10 then 10 else line_count * 8;
        }

    unfoldable pub file_path_to_chunk : String → Result (Option (CodeChunk S))
    file_path_to_chunk file_path = do
      there ← files.exists (full_path files repo_root file_path)
      ok (if there then some (file_chunk file_path (full_path files repo_root file_path)) else none)
