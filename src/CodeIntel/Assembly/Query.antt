-- ===== src/CodeIntel/Assembly/Query.antt =====
-- assembly/context_assembler.py (packages/infra-codeintel): the steps of `DefaultContextAssembler`.
use praecepta.Prelude.{
  ℕ, String, Bool, true, List, [], ◌∷◌, ◌++◌, Option, none, some, if◌then◌else◌,
}
use praecepta.Text.{truthy}
use praecepta.Text.Membership.{mem}
use praecepta.Dict.{Dict}
use praecepta.Errors.{Result, ok, err, ◌>>=◌, code_intel_error}
use praecepta.CodeIntel.{CodeChunk, SymbolSignature}
use praecepta.CodeIntel.Scores.{Scores}
use praecepta.CodeIntel.Fusion.{fuse_rankings}
use praecepta.CodeIntel.Files.{Files, hydrate_chunk}
use praecepta.CodeIntel.Packing.{Packed, pack_to_budget}
use praecepta.CodeIntel.Assembly.{
  ContextQuery, ContextResponse, Indexes, has_criteria, last_part, build_filters, chunk_names,
  symbol_name_to_chunk, symbol_record_to_chunk, file_path_to_chunk,
}

-- chunks gathered so far, with the names seen
abbrev pub Gathered : Type 0 → Type 0
Gathered S = List (CodeChunk S) × List String

-- `if chunk and chunk.qualified_name not in seen_names: ...`
unfoldable pub gather : {S : Type 0} → Option (CodeChunk S) → Gathered S → Gathered S
gather none g = g
gather (some c) (chunks, seen) =
    if mem c.qualified_name seen
    then (chunks, seen)
    else (chunks ++ c ∷ [], c.qualified_name ∷ seen)

module _ {S : Type 0} (F : Scores S) (files : Files) (repo_root : String) (I : Indexes S) where
  -- the record of a name, or of a symbol with the short name `qualified_name.rsplit(".", 1)[-1]`
  unfoldable pub short_match :
      (qualified_name : String) → (results : List String) → Option SymbolSignature
  short_match qualified_name [] = none
  short_match qualified_name (r ∷ results) =
      I.get_symbol_record (if mem qualified_name (r ∷ results) then qualified_name else r)

  unfoldable pub find_record :
      (qualified_name : String) → Option SymbolSignature → Option SymbolSignature
  find_record qualified_name (some r) = some r
  find_record qualified_name none =
      short_match qualified_name (I.search_by_name (last_part qualified_name))

  unfoldable pub hydrate_record : Option SymbolSignature → Result (Option (CodeChunk S))
  hydrate_record none = ok none
  hydrate_record (some r) = do
    c ←
        hydrate_chunk files repo_root true
          (symbol_record_to_chunk F files repo_root r (F.tenths 10) "direct")
    ok (some c)

  unfoldable pub get_symbol : (qualified_name : String) → Result (Option (CodeChunk S))
  get_symbol qualified_name =
      hydrate_record (find_record qualified_name (I.get_symbol_record qualified_name))

  -- the loops of step 3
  unfoldable pub direct_symbols : List String → Gathered S → Result (Gathered S)
  direct_symbols [] g = ok g
  direct_symbols (name ∷ rest) g = do c ← get_symbol name; direct_symbols rest (gather c g)

  unfoldable pub direct_files : List String → Gathered S → Result (Gathered S)
  direct_files [] g = ok g
  direct_files (path ∷ rest) g = do
    c ← file_path_to_chunk F files repo_root path
    direct_files rest (gather c g)

  -- one entry of the fused ranking
  unfoldable pub resolve_file : (name : String) → (score : S) → Option (CodeChunk S) → CodeChunk S
  resolve_file name score none = symbol_name_to_chunk F name score "search"
  resolve_file name score (some c) = record c { relevance_score = score }

  unfoldable pub resolve :
      (name : String) → (score : S) → Option SymbolSignature → Result (CodeChunk S)
  resolve name score (some r) = ok (symbol_record_to_chunk F files repo_root r score "search")
  resolve name score none = do
    c ← file_path_to_chunk F files repo_root name
    ok (resolve_file name score c)

  -- `_build_chunks_from_ranked`
  unfoldable pub build_chunks : Dict S → (seen : List String) → Result (List (CodeChunk S))
  build_chunks [] seen = ok []
  build_chunks ((name, score) ∷ ranked) seen =
      let rest = build_chunks ranked (name ∷ seen) in
      if mem name seen
      then build_chunks ranked seen
      else (do c ← resolve name score (I.get_symbol_record name); cs ← rest; ok (c ∷ cs))

  -- `_expand_dependencies`: one name, one edge's two names, one chunk's edges, all chunks
  unfoldable pub expand_name : (chunk : CodeChunk S) → (name : String) → Gathered S → Gathered S
  expand_name chunk name (expanded, seen) = if mem name seen then (expanded, seen) else (
    expanded
        ++ symbol_name_to_chunk F name (F.mul chunk.relevance_score (F.tenths 5)) "dependency" ∷ [],
    name ∷ seen,
  )

  unfoldable pub expand_edges :
      (chunk : CodeChunk S) → List (String × String) → Gathered S → Gathered S
  expand_edges chunk [] g = g
  expand_edges chunk ((source, target) ∷ deps) g =
      expand_edges chunk deps (expand_name chunk target (expand_name chunk source g))

  unfoldable pub expand_chunks : (depth : ℕ) → List (CodeChunk S) → Gathered S → Gathered S
  expand_chunks depth [] g = g
  expand_chunks depth (c ∷ cs) g =
      expand_chunks depth cs (expand_edges c (I.dependencies c.qualified_name depth) g)

  unfoldable pub expand_dependencies : List (CodeChunk S) → (depth : ℕ) → List (CodeChunk S)
  expand_dependencies chunks depth = (expand_chunks depth chunks (chunks, chunk_names chunks)).0

  unfoldable pub hydrate_chunks :
      (include_source : Bool) → List (CodeChunk S) → Result (List (CodeChunk S))
  hydrate_chunks include_source [] = ok []
  hydrate_chunks include_source (c ∷ cs) = do
    d ← hydrate_chunk files repo_root include_source c
    ds ← hydrate_chunks include_source cs
    ok (d ∷ ds)

  -- `encode` counts the tokens of a text, and `as_set` gives the order of a set of names.
  module _ (encode : String → Result ℕ) (as_set : List String → List String) where
    -- steps 2 and 4
    unfoldable pub ranked_for : ContextQuery S → Option String → Dict S
    ranked_for q none =
        fuse_rankings F as_set [] [] q.intent (some q.structural_weight) (some q.semantic_weight)
    ranked_for q (some text) =
        fuse_rankings F as_set (if truthy text then I.get_ranked_symbols q.max_chunks else [])
          (if truthy text then I.search text q.max_chunks (build_filters q) else []) q.intent
          (some q.structural_weight) (some q.semantic_weight)

    -- steps 3 to 5
    unfoldable pub expanded : ContextQuery S → List (CodeChunk S) → List (CodeChunk S)
    expanded q chunks =
        if q.include_dependencies then expand_dependencies chunks q.dependency_depth else chunks

    unfoldable pub candidates : ContextQuery S → Gathered S → Result (List (CodeChunk S))
    candidates q symbols = do
      direct ← direct_files q.file_paths symbols
      built ← build_chunks (ranked_for q q.natural_language) direct.1
      ok (expanded q (direct.0 ++ built))

    -- what step 7 packed
    unfoldable pub respond : ContextQuery S → Packed S → ContextResponse S
    respond q (selected, used, remaining) = record {
      chunks = selected;
      total_tokens_used = used;
      token_budget = q.token_budget;
      chunks_available = remaining;
      intent_detected = q.intent;
    }

    unfoldable pub run_query : ContextQuery S → Result (ContextResponse S)
    run_query q = do
      direct ← direct_symbols q.symbol_names ([], [])
      listed ← candidates q direct
      chunks ← hydrate_chunks q.include_source_code listed
      packed ← pack_to_budget encode chunks q.token_budget
      ok (respond q packed)

    unfoldable pub query : ContextQuery S → Result (ContextResponse S)
    query q =
        if has_criteria q
        then run_query q
        else err (
            code_intel_error
              "ContextQuery requires at least one of natural_language, symbol_names, or file_paths")
