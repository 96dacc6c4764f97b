-- ===== src/CodeIntel/Assembly/Response.antt =====
-- assembly/context_assembler.py: what a query responds with.
use praecepta.Prelude.{
  ℕ, ◌≤◌, String, ◌≡◌, refl, sym, ap, subst, ◌∙◌, Bool, true, false, List, [], ◌∷◌, ◌++◌, arith,
  Bool-cases, inl, inr,
}
use praecepta.Prelude.Int.{pos}
use praecepta.Text.Membership.{mem, distinct, distinct-append}
use praecepta.Errors.{Result, ok, ok-inj, both_returned}
use praecepta.CodeIntel.{CodeChunk}
use praecepta.CodeIntel.Scores.{Scores, names}
use praecepta.CodeIntel.Files.{
  Files, Read, read, missing, undecodable, hydrate_chunk, with_source, full_path,
}
use praecepta.CodeIntel.Assembly.{
  ContextQuery, ContextResponse, Indexes, chunk_names, symbol_name_to_chunk,
}
use praecepta.CodeIntel.Assembly.Query.{
  Gathered, direct_symbols, direct_files, build_chunks, expand_name, expand_edges, expand_chunks,
  expand_dependencies, hydrate_chunks, ranked_for, expanded, candidates, respond, run_query, query,
}
use praecepta.CodeIntel.Assembly.Names.{
  IsGathered, added-IsGathered, direct_symbols-IsGathered, direct_files-IsGathered, RecordsNamed,
  Relative, build_chunks-new, distinct-build_chunks, chunk_names-append,
}
use praecepta.CodeIntel.Packing.{sum_tokens, pack_to_budget, Packed}
use praecepta.CodeIntel.Packing.Names.{distinct-pack}
use praecepta.CodeIntel.Packing.Greedy.{pack-within}

module _ {S : Type 0} (F : Scores S) (files : Files) (repo_root : String) (I : Indexes S) where
  expand_name-IsGathered :
      (c : CodeChunk S) (n : String) (g : Gathered S)
      → IsGathered g
      → IsGathered (expand_name F files repo_root I c n g)
  unfolding expand_name symbol_name_to_chunk
  expand_name-IsGathered c n (chunks, seen) h = elim (Bool-cases (mem n seen)) [
    | inl e ↦ rw e h
    | inr e ↦ rw e (
        added-IsGathered chunks seen
          (symbol_name_to_chunk F n (F.mul c.relevance_score (F.tenths 5)) "dependency") e h)
  ]

  expand_edges-IsGathered :
      (c : CodeChunk S) (deps : List (String × String)) (g : Gathered S)
      → IsGathered g
      → IsGathered (expand_edges F files repo_root I c deps g)
  unfolding expand_edges
  expand_edges-IsGathered c [] g h = h
  expand_edges-IsGathered c ((s, t) ∷ deps) g h =
      expand_edges-IsGathered c deps _
        (expand_name-IsGathered c t _ (expand_name-IsGathered c s g h))

  expand_chunks-IsGathered :
      (depth : ℕ) (cs : List (CodeChunk S)) (g : Gathered S)
      → IsGathered g
      → IsGathered (expand_chunks F files repo_root I depth cs g)
  unfolding expand_chunks
  expand_chunks-IsGathered depth [] g h = h
  expand_chunks-IsGathered depth (c ∷ cs) g h =
      expand_chunks-IsGathered depth cs _
        (expand_edges-IsGathered c (I.dependencies c.qualified_name depth) g h)

  distinct-expand :
      (cs : List (CodeChunk S)) (depth : ℕ)
      → distinct (chunk_names cs) ≡ true
      → distinct (chunk_names (expand_dependencies F files repo_root I cs depth)) ≡ true
  unfolding expand_dependencies
  distinct-expand cs depth h =
      (expand_chunks-IsGathered depth cs (cs, chunk_names cs)
        (record { once = h; noted = λ n m. m })).once

  module _ (encode : String → Result ℕ) (as_set : List String → List String) where
    distinct-candidates :
        (q : ContextQuery S) (g : Gathered S) (cs : List (CodeChunk S))
        → candidates F files repo_root I encode as_set q g ≡ ok cs
        → RecordsNamed I
        → ((n : String)
            → mem n (names (ranked_for F files repo_root I encode as_set q q.natural_language))
              ≡ true
            → Relative F files repo_root I n)
        → IsGathered g
        → distinct (chunk_names cs) ≡ true
    unfolding candidates expanded
    distinct-candidates q g cs h named relative start =
        let (d, one, h') = both_returned (direct_files F files repo_root I q.file_paths g) _ h in
        let w = direct_files-IsGathered F files repo_root I q.file_paths g d one start in
        let ranked = ranked_for F files repo_root I encode as_set q q.natural_language in
        let (built, two, last) = both_returned (build_chunks F files repo_root I ranked d.1) _ h' in
        let all =
          ap distinct (chunk_names-append d.0 built)
          ∙ distinct-append (chunk_names d.0) (chunk_names built) w.once
              (distinct-build_chunks F files repo_root I ranked d.1 built two named relative)
              (λ n m. ground (
                arith,
                w.noted n,
                build_chunks-new F files repo_root I ranked d.1 built two named relative n m,
              )) in
        sym (ap (λ l. distinct (chunk_names l)) (ok-inj _ cs last))
        ∙ ground (arith, all, distinct-expand (d.0 ++ built) q.dependency_depth all)

name-with_source :
    {S : Type 0} (r : Read) (c d : CodeChunk S)
    → with_source c r ≡ ok d
    → c.qualified_name ≡ d.qualified_name
unfolding with_source
name-with_source {S} (read lines) c d h = ap (λ (e : CodeChunk S). e.qualified_name) (ok-inj _ d h)
name-with_source {S} missing c d h = ap (λ (e : CodeChunk S). e.qualified_name) (ok-inj _ d h)
name-with_source undecodable c d h = cc

-- Hydration leaves the name of a chunk.
name-hydrate_chunk :
    {S : Type 0} (files : Files) (repo_root : String) (b : Bool) (c d : CodeChunk S)
    → hydrate_chunk files repo_root b c ≡ ok d
    → c.qualified_name ≡ d.qualified_name
unfolding hydrate_chunk
name-hydrate_chunk files repo_root true c d h =
    name-with_source (files.read_text (full_path files repo_root c.location.file_path)) c d h
name-hydrate_chunk {S} files repo_root false c d h =
    ap (λ (e : CodeChunk S). e.qualified_name) (ok-inj _ d h)

names-hydrate_chunks :
    {S : Type 0} (F : Scores S) (files : Files) (repo_root : String) (I : Indexes S) (b : Bool)
    (cs ds : List (CodeChunk S))
    → hydrate_chunks F files repo_root I b cs ≡ ok ds
    → chunk_names cs ≡ chunk_names ds
unfolding hydrate_chunks
names-hydrate_chunks F files repo_root I b [] ds h = ap chunk_names (ok-inj [] ds h)
names-hydrate_chunks F files repo_root I b (c ∷ cs) ds h =
    let (d, one, h') = both_returned (hydrate_chunk files repo_root b c) _ h in
    let (rest, more, h'') = both_returned (hydrate_chunks F files repo_root I b cs) _ h' in
    ground (
      arith,
      ap chunk_names (ok-inj (d ∷ rest) ds h''),
      name-hydrate_chunk files repo_root b c d one,
      names-hydrate_chunks F files repo_root I b cs rest more,
    )

module _ {S : Type 0} (F : Scores S) (files : Files) (repo_root : String) (I : Indexes S)
    (encode : String → Result ℕ) (as_set : List String → List String) where
  -- What a query that responds went through.
  record Ran (q : ContextQuery S) (response : ContextResponse S) : Type 0 where
    direct : Gathered S
    listed : List (CodeChunk S)
    chunks : List (CodeChunk S)
    packed : Packed S
    gathered : direct_symbols F files repo_root I q.symbol_names ([], []) ≡ ok direct
    proposed : candidates F files repo_root I encode as_set q direct ≡ ok listed
    hydrated : hydrate_chunks F files repo_root I q.include_source_code listed ≡ ok chunks
    fitted : pack_to_budget encode chunks q.token_budget ≡ ok packed
    given_back : respond F files repo_root I encode as_set q packed ≡ response

  query-Ran :
      (q : ContextQuery S) (response : ContextResponse S)
      → query F files repo_root I encode as_set q ≡ ok response
      → Ran q response
  unfolding query run_query
  query-Ran q response h =
      let run : run_query F files repo_root I encode as_set q ≡ ok response = ground (arith, h) in
      let (direct, one, h') =
        both_returned (direct_symbols F files repo_root I q.symbol_names ([], [])) _ run in
      let (listed, made, h1) =
        both_returned (candidates F files repo_root I encode as_set q direct) _ h' in
      let (chunks, two, h2) =
        both_returned (hydrate_chunks F files repo_root I q.include_source_code listed) _ h1 in
      let (packed, three, last) =
        both_returned (pack_to_budget encode chunks q.token_budget) _ h2 in
      record {
        direct = direct;
        listed = listed;
        chunks = chunks;
        packed = packed;
        gathered = one;
        proposed = made;
        hydrated = two;
        fitted = three;
        given_back = ok-inj _ response last;
      }

  -- A response names no chunk twice, where the index keeps each record under its name and each ranked
  -- name that is the path of a file is written relative to the root.
  pub query-distinct :
      (q : ContextQuery S) (response : ContextResponse S)
      → query F files repo_root I encode as_set q ≡ ok response
      → RecordsNamed I
      → ((n : String)
          → mem n (names (ranked_for F files repo_root I encode as_set q q.natural_language)) ≡ true
          → Relative F files repo_root I n)
      → distinct (chunk_names response.chunks) ≡ true
  unfolding respond distinct mem
  query-distinct q response h named relative =
      let r = query-Ran q response h in
      let start : IsGathered {S = S} ([], []) = record { once = refl; noted = λ n m. m } in
      let direct =
        direct_symbols-IsGathered F files repo_root I q.symbol_names ([], []) r.direct r.gathered
          start in
      let listed =
        distinct-candidates F files repo_root I encode as_set q r.direct r.listed r.proposed named
          relative direct in
      let kept =
        names-hydrate_chunks F files repo_root I q.include_source_code _ r.chunks r.hydrated in
      ap (λ (o : ContextResponse S). distinct (chunk_names o.chunks)) (sym r.given_back)
      ∙ distinct-pack encode q.token_budget r.chunks r.packed r.fitted
          (subst (λ ns. distinct ns ≡ true) kept listed)

  -- For a budget that is not negative the chunks of a response fit it, and the tokens that it names
  -- are theirs.
  pub query-within :
      (b : ℕ) (q : ContextQuery S) (response : ContextResponse S)
      → q.token_budget ≡ pos b
      → query F files repo_root I encode as_set q ≡ ok response
      → (response.total_tokens_used ≤ b)
        × (response.total_tokens_used ≡ sum_tokens response.chunks)
        × (response.token_budget ≡ pos b)
  unfolding respond
  query-within b q response budget h =
      let r = query-Ran q response h in
      let (fit, total, _) =
        pack-within encode b r.chunks r.packed.0 r.packed.1 r.packed.2 (rw (sym budget) r.fitted) in
      subst
        (λ (o : ContextResponse S).
          (o.total_tokens_used ≤ b)
          × (o.total_tokens_used ≡ sum_tokens o.chunks)
          × (o.token_budget ≡ pos b))
        r.given_back (fit, total, budget)
