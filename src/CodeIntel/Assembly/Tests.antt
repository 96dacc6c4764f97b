-- ===== src/CodeIntel/Assembly/Tests.antt =====
-- context_assembler and ranking at concrete inputs: scores are tenths.
use praecepta.Prelude.{
  ◌*◌, ◌/◌, ℕ, ◌+◌, ◌-◌, ◌≤◌, String, ◌≡◌, refl, sym, ap, subst, ◌∙◌, true, false, ◌||◌, List, [],
  ◌∷◌, Option, none, some, arith, str_eq, eq_iff, if◌then◌else◌, Bool-cases, inl, inr, ltb, ◌==◌,
}
use praecepta.Prelude.Int.{pos}
use praecepta.Text.{len}
use praecepta.Text.Membership.{mem, distinct}
use praecepta.Dict.{Dict}
use praecepta.Errors.{Result, ok, err}
use praecepta.CodeIntel.{CodeChunk, SymbolSignature}
use praecepta.CodeIntel.Listed.{dedupe, dedupe-ListsSet}
use praecepta.CodeIntel.Scores.{Scores, names}
use praecepta.CodeIntel.Files.{Files, read, missing, hydrate_chunk, full_path}
use praecepta.CodeIntel.Assembly.{
  ContextQuery, ContextResponse, Indexes, chunk_names, symbol_name_to_chunk, symbol_record_to_chunk,
  file_path_to_chunk,
}
use praecepta.CodeIntel.Assembly.Query.{
  gather, direct_symbols, direct_files, resolve, resolve_file, build_chunks, expand_name,
  expand_edges, expand_chunks, expand_dependencies, hydrate_chunks, ranked_for, expanded,
  candidates, respond, run_query, query,
}
use praecepta.CodeIntel.{understand, generate}
use praecepta.Dict
use praecepta.CodeIntel.Files.{relative_or}
use praecepta.CodeIntel.Scores.{IsAsymmetric, place, sorted, descending}
use praecepta.CodeIntel.Fusion.{
  fuse_rankings, fuse_names, fused_score, boost, normalize, normalize_score, comprehension, highest,
  lowest, intent_weights, capped, fuse_rankings_lem,
}
use praecepta.CodeIntel.Assembly.{
  has_criteria, build_filters, first_under, behind, last_part, file_chunk,
}
use praecepta.CodeIntel.Assembly.Names.{RecordsNamed, Relative}
use praecepta.CodeIntel.Assembly.Response.{query-distinct, query-within}
use praecepta.CodeIntel.Packing.{sum_tokens, pack_to_budget}

abbrev tenths : Scores ℕ
tenths = record {
  tenths = λ n. n;
  add = λ a b. a + b;
  sub = λ a b. a - b;
  mul = λ a b. a * b / 10;
  div = λ a b. a * 10 / b;
  lt = ltb;
  eq = ◌==◌;
}

abbrev same_order : List String → List String
same_order xs = xs

tenths-IsAsymmetric : IsAsymmetric tenths
tenths-IsAsymmetric x y h = ground arith

abbrev structural : Dict ℕ
structural = ("a", 3) ∷ ("b", 1) ∷ []

abbrev semantic : Dict ℕ
semantic = ("b", 9) ∷ []

fuse_rankings_lem_example :
    (mem "b" (names (fuse_rankings tenths dedupe structural semantic generate none (some 5)))
      ≡ (mem "b" (names structural) || mem "b" (names semantic)))
    × (distinct (names (fuse_rankings tenths dedupe structural semantic generate none (some 5)))
        ≡ true)
    × (descending tenths (fuse_rankings tenths dedupe structural semantic generate none (some 5))
        ≡ true)
    × (capped tenths (fuse_rankings tenths dedupe structural semantic generate none (some 5))
        ≡ true)
fuse_rankings_lem_example =
    fuse_rankings_lem tenths tenths-IsAsymmetric dedupe dedupe-ListsSet structural semantic generate
      none (some 5) "b"

-- one file, a.py, below the root /r
abbrev disk : Files
disk = record {
  exists = λ p. ok (str_eq p "/r/a.py");
  read_text = λ p. if str_eq p "/r/a.py" then read ("x = 1" ∷ []) else missing;
  count_lines = λ p. if str_eq p "/r/a.py" then some 2 else none;
  is_absolute = λ p. false;
  join = λ root p. if str_eq p "a.py" then "/r/a.py" else "/r/other";
  relative_to = λ p root. if str_eq p "/r/a.py" then some "a.py" else none;
  base_name = λ p. "a.py";
}

abbrev counted : String → Result ℕ
counted text = ok (len text)

abbrev run_symbol : SymbolSignature
run_symbol = record {
  qualified_name = "a.run";
  name = "run";
  kind = "function";
  language = "python";
  file_path = "/r/a.py";
  start_line = 1;
  end_line = 1;
  signature = "def run()";
  docstring = none;
  parent_symbol = none;
  embedding_text = "def run()";
  token_count_estimate = 4;
  last_modified = 0;
}

abbrev indexes : Indexes ℕ
indexes = record {
  search = λ text k filters. ("a.run", 7) ∷ [];
  search_by_name = λ n. [];
  get_symbol_record = λ n. if str_eq n "a.run" then some run_symbol else none;
  get_ranked_symbols = λ k. ("a.py", 9) ∷ [];
  dependencies = λ n depth. if str_eq n "a.py" then ("b.py", "a.py") ∷ [] else [];
}

abbrev ask : ContextQuery ℕ
ask = record {
  natural_language = some "what runs";
  symbol_names = [];
  file_paths = "a.py" ∷ [];
  intent = understand;
  token_budget = pos 100;
  max_chunks = 20;
  languages = [];
  symbol_kinds = [];
  include_dependencies = true;
  dependency_depth = 1;
  include_source_code = false;
  structural_weight = 5;
  semantic_weight = 5;
}

abbrev answer : ContextResponse ℕ
answer = record {
  chunks =
      file_chunk tenths disk "/r" "a.py" "/r/a.py"
      ∷ symbol_record_to_chunk tenths disk "/r" run_symbol 5 "search"
      ∷ symbol_name_to_chunk tenths "b.py" 5 "dependency"
      ∷ [];
  total_tokens_used = 30;
  token_budget = pos 100;
  chunks_available = 0;
  intent_detected = understand;
}

answered : query tenths disk "/r" indexes counted same_order ask ≡ ok answer
unfolding query run_query has_criteria direct_symbols candidates expanded direct_files gather
    file_path_to_chunk file_chunk full_path relative_or build_chunks ranked_for fuse_rankings
    fuse_names fused_score boost normalize normalize_score comprehension highest lowest
    intent_weights sorted place Dict.put Dict.get build_filters first_under resolve resolve_file
    symbol_record_to_chunk symbol_name_to_chunk last_part behind expand_dependencies expand_chunks
    expand_edges expand_name hydrate_chunks hydrate_chunk mem pack_to_budget sum_tokens respond
answered = refl

records_named : RecordsNamed indexes
records_named n r h = ground (arith, h, eq_iff n "a.run")

some-inj {ℓ} : {A : Type ℓ} (v w : A) → some v ≡ some w → v ≡ w
some-inj v w h = cc

absent : (n : String) → str_eq n "a.py" ≡ false → file_path_to_chunk tenths disk "/r" n ≡ ok none
unfolding file_path_to_chunk full_path
absent n e = rw e refl

chunk_of : Result (Option (CodeChunk ℕ)) → String
chunk_of (ok (some c)) = c.qualified_name
chunk_of (ok none) = ""
chunk_of (err e) = ""

relative : (n : String) → Relative tenths disk "/r" indexes n
unfolding file_path_to_chunk full_path file_chunk relative_or chunk_of
relative n c h = elim (Bool-cases (str_eq n "a.py")) [
  | inl e ↦
      sym (
        ap chunk_of (
          subst (λ m. file_path_to_chunk tenths disk "/r" m ≡ ok (some c)) ((eq_iff n "a.py").0 e)
            h))
      ∙ sym ((eq_iff n "a.py").0 e)
  | inr e ↦ cc (h, absent n e)
]

query-distinct_example : distinct (chunk_names answer.chunks) ≡ true
query-distinct_example =
    query-distinct tenths disk "/r" indexes counted same_order ask answer answered records_named
      (λ n m. relative n)

query-within_example : (30 ≤ 100) × (30 ≡ sum_tokens answer.chunks) × (ask.token_budget ≡ pos 100)
query-within_example =
    query-within tenths disk "/r" indexes counted same_order 100 ask answer refl answered
