-- ===== src/CodeIntel/Tests.antt =====
-- codeintel at concrete inputs.
use praecepta.Prelude.{ℕ, String, ◌≡◌, refl, arith, List, [], ◌∷◌, none, some}
use praecepta.Prelude.Int.{pos}
use praecepta.Errors.{Result, ok, ◌>>=◌}
use praecepta.Text.{len}
use praecepta.CodeIntel.{CodeChunk}
use praecepta.CodeIntel.Packing.{
  sum_tokens, stub, add_signature, with_signature, pack_to_budget, pack_found, pack_from, search,
  fits, prefix_sums,
}
use praecepta.CodeIntel.Packing.Greedy.{greedy, amounts, pack-greedy}

abbrev chunk : String → ℕ → CodeChunk ℕ
chunk name tokens = record {
  qualified_name = name;
  name = name;
  kind = "function";
  language = "python";
  location = record {
    file_path = "a.py";
    start_line = 1;
    end_line = 9;
    start_column = 0;
    end_column = 0;
  };
  signature = name;
  docstring = none;
  source_code = some "...";
  context_snippet = none;
  relevance_score = 1;
  structural_rank = 0;
  semantic_similarity = 0;
  retrieval_source = "search";
  calls = [];
  called_by = [];
  imports = [];
  imported_by = [];
  token_count = tokens;
}

abbrev counted : String → Result ℕ
counted text = ok (len text)

abbrev ranked : List (CodeChunk ℕ)
ranked = chunk "alpha" 40 ∷ chunk "beta" 30 ∷ chunk "gamma" 50 ∷ chunk "delta" 10 ∷ []

-- Two chunks fit in 80, and of the third its signature.
packed :
    pack_to_budget counted ranked (pos 80)
    ≡ ok (chunk "alpha" 40 ∷ chunk "beta" 30 ∷ stub 5 (chunk "gamma" 50) ∷ [], 75, 1)
unfolding pack_to_budget pack_found pack_from search fits prefix_sums sum_tokens with_signature
    add_signature stub
packed = refl

pack-greedy_example :
    pack_to_budget counted ranked (pos 80)
    ≡ (greedy counted 80 ranked >>= λ chosen. ok (amounts ranked chosen))
pack-greedy_example =
    pack-greedy counted 80 (chunk "alpha" 40)
      (chunk "beta" 30 ∷ chunk "gamma" 50 ∷ chunk "delta" 10 ∷ []) (omega arith) (omega arith)
