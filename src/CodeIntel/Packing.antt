-- ===== src/CodeIntel/Packing.antt =====
-- assembly/packing.py (packages/infra-codeintel): packing ranked chunks into a token budget.
pub mod Search
pub mod Greedy
pub mod Names
use praecepta.Prelude.{
  ℕ, zero, suc, ◌+◌, ◌-◌, ◌/◌, String, Bool, true, false, List, [], ◌∷◌, ◌++◌, Option, none, some,
  leb, ltb, if◌then◌else◌, length, get_elem?, take,
}
use praecepta.Prelude.Int.{ℤ, pos, pos_part}
use praecepta.Errors.{Result, ok, err, ◌>>=◌, budget_exceeded, index_error}
use praecepta.CodeIntel.{CodeChunk}

module _ {S : Type 0} where
  -- `sum(c.token_count for c in chunks)`
  unfoldable pub sum_tokens : List (CodeChunk S) → ℕ
  sum_tokens [] = 0
  sum_tokens (c ∷ cs) = c.token_count + sum_tokens cs

  -- the loop that fills `prefix_sums`
  unfoldable pub prefix_sums : (running : ℕ) → List (CodeChunk S) → List ℕ
  prefix_sums running [] = []
  prefix_sums running (c ∷ cs) =
      let running' = running + c.token_count in running' ∷ prefix_sums running' cs

-- `prefix_sums[mid - 1] <= budget`, where an index out of range raises
unfoldable pub fits : (sums : List ℕ) → (budget mid : ℕ) → Option Bool
fits sums budget mid = elim (get_elem? sums (mid - 1)) [
  | none ↦ none
  | some s ↦ some (leb s budget)
]

-- `while lo < hi`; none for an index out of range or too little fuel
unfoldable pub search : (fuel : ℕ) → (sums : List ℕ) → (budget lo hi : ℕ) → Option ℕ
search zero sums budget lo hi = if ltb lo hi then none else some lo
search (suc fuel) sums budget lo hi =
    let mid = (lo + hi + 1) / 2 in
    elim (ltb lo hi) [
      | false ↦ some lo
      | true ↦ elim (fits sums budget mid) [
        | none ↦ none
        | some true ↦ search fuel sums budget mid hi
        | some false ↦ search fuel sums budget lo (mid - 1)
      ]
    ]

-- (selected_chunks, tokens_used, chunks_remaining)
abbrev pub Packed : Type 0 → Type 0
Packed S = List (CodeChunk S) × ℕ × ℕ

module _ {S : Type 0} where
  -- The copy of a chunk that keeps its signature only.
  unfoldable pub stub : (sig_tokens : ℕ) → CodeChunk S → CodeChunk S
  stub sig_tokens c = record c { source_code = none; token_count = sig_tokens }

  -- The test `sig_tokens <= budget - tokens_used` is written as a sum.
  unfoldable pub add_signature :
      (chunks : List (CodeChunk S))
      → (budget n tokens_used : ℕ) → (next_chunk : CodeChunk S) → (sig_tokens : ℕ) → Packed S
  add_signature chunks budget n tokens_used next_chunk sig_tokens =
      if leb (tokens_used + sig_tokens) budget
      then (
        take n chunks ++ stub sig_tokens next_chunk ∷ [],
        tokens_used + sig_tokens,
        length chunks - (n + 1),
      )
      else (take n chunks, tokens_used, length chunks - n)

-- `encode` counts the tokens of a text with the encoder of tiktoken, which raises a ValueError where the
-- text has one of its special tokens.
module _ {S : Type 0} (encode : String → Result ℕ) where
  -- `if n < len(chunks)`, with the chunk at the cut `n` if there is one
  unfoldable pub with_signature :
      (chunks : List (CodeChunk S))
      → (budget n tokens_used : ℕ) → (next_chunk : Option (CodeChunk S)) → Result (Packed S)
  with_signature chunks budget n tokens_used none =
      ok (take n chunks, tokens_used, length chunks - n)
  with_signature chunks budget n tokens_used (some next_chunk) = do
    sig_tokens ← encode next_chunk.signature
    ok (add_signature chunks budget n tokens_used next_chunk sig_tokens)

  -- from `tokens_used = prefix_sums[n - 1]` on
  unfoldable pub pack_from :
      (chunks : List (CodeChunk S)) → (budget n : ℕ) → (tokens_used : Option ℕ) → Result (Packed S)
  pack_from chunks budget n none = err index_error
  pack_from chunks budget n (some tokens_used) =
      with_signature chunks budget n tokens_used (get_elem? chunks n)

  -- `n = lo`, with what the loop ended in
  unfoldable pub pack_found :
      (chunks : List (CodeChunk S)) → (budget : ℕ) → Option ℕ → Result (Packed S)
  pack_found chunks budget none = err index_error
  pack_found chunks budget (some n) =
      pack_from chunks budget n (get_elem? (prefix_sums 0 chunks) (n - 1))

  -- Past its first test `budget` is positive.
  unfoldable pub pack_to_budget : (chunks : List (CodeChunk S)) → (budget : ℤ) → Result (Packed S)
  pack_to_budget [] budget = ok ([], 0, 0)
  pack_to_budget (c ∷ cs) budget =
      if leb (pos_part budget) 0
      then err (budget_exceeded budget c.token_count)
      else if leb (sum_tokens (c ∷ cs)) (pos_part budget)
      then ok (c ∷ cs, sum_tokens (c ∷ cs), 0)
      else if ltb (pos_part budget) c.token_count
      then err (budget_exceeded budget c.token_count)
      else pack_found (c ∷ cs) (pos_part budget)
          (search (length (c ∷ cs)) (prefix_sums 0 (c ∷ cs)) (pos_part budget) 1 (length (c ∷ cs)))
