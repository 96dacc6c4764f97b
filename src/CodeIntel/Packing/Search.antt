-- ===== src/CodeIntel/Packing/Search.antt =====
-- The binary search of packing.py.
use praecepta.Prelude.{
  ℕ, zero, suc, ◌+◌, ◌-◌, ◌/◌, ◌≤◌, ◌<◌, ◌≡◌, sym, ◌⊎◌, List, [], ◌∷◌, some, arith, leb, length,
  get_elem?, take, inl, inr,
}
use praecepta.CodeIntel.{CodeChunk}
use praecepta.CodeIntel.Packing.{sum_tokens, prefix_sums, fits, search}

pub le_cases : (a b : ℕ) → a ≤ b → (a ≡ b) ⊎ (a < b)
le_cases a b h = omega arith

pub lt_or_le : (a b : ℕ) → (a < b) ⊎ (b ≤ a)
lt_or_le a b = omega arith

suc_mid : (m : ℕ) → 0 < m → suc (m - 1) ≡ m
suc_mid m h = omega arith

module _ {S : Type 0} where
  -- `n` chunks fit the budget, and one more does not.
  abbrev pub IsCut : List (CodeChunk S) → ℕ → ℕ → Type 0
  IsCut chunks budget n =
      (0 < n)
      × (n ≤ length chunks)
      × (sum_tokens (take n chunks) ≤ budget)
      × (n < length chunks → budget < sum_tokens (take (suc n) chunks))

  pub get_elem?-prefix_sums :
      (r : ℕ) (cs : List (CodeChunk S)) (n : ℕ)
      → n < length cs
      → get_elem? (prefix_sums r cs) n ≡ some (r + sum_tokens (take (suc n) cs))
  unfolding sum_tokens prefix_sums
  get_elem?-prefix_sums r [] n h = ground arith
  get_elem?-prefix_sums r (c ∷ cs) zero h = ground arith
  get_elem?-prefix_sums r (c ∷ cs) (suc n) h =
      ground (arith, get_elem?-prefix_sums (r + c.token_count) cs n)

  fits-prefix_sums :
      (cs : List (CodeChunk S)) (b mid : ℕ)
      → 0 < mid
      → mid ≤ length cs
      → fits (prefix_sums 0 cs) b mid ≡ some (leb (sum_tokens (take mid cs)) b)
  unfolding fits
  fits-prefix_sums cs b zero pos le = ground arith
  fits-prefix_sums cs b (suc m) pos le = ground (arith, get_elem?-prefix_sums 0 cs m le)

  -- How one turn of the loop goes on.
  search_up :
      (fuel : ℕ) (cs : List (CodeChunk S)) (b lo hi : ℕ)
      → lo < hi
      → hi ≤ length cs
      → sum_tokens (take ((lo + hi + 1) / 2) cs) ≤ b
      → search (suc fuel) (prefix_sums 0 cs) b lo hi
        ≡ search fuel (prefix_sums 0 cs) b ((lo + hi + 1) / 2) hi
  unfolding search
  search_up fuel cs b lo hi lt bound low =
      ground (arith, fits-prefix_sums cs b ((lo + hi + 1) / 2) (omega arith) (omega arith))

  search_down :
      (fuel : ℕ) (cs : List (CodeChunk S)) (b lo hi : ℕ)
      → lo < hi
      → hi ≤ length cs
      → b < sum_tokens (take ((lo + hi + 1) / 2) cs)
      → search (suc fuel) (prefix_sums 0 cs) b lo hi
        ≡ search fuel (prefix_sums 0 cs) b lo ((lo + hi + 1) / 2 - 1)
  unfolding search
  search_down fuel cs b lo hi lt bound high =
      ground (arith, fits-prefix_sums cs b ((lo + hi + 1) / 2) (omega arith) (omega arith))

  search_end :
      (fuel : ℕ) (cs : List (CodeChunk S)) (b lo : ℕ)
      → search fuel (prefix_sums 0 cs) b lo lo ≡ some lo
  unfolding search
  search_end zero cs b lo = ground arith
  search_end (suc fuel) cs b lo = ground arith

  -- The loop is over: the two ends meet at the cut.
  met :
      (fuel : ℕ) (cs : List (CodeChunk S)) (b lo hi : ℕ)
      → lo ≡ hi
      → 0 < lo
      → hi ≤ length cs
      → sum_tokens (take lo cs) ≤ b
      → (hi < length cs → b < sum_tokens (take (suc hi) cs))
      → (n : ℕ) × (search fuel (prefix_sums 0 cs) b lo hi ≡ some n) × IsCut cs b n
  met fuel cs b lo hi same pos bound low high =
      rw (sym same) (lo, search_end fuel cs b lo, (pos, omega arith, low, rw same high))

  -- With fuel for the distance of the two ends, where the lower end fits and the upper end is the
  -- last chunk or exceeds the budget with the next, the binary search ends without an index out of
  -- range, at a number of chunks that fits and cannot be made one larger.
  pub search-IsCut :
      (fuel : ℕ) (cs : List (CodeChunk S)) (b lo hi : ℕ)
      → hi ≤ fuel + lo
      → 0 < lo
      → lo ≤ hi
      → hi ≤ length cs
      → sum_tokens (take lo cs) ≤ b
      → (hi < length cs → b < sum_tokens (take (suc hi) cs))
      → (n : ℕ) × (search fuel (prefix_sums 0 cs) b lo hi ≡ some n) × IsCut cs b n
  search-IsCut zero cs b lo hi enough pos le bound low high =
      met zero cs b lo hi (omega arith) pos bound low high
  search-IsCut (suc fuel) cs b lo hi enough pos le bound low high = elim (le_cases lo hi le) [
    | inl same ↦ met (suc fuel) cs b lo hi same pos bound low high
    | inr lt ↦ elim (lt_or_le b (sum_tokens (take ((lo + hi + 1) / 2) cs))) [
      | inl over ↦ rw (search_down fuel cs b lo hi lt bound over) (
          search-IsCut fuel cs b lo ((lo + hi + 1) / 2 - 1) (omega arith) pos (omega arith)
            (omega arith) low (λ _. rw (suc_mid ((lo + hi + 1) / 2) (omega arith)) over))
      | inr fit ↦ rw (search_up fuel cs b lo hi lt bound fit) (
          search-IsCut fuel cs b ((lo + hi + 1) / 2) hi (omega arith) (omega arith) (omega arith)
            bound fit high)
    ]
  ]
