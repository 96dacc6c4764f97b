-- ===== src/CodeIntel/Structural/Traversal/Sound.antt =====
-- `get_dependencies` returns only edges at nodes within reach.
use praecepta.Prelude.{
  ℕ, zero, suc, ◌<◌, String, ◌≡◌, refl, subst, Bool, true, false, ◌&&◌, ◌||◌, List, [], ◌∷◌, ◌++◌,
  some, arith, str_eq, eq_refl, if◌then◌else◌, Bool-cases, inl, inr, length, leb,
}
use praecepta.Text.Membership.{mem}
use praecepta.CodeIntel.DiGraph.{DiGraph, has_node}
use praecepta.CodeIntel.Structural.Traversal.{
  Direction, Pairs, visit, edges_at, neighbors, traverse, search_from,
}

-- whether the pair stands in the list
unfoldable pub mem_pair : (a b : String) → Pairs → Bool
mem_pair a b [] = false
mem_pair a b ((c, d) ∷ ps) = (str_eq c a && str_eq d b) || mem_pair a b ps

pub mem_pair-append :
    (a b : String) (xs ys : Pairs) → mem_pair a b (xs ++ ys) ≡ (mem_pair a b xs || mem_pair a b ys)
unfolding mem_pair
mem_pair-append a b [] ys = refl
mem_pair-append a b ((c, d) ∷ xs) ys = ground (arith, mem_pair-append a b xs ys)

pub some-inj : (xs ys : Pairs) → some xs ≡ some ys → xs ≡ ys
some-inj xs ys h = cc

module _ {G : Type 0} (D : DiGraph G) (g : G) (direction : Direction) (name : String) where
  -- A walk of `k` edges, in the direction of the search, leads from the name to the node.
  pub data Near : ℕ → String → Type 0 where
    start : Near zero name
    hop :
        {k : ℕ} (n x : String)
        → Near k n
        → mem x (neighbors D g direction n) ≡ true
        → Near (suc k) x

  -- An edge at a node that a walk of fewer than `depth` edges reaches.
  pub record Touched (depth : ℕ) (a b : String) : Type 0 where
    pub node : String
    pub steps : ℕ
    pub within : steps < depth
    pub near : Near steps node
    pub at : mem_pair a b (edges_at D g direction node) ≡ true

  abbrev Queued : List (String × ℕ) → Type 0
  Queued [] = Unit {0}
  Queued ((n, k) ∷ q) = Near k n × Queued q

  Queued-append :
      (q : List (String × ℕ)) (k : ℕ) (n : String) → Queued q → Near k n → Queued (q ++ (n, k) ∷ [])
  Queued-append [] k n h e = (e, tt)
  Queued-append ((m, j) ∷ q) k n h e = (h.0, Queued-append q k n h.1 e)

  visit-Queued :
      (k : ℕ) (xs : List String) (q : List (String × ℕ)) (visited : List String)
      → ((x : String) → mem x xs ≡ true → Near k x)
      → Queued q
      → Queued (visit k xs q visited).0
  unfolding visit mem
  visit-Queued k [] q visited h w = w
  visit-Queued k (x ∷ xs) q visited h w =
      visit-Queued k xs _ _ (λ y m. h y (ground (arith, m)))
        (elim (mem x visited) as (λ b. Queued (if b then q else q ++ (x, k) ∷ [])) [
          | true ↦ w
          | false ↦ Queued-append q k x w (h x (ground (arith, eq_refl x)))
        ])

  abbrev pub AllTouched : ℕ → Pairs → Type 0
  AllTouched depth edges = (a b : String) → mem_pair a b edges ≡ true → Touched depth a b

  traverse-Touched :
      (fuel depth : ℕ) (queue : List (String × ℕ)) (visited : List String) (edges es : Pairs)
      → traverse D g direction fuel depth queue visited edges ≡ some es
      → Queued queue
      → AllTouched depth edges
      → AllTouched depth es
  unfolding traverse
  traverse-Touched fuel depth [] visited edges es r w h =
      subst (AllTouched depth) (some-inj edges es r) h
  traverse-Touched zero depth ((n, d) ∷ queue) visited edges es r w h = cc
  traverse-Touched (suc fuel) depth ((n, d) ∷ queue) visited edges es r w h =
      elim (Bool-cases (leb depth d)) [
        | inl e ↦ traverse-Touched fuel depth queue visited edges es (ground (arith, r, e)) w.1 h
        | inr e ↦
            traverse-Touched fuel depth (visit (suc d) (neighbors D g direction n) queue visited).0
              (visit (suc d) (neighbors D g direction n) queue visited).1
              (edges ++ edges_at D g direction n) es (ground (arith, r, e))
              (visit-Queued (suc d) (neighbors D g direction n) queue visited (λ x m. hop n x w.0 m)
                w.1)
              (λ a b m. elim (Bool-cases (mem_pair a b edges)) [
                | inl k ↦ h a b k
                | inr k ↦ record {
                  node = n;
                  steps = d;
                  within = ground (arith, e);
                  near = w.0;
                  at = ground (arith, mem_pair-append a b edges (edges_at D g direction n), m, k);
                }
              ])
      ]

  -- Each edge that is returned stands at a node that a walk of fewer than `depth` edges reaches.
  pub search_from-Touched :
      (depth : ℕ) (es : Pairs)
      → search_from D g direction name depth ≡ some es
      → AllTouched depth es
  unfolding search_from mem_pair
  search_from-Touched depth es r = elim (Bool-cases (has_node D g name)) [
    | inl e ↦
        traverse-Touched (length (D.nodes g)) depth ((name, 0) ∷ []) (name ∷ []) [] es
          (ground (arith, r, e)) (start, tt) (λ a b m. cc)
    | inr e ↦ subst (AllTouched depth) (some-inj [] es (ground (arith, r, e))) (λ a b m. cc)
  ]
