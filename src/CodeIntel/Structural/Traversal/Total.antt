-- ===== src/CodeIntel/Structural/Traversal/Total.antt =====
-- `get_dependencies` ends: each node enters the queue once.
use praecepta.Prelude.{
  ℕ, zero, suc, ◌+◌, ◌≤◌, String, ◌≡◌, refl, true, false, List, [], ◌∷◌, ◌++◌, some, arith, eq_refl,
  Bool-cases, inl, inr, length, length-append, leb,
}
use praecepta.Text.Membership.{mem, mem-append, unseen, unseen-lt, unseen-length}
use praecepta.CodeIntel.DiGraph.{DiGraph, IsDiGraph, has_node}
use praecepta.CodeIntel.Structural.WellFormed.{HasEnds}
use praecepta.CodeIntel.Structural.Traversal.{
  Direction, Pairs, visit, callers_of, callees_of, edges_at, neighbors, traverse, search_from,
}

visit-queue :
    (nodes : List String) (depth : ℕ) (xs : List String) (queue : List (String × ℕ))
    (visited : List String)
    → ((x : String) → mem x xs ≡ true → mem x nodes ≡ true)
    → length (visit depth xs queue visited).0 + unseen (visit depth xs queue visited).1 nodes
      ≤ length queue + unseen visited nodes
unfolding visit mem
visit-queue nodes depth [] queue visited h = omega arith
visit-queue nodes depth (x ∷ xs) queue visited h =
    let rest : (y : String) → mem y xs ≡ true → mem y nodes ≡ true =
      λ y m. h y (ground (arith, m)) in
    ground (
      arith,
      visit-queue nodes depth xs queue visited rest,
      visit-queue nodes depth xs (queue ++ (x, depth) ∷ []) (x ∷ visited) rest,
      length-append {0} queue ((x, depth) ∷ []),
      unseen-lt x visited nodes,
      h x,
      eq_refl x,
    )

mem-nil : (n : String) → mem n [] ≡ false
unfolding mem
mem-nil n = refl

module _ {G : Type 0} (D : DiGraph G) (L : IsDiGraph D) (g : G) (direction : Direction) where
  traverse-total :
      (closed : (n x : String) → mem x (neighbors D g direction n) ≡ true → has_node D g x ≡ true)
      (fuel depth : ℕ) (queue : List (String × ℕ)) (visited : List String) (edges : Pairs)
      → length queue + unseen visited (D.nodes g) ≤ fuel
      → (es : Pairs) × (traverse D g direction fuel depth queue visited edges ≡ some es)
  unfolding traverse
  traverse-total closed fuel depth [] visited edges h = (edges, refl)
  traverse-total closed zero depth ((n, d) ∷ queue) visited edges h = absurd (omega arith)
  traverse-total closed (suc fuel) depth ((n, d) ∷ queue) visited edges h =
      elim (Bool-cases (leb depth d)) [
        | inl e ↦
            rw (e, traverse) (traverse-total closed fuel depth queue visited edges (omega arith))
        | inr e ↦
            rw (e, traverse)
              (traverse-total closed fuel depth
                (visit (suc d) (neighbors D g direction n) queue visited).0
                (visit (suc d) (neighbors D g direction n) queue visited).1
                (edges ++ edges_at D g direction n)
                (omega (
                  arith,
                  visit-queue (D.nodes g) (suc d) (neighbors D g direction n) queue visited
                      (closed n),
                )))
      ]

  has_node-neighbors :
      HasEnds D g
      → (n x : String) → mem x (neighbors D g direction n) ≡ true
      → has_node D g x ≡ true
  unfolding neighbors callers_of callees_of mem
  has_node-neighbors h n x m = ground (
    arith,
    mem-append x (callers_of D g direction n) (callees_of D g direction n),
    L.mem-successors g n x,
    L.mem-predecessors g x n,
    h.source x n,
    h.target n x,
  )

  -- Whatever the name, the direction and the depth, the loop empties its queue within one round for each
  -- node of the graph.
  pub search_from-total :
      HasEnds D g
      → (name : String) (depth : ℕ)
      → (es : Pairs) × (search_from D g direction name depth ≡ some es)
  unfolding search_from
  search_from-total h name depth = elim (Bool-cases (has_node D g name)) [
    | inr e ↦ ([], rw e)
    | inl e ↦ rw e (
        traverse-total (has_node-neighbors h) (length (D.nodes g)) depth ((name, 0) ∷ [])
          (name ∷ []) []
          (omega
            (arith, unseen-lt name [] (D.nodes g) e (mem-nil name), unseen-length (D.nodes g))))
  ]
