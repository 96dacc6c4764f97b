-- ===== src/CodeIntel/Structural/Traversal/Complete.antt =====
-- `get_dependencies` returns every edge at a node within reach.
use praecepta.Prelude.{
  ◌⊎◌, ℕ, zero, suc, ◌<◌, String, ◌≡◌, refl, sym, ap, subst, ◌∙◌, true, List, [], ◌∷◌, ◌++◌, some,
  arith, eq_refl, Bool-cases, inl, inr, length, leb,
}
use mathlib.Core.List.{append-nil, append_assoc}
use praecepta.Text.Membership.{mem}
use praecepta.CodeIntel.DiGraph.{DiGraph, IsDiGraph, has_node}
use praecepta.CodeIntel.Structural.WellFormed.{HasEnds}
use praecepta.CodeIntel.Structural.Traversal.{
  get_dependencies, Direction, Pairs, visit, edges_at, neighbors, traverse, search_from,
}
use praecepta.CodeIntel.Structural.Traversal.Sound.{
  mem_pair, mem_pair-append, some-inj, Near, start, hop, AllTouched, search_from-Touched,
}
use praecepta.CodeIntel.Structural.Traversal.Total.{search_from-total}
use praecepta.CodeIntel.Structural.Traversal.Layers.{
  fresh, level, level-append, queue-visit, IsDone, IsLayered, IsLayered-visit, IsLayered-deeper,
  IsLayered-IsDone,
}

-- the queue after a round
queue-level :
    (d : ℕ) (ns xs ys visited : List String)
    → (visit (suc d) ns (level d xs ++ level (suc d) ys) visited).0
      ≡ level d xs ++ level (suc d) (ys ++ fresh ns visited)
queue-level d ns xs ys visited =
    queue-visit (suc d) ns (level d xs ++ level (suc d) ys) visited
    ∙ append_assoc (level d xs) (level (suc d) ys) (level (suc d) (fresh ns visited))
    ∙ ap (λ q. level d xs ++ q) (sym (level-append (suc d) ys (fresh ns visited)))

module _ {G : Type 0} (D : DiGraph G) (g : G) (direction : Direction) (name : String) where
  -- Each edge at a node that a walk of fewer than `depth` edges reaches stands in `es`.
  abbrev pub HasAll : (depth : ℕ) → (es : Pairs) → Type 0
  HasAll depth es =
      (k : ℕ) (n : String)
      → Near D g direction name k n
      → k < depth
      → (a b : String) → mem_pair a b (edges_at D g direction n) ≡ true
      → mem_pair a b es ≡ true

  -- What the search with this fuel does from between two rounds.
  abbrev Collects : ℕ → Type 0
  Collects fuel =
      (depth d : ℕ) (xs ys visited : List String) (edges es : Pairs)
      → IsLayered D g direction name d xs ys visited edges
      → traverse D g direction fuel depth (level d xs ++ level (suc d) ys) visited edges ≡ some es
      → HasAll depth es

  traverse-grows :
      (fuel depth : ℕ) (queue : List (String × ℕ)) (visited : List String) (edges es : Pairs)
      → traverse D g direction fuel depth queue visited edges ≡ some es
      → (a b : String) → mem_pair a b edges ≡ true
      → mem_pair a b es ≡ true
  unfolding traverse
  traverse-grows fuel depth [] visited edges es r a b h = ground (arith, r, h)
  traverse-grows zero depth ((n, d) ∷ queue) visited edges es r a b h = cc
  traverse-grows (suc fuel) depth ((n, d) ∷ queue) visited edges es r a b h =
      elim (Bool-cases (leb depth d)) [
        | inl e ↦ traverse-grows fuel depth queue visited edges es (ground (arith, r, e)) a b h
        | inr e ↦
            traverse-grows fuel depth (visit (suc d) (neighbors D g direction n) queue visited).0
              (visit (suc d) (neighbors D g direction n) queue visited).1
              (edges ++ edges_at D g direction n) es (ground (arith, r, e)) a b
              (ground (arith, mem_pair-append a b edges (edges_at D g direction n), h))
      ]

  collect_round :
      (fuel : ℕ)
      → Collects fuel
      → (depth d : ℕ) (n : String) (xs ys visited : List String) (edges es : Pairs)
      → IsLayered D g direction name d (n ∷ xs) ys visited edges
      → traverse D g direction (suc fuel) depth (level d (n ∷ xs) ++ level (suc d) ys) visited edges
        ≡ some es
      → HasAll depth es
  unfolding traverse
  collect_round fuel rest depth d n xs ys visited edges es h r =
      let ns = neighbors D g direction n in
      let q = level d xs ++ level (suc d) ys in
      elim (Bool-cases (leb depth d)) [
        | inl e ↦ λ k m near l a b w.
            traverse-grows fuel depth q visited edges es (ground (arith, r, e)) a b
              ((h.closer k m near (ground (arith, e, l))).recorded a b w)
        | inr e ↦
            rest depth d xs (ys ++ fresh ns visited) (visit (suc d) ns q visited).1
              (edges ++ edges_at D g direction n) es
              (IsLayered-visit D g direction name d n xs ys q visited edges h)
              (subst
                (λ p.
                  traverse D g direction fuel depth p (visit (suc d) ns q visited).1
                    (edges ++ edges_at D g direction n)
                  ≡ some es)
                (queue-level d ns xs ys visited) (ground (arith, r, e)))
      ]

  collects : (fuel : ℕ) → Collects fuel
  unfolding traverse
  collects fuel depth d [] [] visited edges es h r = λ k n near l a b w.
      subst (λ p. mem_pair a b p ≡ true) (some-inj edges es r)
        ((IsLayered-IsDone D g direction name d visited edges h k n near).recorded a b w)
  collects zero depth d [] (y ∷ ys) visited edges es h r = cc
  collects zero depth d (x ∷ xs) ys visited edges es h r = cc
  collects (suc fuel) depth d (x ∷ xs) ys visited edges es h r =
      collect_round fuel (collects fuel) depth d x xs ys visited edges es h r
  collects (suc fuel) depth d [] (y ∷ ys) visited edges es h r =
      collect_round fuel (collects fuel) depth (suc d) y ys [] visited edges es
        (IsLayered-deeper D g direction name d (y ∷ ys) visited edges h)
        (subst (λ q. traverse D g direction (suc fuel) depth q visited edges ≡ some es)
          (sym (append-nil (level (suc d) (y ∷ ys)))) r)

  IsLayered-start : IsLayered D g direction name 0 (name ∷ []) [] (name ∷ []) []
  unfolding mem
  IsLayered-start = record {
    pending = λ n e. inr (inl e);
    closer = λ k n near l. absurd (omega arith);
    here = λ n near. at_start 0 n near refl;
  }
    where
      at_start :
          (k : ℕ) (n : String)
          → Near D g direction name k n
          → k ≡ 0
          → IsDone D g direction name (name ∷ []) [] n ⊎ (mem n (name ∷ []) ≡ true)
      at_start zero n start e = inr (ground (arith, eq_refl name))
      at_start (suc k) n (hop m _ near x) e = absurd (omega arith)

  pub search_from-HasAll :
      (depth : ℕ) (es : Pairs)
      → has_node D g name ≡ true
      → search_from D g direction name depth ≡ some es
      → HasAll depth es
  unfolding search_from
  search_from-HasAll depth es e r =
      collects (length (D.nodes g)) depth 0 (name ∷ []) [] (name ∷ []) [] es IsLayered-start
        (ground (arith, r, e))

  search_from-exact :
      IsDiGraph D
      → HasEnds D g
      → has_node D g name ≡ true
      → (depth : ℕ)
      → (es : Pairs) × (search_from D g direction name depth ≡ some es)
        × AllTouched D g direction name depth es
        × HasAll depth es
  search_from-exact L h e depth =
      let (es, r) = search_from-total D L g direction h name depth in
      (es, r, search_from-Touched D g direction name depth es r, search_from-HasAll depth es e r)

-- The search from a name whose normal form is a node of the graph ends and returns exactly the edges, in its
-- direction, at the nodes that a walk of fewer than `depth` edges reaches from that node.
pub get_dependencies-exact :
    {G : Type 0} (D : DiGraph G) (normalize : String → String) (g : G) (direction : Direction)
    (qualified_name : String)
    → IsDiGraph D
    → HasEnds D g
    → has_node D g (normalize qualified_name) ≡ true
    → (depth : ℕ)
    → (es : Pairs) × (get_dependencies D normalize g direction qualified_name depth ≡ some es)
      × AllTouched D g direction (normalize qualified_name) depth es
      × HasAll D g direction (normalize qualified_name) depth es
unfolding get_dependencies
get_dependencies-exact D normalize g direction qualified_name L h e depth =
    search_from-exact D g direction (normalize qualified_name) L h e depth
