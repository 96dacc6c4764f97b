-- ===== src/CodeIntel/Structural/Traversal.antt =====
-- index/structural_index.py: `get_dependencies`, the search over dependency edges in breadth.
pub mod Total
pub mod Sound
pub mod Layers
pub mod Complete
use praecepta.Prelude.{
  ℕ, zero, suc, ◌+◌, ◌-◌, ◌≤◌, ◌<◌, String, ◌≡◌, ◌≢◌, refl, sym, ap, subst, ◌∙◌, Bool, true, false,
  not, ◌&&◌, ◌||◌, List, [], ◌∷◌, ◌++◌, Option, none, some, arith, str_eq, eq_iff, eq_refl,
  if◌then◌else◌, Option-cases, Bool-cases, inl, inr, length, length-append, map, ltb, leb, ◌==◌,
  get_elem?, take,
}
use praecepta.Text.Membership.{
  mem, is_some, mem-append, unseen, unseen-le, unseen-lt, unseen-length,
}
use praecepta.CodeIntel.DiGraph.{DiGraph, IsDiGraph, has_node}

pub data Direction : Type 0 where
  callers callees both : Direction

-- `direction in ("callers", "both")`
unfoldable pub upstream : Direction → Bool
upstream callers = true
upstream callees = false
upstream both = true

-- `direction in ("callees", "both")`
unfoldable pub downstream : Direction → Bool
downstream callers = false
downstream callees = true
downstream both = true

abbrev pub Pairs : Type 0
Pairs = List (String × String)

-- `(pred, node)` for each predecessor
unfoldable pub into_node : (node : String) → List String → Pairs
into_node node [] = []
into_node node (pred ∷ rest) = (pred, node) ∷ into_node node rest

-- `(node, succ)` for each successor
unfoldable pub out_of : (node : String) → List String → Pairs
out_of node [] = []
out_of node (succ ∷ rest) = (node, succ) ∷ out_of node rest

-- the loop over the neighbors: the queue and the visited nodes after it
unfoldable pub visit :
    (depth : ℕ)
    → List String
    → (queue : List (String × ℕ)) → (visited : List String) → List (String × ℕ) × List String
visit depth [] queue visited = (queue, visited)
visit depth (x ∷ xs) queue visited =
    visit depth xs (if mem x visited then queue else queue ++ (x, depth) ∷ [])
      (if mem x visited then visited else x ∷ visited)

module _ {G : Type 0} (D : DiGraph G) (g : G) (direction : Direction) where
  unfoldable pub callers_of : String → List String
  callers_of node = if upstream direction then D.predecessors g node else []

  unfoldable pub callees_of : String → List String
  callees_of node = if downstream direction then D.successors g node else []

  -- the edges that one node adds
  unfoldable pub edges_at : String → Pairs
  edges_at node = into_node node (callers_of node) ++ out_of node (callees_of node)

  unfoldable pub neighbors : String → List String
  neighbors node = callers_of node ++ callees_of node

  -- `while queue`; none for too little fuel
  unfoldable pub traverse :
      (fuel depth : ℕ)
      → (queue : List (String × ℕ)) → (visited : List String) → (edges : Pairs) → Option Pairs
  traverse fuel depth [] visited edges = some edges
  traverse zero depth ((node, current_depth) ∷ queue) visited edges = none
  traverse (suc fuel) depth ((node, current_depth) ∷ queue) visited edges =
      elim (leb depth current_depth) [
        | true ↦ traverse fuel depth queue visited edges
        | false ↦
            let (queue', visited') = visit (suc current_depth) (neighbors node) queue visited in
            traverse fuel depth queue' visited' (edges ++ edges_at node)
      ]

  -- The search once the name is normalized. A round for each node of the graph is enough fuel.
  unfoldable pub search_from : (name : String) → (depth : ℕ) → Option Pairs
  search_from name depth =
      if has_node D g name
      then traverse (length (D.nodes g)) depth ((name, 0) ∷ []) (name ∷ []) []
      else some []

-- `normalize` is `_normalize`.
unfoldable pub get_dependencies :
    {G : Type 0} (D : DiGraph G) (normalize : String → String) (g : G) (direction : Direction)
    (qualified_name : String) (depth : ℕ)
    → Option Pairs
get_dependencies D normalize g direction qualified_name depth =
    search_from D g direction (normalize qualified_name) depth
