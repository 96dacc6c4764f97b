-- ===== src/CodeIntel/DiGraph.antt =====
-- networkx.DiGraph as index/structural_index.py (packages/infra-codeintel) uses it: the operations
-- called, and their documented laws.
use praecepta.Prelude.{
  ℕ, String, ◌≡◌, Bool, false, not, ◌&&◌, ◌||◌, List, Option, none, some, str_eq, if◌then◌else◌,
}
use praecepta.Text.Membership.{mem, is_some}

-- the attributes of a node
pub record Node : Type 0 where
  pub symbol_count : ℕ
  pub language : String

-- the attributes of an edge
pub record Edge : Type 0 where
  pub weight : ℕ
  pub symbols : List String

-- `put_node` stands for `add_node` and for the assignments to a node's attributes, and `put_edge` for
-- `add_edge` and the assignments to an edge's attributes.
pub record DiGraph (G : Type 0) : Type 0 where
  pub empty : G
  pub nodes : G → List String
  pub node : G → String → Option Node
  pub put_node : G → String → Node → G
  pub remove_node : G → String → G
  pub edge : G → String → String → Option Edge
  pub put_edge : G → String → String → Edge → G
  pub remove_edge : G → String → String → G
  pub successors : G → String → List String
  pub predecessors : G → String → List String

-- `n in graph`
abbrev pub has_node : {G : Type 0} → DiGraph G → G → String → Bool
has_node D g n = mem n (D.nodes g)

pub record IsDiGraph {G : Type 0} (D : DiGraph G) : Type 0 where
  pub node-empty : (n : String) → has_node D D.empty n ≡ false
  pub edge-empty : (a b : String) → D.edge D.empty a b ≡ none
  pub node-put_node :
      (g : G) (n : String) (x : Node) (m : String)
      → has_node D (D.put_node g n x) m ≡ (str_eq n m || has_node D g m)
  pub edge-put_node :
      (g : G) (n : String) (x : Node) (a b : String) → D.edge (D.put_node g n x) a b ≡ D.edge g a b
  pub node-remove_node :
      (g : G) (n m : String)
      → has_node D (D.remove_node g n) m ≡ (not (str_eq n m) && has_node D g m)
  pub edge-remove_node :
      (g : G) (n a b : String)
      → D.edge (D.remove_node g n) a b ≡ (if str_eq n a || str_eq n b then none else D.edge g a b)
  pub node-put_edge :
      (g : G) (a b : String) (e : Edge) (m : String)
      → has_node D (D.put_edge g a b e) m ≡ (str_eq a m || str_eq b m || has_node D g m)
  pub edge-put_edge :
      (g : G) (a b : String) (e : Edge) (c d : String)
      → D.edge (D.put_edge g a b e) c d
        ≡ (if str_eq a c && str_eq b d then some e else D.edge g c d)
  pub node-remove_edge :
      (g : G) (a b m : String) → has_node D (D.remove_edge g a b) m ≡ has_node D g m
  pub edge-remove_edge :
      (g : G) (a b c d : String)
      → D.edge (D.remove_edge g a b) c d ≡ (if str_eq a c && str_eq b d then none else D.edge g c d)
  pub mem-successors : (g : G) (a b : String) → mem b (D.successors g a) ≡ is_some (D.edge g a b)
  pub mem-predecessors :
      (g : G) (a b : String) → mem a (D.predecessors g b) ≡ is_some (D.edge g a b)
