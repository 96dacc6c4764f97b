-- ===== src/CodeIntel/Listed.antt =====
-- A graph of two lists that has the laws of networkx.DiGraph, and tags, for the tests of codeintel.
use praecepta.Prelude.{
  String, ◌≡◌, refl, Bool, true, not, ◌&&◌, ◌||◌, List, [], ◌∷◌, Option, none, some, arith, str_eq,
  eq_iff, if◌then◌else◌,
}
use praecepta.Text.Membership.{mem, is_some, distinct, ListsSet}
use praecepta.Dict
use praecepta.CodeIntel.{Tag, TagKind}
use praecepta.CodeIntel.DiGraph.{DiGraph, IsDiGraph, Node, Edge}

pub record Listed : Type 0 where
  pub node_list : List (String × Node)
  pub edge_list : List (String × String × Edge)

unfoldable pub node_names : List (String × Node) → List String
node_names [] = []
node_names ((n, x) ∷ l) = n ∷ node_names l

unfoldable pub find_edge : List (String × String × Edge) → String → String → Option Edge
find_edge [] a b = none
find_edge ((s, t, e) ∷ l) a b = if str_eq s a && str_eq t b then some e else find_edge l a b

unfoldable pub drop_edges :
    (String → String → Bool) → List (String × String × Edge) → List (String × String × Edge)
drop_edges p [] = []
drop_edges p ((s, t, e) ∷ l) = let rest = drop_edges p l in if p s t then rest else (s, t, e) ∷ rest

unfoldable pub drop_node : String → List (String × Node) → List (String × Node)
drop_node n [] = []
drop_node n ((m, x) ∷ l) = let rest = drop_node n l in if str_eq n m then rest else (m, x) ∷ rest

unfoldable pub targets : List (String × String × Edge) → String → List String
targets [] a = []
targets ((s, t, e) ∷ l) a = let rest = targets l a in if str_eq s a then t ∷ rest else rest

unfoldable pub sources : List (String × String × Edge) → String → List String
sources [] b = []
sources ((s, t, e) ∷ l) b = let rest = sources l b in if str_eq t b then s ∷ rest else rest

abbrev pub lists : DiGraph Listed
lists = record {
  empty = record { node_list = []; edge_list = [] };
  nodes = λ g. node_names g.node_list;
  node = λ g n. Dict.get g.node_list n;
  put_node = λ g n x. record g { node_list = (n, x) ∷ g.node_list };
  remove_node = λ g n. record {
    node_list = drop_node n g.node_list;
    edge_list = drop_edges (λ s t. str_eq n s || str_eq n t) g.edge_list;
  };
  edge = λ g a b. find_edge g.edge_list a b;
  put_edge = λ g a b e. record {
    node_list =
        (a, record { symbol_count = 0; language = "" })
        ∷ (b, record { symbol_count = 0; language = "" })
        ∷ g.node_list;
    edge_list = (a, b, e) ∷ g.edge_list;
  };
  remove_edge =
      λ g a b. record g { edge_list = drop_edges (λ s t. str_eq a s && str_eq b t) g.edge_list };
  successors = λ g a. targets g.edge_list a;
  predecessors = λ g b. sources g.edge_list b;
}

mem-drop_node :
    (n : String) (l : List (String × Node)) (m : String)
    → mem m (node_names (drop_node n l)) ≡ (not (str_eq n m) && mem m (node_names l))
unfolding drop_node node_names mem
mem-drop_node n [] m = ground arith
mem-drop_node n ((k, x) ∷ l) m =
    ground (arith, mem-drop_node n l m, eq_iff n k, eq_iff k m, eq_iff n m)

find-drop_edges :
    (p : String → String → Bool) (l : List (String × String × Edge)) (a b : String)
    → find_edge (drop_edges p l) a b ≡ (if p a b then none else find_edge l a b)
unfolding drop_edges find_edge
find-drop_edges p [] a b = ground arith
find-drop_edges p ((s, t, e) ∷ l) a b =
    ground (arith, find-drop_edges p l a b, eq_iff s a, eq_iff t b, eq_iff a s)

mem-targets :
    (l : List (String × String × Edge)) (a b : String)
    → mem b (targets l a) ≡ is_some (find_edge l a b)
unfolding targets find_edge mem
mem-targets [] a b = refl
mem-targets ((s, t, e) ∷ l) a b = ground (arith, mem-targets l a b)

mem-sources :
    (l : List (String × String × Edge)) (a b : String)
    → mem a (sources l b) ≡ is_some (find_edge l a b)
unfolding sources find_edge mem
mem-sources [] a b = refl
mem-sources ((s, t, e) ∷ l) a b = ground (arith, mem-sources l a b)

pub lists-IsDiGraph : IsDiGraph lists
unfolding node_names find_edge mem
lists-IsDiGraph = record {
  node-empty = λ n. refl;
  edge-empty = λ a b. refl;
  node-put_node = λ g n x m. refl;
  edge-put_node = λ g n x a b. refl;
  node-remove_node = λ g n m. mem-drop_node n g.node_list m;
  edge-remove_node = λ g n a b. find-drop_edges (λ s t. str_eq n s || str_eq n t) g.edge_list a b;
  node-put_edge = λ g a b e m. ground arith;
  edge-put_edge = λ g a b e c d. refl;
  node-remove_edge = λ g a b m. refl;
  edge-remove_edge = λ g a b c d. find-drop_edges (λ s t. str_eq a s && str_eq b t) g.edge_list c d;
  mem-successors = λ g a b. mem-targets g.edge_list a b;
  mem-predecessors = λ g a b. mem-sources g.edge_list a b;
}

abbrev pub same : String → String
same s = s

abbrev pub tag : String → TagKind → Tag
tag n k = record { rel_fname = ""; fname = ""; line = 1; name = n; kind = k; sub_kind = "" }

-- A text that stands again later is left out.
unfoldable pub dedupe : List String → List String
dedupe [] = []
dedupe (x ∷ xs) = let rest = dedupe xs in if mem x xs then rest else x ∷ rest

mem-dedupe : (xs : List String) (n : String) → mem n (dedupe xs) ≡ mem n xs
unfolding dedupe mem
mem-dedupe [] n = refl
mem-dedupe (x ∷ xs) n = ground (arith, mem-dedupe xs n, eq_iff x n)

distinct-dedupe : (xs : List String) → distinct (dedupe xs) ≡ true
unfolding dedupe distinct
distinct-dedupe [] = refl
distinct-dedupe (x ∷ xs) = ground (arith, distinct-dedupe xs, mem-dedupe xs x)

pub dedupe-ListsSet : ListsSet dedupe
dedupe-ListsSet = record { same = mem-dedupe; once = distinct-dedupe }
