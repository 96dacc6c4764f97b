-- ===== src/CodeIntel/Structural/WellFormed.antt =====
-- index/structural_index.py: the well-formedness of the index, which each operation preserves.
use praecepta.Prelude.{
  String, ◌≡◌, refl, ◌∙◌, Bool-cases, inl, inr, true, false, not, ◌&&◌, List, [], ◌∷◌, Option, none,
  some, arith, str_eq, eq_iff,
}
use praecepta.Text.{truthy}
use praecepta.Text.Membership.{is_some}
use praecepta.Dict
use praecepta.Dict.{Dict}
use praecepta.CodeIntel.{Tag}
use praecepta.CodeIntel.DiGraph.{DiGraph, IsDiGraph, Node, Edge, has_node}
use praecepta.CodeIntel.Structural.{Index, counted, link_to, link, remove_edges, clear_outgoing}

module _ {G : Type 0} (D : DiGraph G) where
  -- An edge joins two different nodes.
  pub record HasEnds (g : G) : Type 0 where
    pub source : (a b : String) → is_some (D.edge g a b) ≡ true → has_node D g a ≡ true
    pub target : (a b : String) → is_some (D.edge g a b) ≡ true → has_node D g b ≡ true
    pub differ : (a b : String) → is_some (D.edge g a b) ≡ true → str_eq a b ≡ false

  -- A file that defines a name is a node.
  abbrev pub Known : Dict String → G → Type 0
  Known index g = (n f : String) → Dict.get index n ≡ some f → has_node D g f ≡ true

  pub record IsWellFormed (i : Index G) : Type 0 where
    pub ends : HasEnds i.graph
    pub known : Known i.definition_index i.graph

module _ {G : Type 0} (D : DiGraph G) (L : IsDiGraph D) where
  pub put_node-HasEnds :
      (g : G) (n : String) (x : Node) → HasEnds D g → HasEnds D (D.put_node g n x)
  put_node-HasEnds g n x h = record {
    source =
        λ a b e. ground (arith, L.node-put_node g n x a, L.edge-put_node g n x a b, h.source a b);
    target =
        λ a b e. ground (arith, L.node-put_node g n x b, L.edge-put_node g n x a b, h.target a b);
    differ = λ a b e. ground (arith, L.edge-put_node g n x a b, h.differ a b);
  }

  put_edge-HasEnds :
      (g : G) (s t : String) (x : Edge)
      → str_eq t s ≡ false
      → HasEnds D g
      → HasEnds D (D.put_edge g s t x)
  put_edge-HasEnds g s t x d h = record {
    source = λ a b e.
        ground (arith, L.node-put_edge g s t x a, L.edge-put_edge g s t x a b, h.source a b);
    target = λ a b e.
        ground (arith, L.node-put_edge g s t x b, L.edge-put_edge g s t x a b, h.target a b);
    differ = λ a b e. ground (
      arith,
      L.edge-put_edge g s t x a b,
      h.differ a b,
      eq_iff a b,
      eq_iff s a,
      eq_iff t b,
      eq_iff t s,
    );
  }

  remove_edge-HasEnds : (g : G) (s t : String) → HasEnds D g → HasEnds D (D.remove_edge g s t)
  remove_edge-HasEnds g s t h = record {
    source = λ a b e.
        ground (arith, L.node-remove_edge g s t a, L.edge-remove_edge g s t a b, h.source a b);
    target = λ a b e.
        ground (arith, L.node-remove_edge g s t b, L.edge-remove_edge g s t a b, h.target a b);
    differ = λ a b e. ground (arith, L.edge-remove_edge g s t a b, h.differ a b);
  }

  pub remove_node-HasEnds : (g : G) (n : String) → HasEnds D g → HasEnds D (D.remove_node g n)
  remove_node-HasEnds g n h = record {
    source =
        λ a b e. ground (arith, L.node-remove_node g n a, L.edge-remove_node g n a b, h.source a b);
    target =
        λ a b e. ground (arith, L.node-remove_node g n b, L.edge-remove_node g n a b, h.target a b);
    differ = λ a b e. ground (arith, L.edge-remove_node g n a b, h.differ a b);
  }

  link_to-HasEnds :
      (fp name : String) (o : Option String) (g : G)
      → HasEnds D g
      → HasEnds D (link_to D fp name o g)
  unfolding link_to
  link_to-HasEnds fp name none g h = h
  link_to-HasEnds fp name (some f) g h = elim (Bool-cases (truthy f && not (str_eq f fp))) [
    | inl t ↦ rw t (put_edge-HasEnds g fp f (counted name (D.edge g fp f)) (ground arith) h)
    | inr t ↦ rw t h
  ]

  has_node-link_to :
      (fp name : String) (o : Option String) (g : G) (m : String)
      → has_node D g m ≡ true
      → has_node D (link_to D fp name o g) m ≡ true
  unfolding link_to
  has_node-link_to fp name none g m h = h
  has_node-link_to fp name (some f) g m h =
      ground (arith, L.node-put_edge g fp f (counted name (D.edge g fp f)) m)

  pub has_node-link :
      (index : Dict String) (fp : String) (ts : List Tag) (g : G) (m : String)
      → has_node D g m ≡ true
      → has_node D (link D index fp ts g) m ≡ true
  unfolding link
  has_node-link index fp [] g m h = h
  has_node-link index fp (t ∷ ts) g m h =
      has_node-link index fp ts _ m (has_node-link_to fp t.name (Dict.get index t.name) g m h)

  pub link-HasEnds :
      (index : Dict String) (fp : String) (ts : List Tag) (g : G)
      → HasEnds D g
      → HasEnds D (link D index fp ts g)
  unfolding link
  link-HasEnds index fp [] g h = h
  link-HasEnds index fp (t ∷ ts) g h =
      link-HasEnds index fp ts _ (link_to-HasEnds fp t.name (Dict.get index t.name) g h)

  remove_edges-HasEnds :
      (fp : String) (xs : List String) (g : G) → HasEnds D g → HasEnds D (remove_edges D fp xs g)
  unfolding remove_edges
  remove_edges-HasEnds fp [] g h = h
  remove_edges-HasEnds fp (x ∷ xs) g h = remove_edges-HasEnds fp xs _ (remove_edge-HasEnds g fp x h)

  has_node-remove_edges :
      (fp : String) (xs : List String) (g : G) (m : String)
      → has_node D (remove_edges D fp xs g) m ≡ has_node D g m
  unfolding remove_edges
  has_node-remove_edges fp [] g m = refl
  has_node-remove_edges fp (x ∷ xs) g m =
      has_node-remove_edges fp xs _ m ∙ L.node-remove_edge g fp x m

  pub clear_outgoing-HasEnds :
      (fp : String) (g : G) → HasEnds D g → HasEnds D (clear_outgoing D fp g)
  unfolding clear_outgoing
  clear_outgoing-HasEnds fp g h = elim (Bool-cases (has_node D g fp)) [
    | inl e ↦ rw e (remove_edges-HasEnds fp (D.successors g fp) g h)
    | inr e ↦ rw e h
  ]

  pub has_node-clear_outgoing :
      (fp : String) (g : G) (m : String) → has_node D (clear_outgoing D fp g) m ≡ has_node D g m
  unfolding clear_outgoing
  has_node-clear_outgoing fp g m = ground (arith, has_node-remove_edges fp (D.successors g fp) g m)
