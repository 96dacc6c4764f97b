-- ===== src/CodeIntel/Structural/References.antt =====
-- index/structural_index.py: how many references each edge counts.
use praecepta.Prelude.{
  ℕ, ◌+◌, String, ◌≡◌, refl, ◌∙◌, Bool, false, not, ◌&&◌, List, [], ◌∷◌, Option, none, some, arith,
  str_eq, eq_iff, if◌then◌else◌,
}
use praecepta.Text.{truthy}
use praecepta.Text.Membership.{mem, is_some}
use praecepta.Dict
use praecepta.Dict.{Dict}
use praecepta.CodeIntel.{Tag, definition, reference}
use praecepta.CodeIntel.DiGraph.{DiGraph, IsDiGraph, Edge, has_node}
use praecepta.CodeIntel.Structural.{
  definitions, references, register, Index, counted, node_of, link_to, link, add_files, add_links,
  remove_edges, clear_outgoing,
}
use praecepta.CodeIntel.Structural.Owners.{owner, get-register}

-- how many references an edge counts
abbrev pub weight : Option Edge → ℕ
weight none = 0
weight (some e) = e.weight

-- Whether a reference of the file `fp` to a name with this owner leads to the file `target`.
abbrev pub leads : (fp target : String) → Option String → Bool
leads fp target none = false
leads fp target (some f) = truthy f && not (str_eq f fp) && str_eq f target

-- The references of the file `fp` that lead to the file `target`.
unfoldable pub uses : (owned_by : String → Option String) → (fp target : String) → List Tag → ℕ
uses owned_by fp target [] = 0
uses owned_by fp target (t ∷ ts) =
    elim t.kind [ definition ↦ 0 | reference ↦ if leads fp target (owned_by t.name) then 1 else 0 ]
    + uses owned_by fp target ts

-- The same for all files, from the file `source`.
unfoldable pub uses_of :
    (owned_by : String → Option String)
    → (normalize : String → String) → (source target : String) → List (String × List Tag)
    → ℕ
uses_of owned_by normalize source target [] = 0
uses_of owned_by normalize source target ((path, tags) ∷ files) =
    (if str_eq (normalize path) source then uses owned_by (normalize path) target tags else 0)
    + uses_of owned_by normalize source target files

module _ {G : Type 0} (D : DiGraph G) (L : IsDiGraph D) where
  weight-link_to :
      (fp name : String) (o : Option String) (g : G) (a b : String)
      → weight (D.edge (link_to D fp name o g) a b)
        ≡ (if str_eq fp a && leads fp b o then 1 else 0) + weight (D.edge g a b)
  unfolding link_to counted
  weight-link_to fp name none g a b = ground arith
  weight-link_to fp name (some f) g a b =
      ground
        (arith, eq_iff f b, eq_iff fp a, L.edge-put_edge g fp f (counted name (D.edge g fp f)) a b)

  pub weight-link :
      (index : Dict String) (fp : String) (ts : List Tag) (g : G) (a b : String)
      → weight (D.edge (link D index fp (references ts) g) a b)
        ≡ (if str_eq fp a then uses (Dict.get index) fp b ts else 0) + weight (D.edge g a b)
  unfolding link references uses
  weight-link index fp [] g a b = ground arith
  weight-link index fp (t ∷ ts) g a b = ground (
    arith,
    weight-link index fp ts g a b,
    weight-link index fp ts (link_to D fp t.name (Dict.get index t.name) g) a b,
    weight-link_to fp t.name (Dict.get index t.name) g a b,
  )

  edge-remove_edges :
      (fp : String) (xs : List String) (g : G) (a b : String)
      → weight (D.edge (remove_edges D fp xs g) a b)
        ≡ (if str_eq fp a && mem b xs then 0 else weight (D.edge g a b))
  unfolding remove_edges mem
  edge-remove_edges fp [] g a b = ground arith
  edge-remove_edges fp (x ∷ xs) g a b =
      ground
        (arith, edge-remove_edges fp xs (D.remove_edge g fp x) a b, L.edge-remove_edge g fp x a b)

  -- `update_file` takes the outgoing edges of the file out, if it is a node.
  pub weight-clear_outgoing :
      (fp : String) (g : G) (a b : String)
      → (has_node D g fp ≡ false → is_some (D.edge g fp b) ≡ false)
      → weight (D.edge (clear_outgoing D fp g) a b)
        ≡ (if str_eq fp a then 0 else weight (D.edge g a b))
  unfolding clear_outgoing
  weight-clear_outgoing fp g a b closed = ground (
    arith,
    edge-remove_edges fp (D.successors g fp) g a b,
    L.mem-successors g fp b,
    eq_iff fp a,
    closed,
  )

module _ {G : Type 0} (D : DiGraph G) (L : IsDiGraph D) (normalize suffix : String → String) where
  pub get-add_files :
      (files : List (String × List Tag)) (i : Index G) (n : String)
      → Dict.get (add_files D normalize suffix files i).definition_index n
        ≡ Dict.or_old (owner normalize files n) (Dict.get i.definition_index n)
  unfolding add_files owner
  get-add_files [] i n = refl
  get-add_files ((path, tags) ∷ files) i n = ground (
    arith,
    get-add_files files
        (record {
          graph = D.put_node i.graph (normalize path) (node_of suffix (normalize path) tags);
          definition_index = register (normalize path) (definitions tags) i.definition_index;
        })
        n,
    get-register (normalize path) tags i.definition_index n,
  )

  pub edge-add_files :
      (files : List (String × List Tag)) (i : Index G) (a b : String)
      → D.edge (add_files D normalize suffix files i).graph a b ≡ D.edge i.graph a b
  unfolding add_files
  edge-add_files [] i a b = refl
  edge-add_files ((path, tags) ∷ files) i a b =
      edge-add_files files _ a b
      ∙ L.edge-put_node i.graph (normalize path) (node_of suffix (normalize path) tags) a b

  pub weight-add_links :
      (index : Dict String) (files : List (String × List Tag)) (g : G) (a b : String)
      → weight (D.edge (add_links D normalize suffix index files g) a b)
        ≡ uses_of (Dict.get index) normalize a b files + weight (D.edge g a b)
  unfolding add_links uses_of
  weight-add_links index [] g a b = ground arith
  weight-add_links index ((path, tags) ∷ files) g a b = ground (
    arith,
    weight-add_links index files (link D index (normalize path) (references tags) g) a b,
    weight-link D L index (normalize path) tags g a b,
  )
