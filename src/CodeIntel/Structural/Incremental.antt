-- ===== src/CodeIntel/Structural/Incremental.antt =====
-- index/structural_index.py: what `build`, `update_file` and `remove_file` leave in the index.
use praecepta.Prelude.{
  String, ◌≡◌, refl, ap, ◌∙◌, false, ◌||◌, List, [], Option, none, some, arith, str_eq, eq_iff,
  eq_refl, if◌then◌else◌,
}
use mathlib.Core.Path.{fun_ext}
use praecepta.Dict
use praecepta.Dict.{Dict}
use praecepta.CodeIntel.{Tag}
use praecepta.CodeIntel.DiGraph.{DiGraph, IsDiGraph, has_node}
use praecepta.CodeIntel.Structural.{
  definitions, register, forget, Index, node_of, add_files, build, clear_outgoing, update_file,
  remove_file,
}
use praecepta.CodeIntel.Structural.Owners.{defines, owner, without, get-register, get-forget}
use praecepta.CodeIntel.Structural.WellFormed.{IsWellFormed}
use praecepta.CodeIntel.Structural.References.{
  weight, uses, uses_of, weight-link, weight-clear_outgoing, get-add_files, edge-add_files,
  weight-add_links,
}

or_old-none : (o : Option String) → Dict.or_old o none ≡ o
or_old-none none = refl
or_old-none (some v) = refl

module _ {G : Type 0} (D : DiGraph G) (L : IsDiGraph D) (normalize suffix : String → String) where
  abbrev start : Index G
  start = record { graph = D.empty; definition_index = [] }

  get-build :
      (files : List (String × List Tag)) (n : String)
      → Dict.get (build D normalize suffix files).definition_index n ≡ owner normalize files n
  unfolding build Dict.get
  get-build files n =
      get-add_files D L normalize suffix files start n ∙ or_old-none (owner normalize files n)

  -- The index that is built from scratch: a name belongs to the last file that defines it, and an edge
  -- counts the references of its source file to names of its target file.
  pub build_lem :
      (files : List (String × List Tag)) (n a b : String)
      → (Dict.get (build D normalize suffix files).definition_index n ≡ owner normalize files n)
        × (weight (D.edge (build D normalize suffix files).graph a b)
            ≡ uses_of (owner normalize files) normalize a b files)
  unfolding build
  build_lem files n a b =
      let index = (add_files D normalize suffix files start).definition_index in
      let g = (add_files D normalize suffix files start).graph in
      let same : Dict.get index ≡ owner normalize files = fun_ext (get-build files) in
      (
        get-build files n,
        ground (
          arith,
          weight-add_links D L normalize suffix index files g a b,
          edge-add_files D L normalize suffix files start a b,
          L.edge-empty a b,
          ap (λ (o : String → Option String). uses_of o normalize a b files) same,
        ),
      )

  -- An update: the names that the new tags define belong to the file, the other names that it owned to
  -- none; its outgoing edges count the new references, and the other edges stay as they were.
  pub update_file_lem :
      (path : String) (tags : List Tag) (i : Index G)
      → IsWellFormed D i
      → (n a b : String)
      → (Dict.get (update_file D normalize suffix path tags i).definition_index n ≡ (
          if defines tags n
          then some (normalize path)
          else without (normalize path) (Dict.get i.definition_index n)))
        × (weight (D.edge (update_file D normalize suffix path tags i).graph a b) ≡ (
            if str_eq (normalize path) a
            then uses
                (Dict.get (update_file D normalize suffix path tags i).definition_index)
                a
                b
                tags
            else weight (D.edge i.graph a b)))
  unfolding update_file
  update_file_lem path tags i h n a b =
      let fp = normalize path in
      let index = register fp (definitions tags) (forget fp i.definition_index) in
      let g = clear_outgoing D fp i.graph in
      let x = node_of suffix fp tags in
      (
        ground (
          arith,
          get-register fp tags (forget fp i.definition_index) n,
          get-forget fp i.definition_index n,
        ),
        ground (
          arith,
          weight-link D L index fp tags (D.put_node g fp x) a b,
          L.edge-put_node g fp x a b,
          eq_iff fp a,
          weight-clear_outgoing D L fp i.graph a b (λ k. ground (arith, h.ends.source fp b)),
        ),
      )

  -- A removal: no name belongs to the file, it has no edges, and the rest stays as it was.
  pub remove_file_lem :
      (path : String) (i : Index G)
      → IsWellFormed D i
      → (n a b : String)
      → (Dict.get (remove_file D normalize suffix path i).definition_index n
          ≡ without (normalize path) (Dict.get i.definition_index n))
        × (weight (D.edge (remove_file D normalize suffix path i).graph a b) ≡ (
            if str_eq (normalize path) a || str_eq (normalize path) b
            then 0
            else weight (D.edge i.graph a b)))
        × (has_node D (remove_file D normalize suffix path i).graph (normalize path) ≡ false)
  unfolding remove_file
  remove_file_lem path i h n a b =
      let fp = normalize path in
      (
        get-forget fp i.definition_index n,
        ground (
          arith,
          L.edge-remove_node i.graph fp a b,
          h.ends.source a b,
          h.ends.target a b,
          eq_iff fp a,
          eq_iff fp b,
        ),
        ground (arith, L.node-remove_node i.graph fp fp, eq_refl fp),
      )
