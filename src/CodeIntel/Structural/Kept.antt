-- ===== src/CodeIntel/Structural/Kept.antt =====
-- index/structural_index.py: each operation keeps the index well formed.
use praecepta.Prelude.{
  String, ◌≡◌, true, List, [], ◌∷◌, arith, eq_iff, eq_refl, Bool-cases, inl, inr,
}
use praecepta.Dict
use praecepta.Dict.{Dict}
use praecepta.CodeIntel.{Tag}
use praecepta.CodeIntel.DiGraph.{DiGraph, IsDiGraph, Node, has_node}
use praecepta.CodeIntel.Structural.{
  definitions, references, register, forget, Index, node_of, add_files, add_links, build,
  clear_outgoing, update_file, remove_file,
}
use praecepta.CodeIntel.Structural.Owners.{get-register, get-forget}
use praecepta.CodeIntel.Structural.WellFormed.{
  HasEnds, Known, IsWellFormed, put_node-HasEnds, remove_node-HasEnds, link-HasEnds, has_node-link,
  clear_outgoing-HasEnds, has_node-clear_outgoing,
}

-- A change of the index, and a sequence of them.
pub data Change : Type 0 where
  update : (path : String) → List Tag → Change
  remove : (path : String) → Change

module _ {G : Type 0} (D : DiGraph G) (normalize suffix : String → String) where
  unfoldable pub change : Change → Index G → Index G
  change (update path tags) i = update_file D normalize suffix path tags i
  change (remove path) i = remove_file D normalize suffix path i

  unfoldable pub changes : List Change → Index G → Index G
  changes [] i = i
  changes (c ∷ cs) i = changes cs (change c i)

module _ {G : Type 0} (D : DiGraph G) (L : IsDiGraph D) (normalize suffix : String → String) where
  register-Known :
      (fp : String) (ts : List Tag) (x : Node) (index : Dict String) (g : G)
      → Known D index g
      → Known D (register fp (definitions ts) index) (D.put_node g fp x)
  register-Known fp ts x index g k n f e =
      ground (arith, get-register fp ts index n, L.node-put_node g fp x f, eq_refl fp, k n f)

  add_files-IsWellFormed :
      (files : List (String × List Tag)) (i : Index G)
      → IsWellFormed D i
      → IsWellFormed D (add_files D normalize suffix files i)
  unfolding add_files
  add_files-IsWellFormed [] i h = h
  add_files-IsWellFormed ((path, tags) ∷ files) i h =
      let fp = normalize path in
      add_files-IsWellFormed files _ (record {
        ends = put_node-HasEnds D L i.graph fp (node_of suffix fp tags) h.ends;
        known = register-Known fp tags (node_of suffix fp tags) i.definition_index i.graph h.known;
      })

  add_links-HasEnds :
      (index : Dict String) (files : List (String × List Tag)) (g : G)
      → HasEnds D g
      → HasEnds D (add_links D normalize suffix index files g)
  unfolding add_links
  add_links-HasEnds index [] g h = h
  add_links-HasEnds index ((path, tags) ∷ files) g h =
      add_links-HasEnds index files _
        (link-HasEnds D L index (normalize path) (references tags) g h)

  has_node-add_links :
      (index : Dict String) (files : List (String × List Tag)) (g : G) (m : String)
      → has_node D g m ≡ true
      → has_node D (add_links D normalize suffix index files g) m ≡ true
  unfolding add_links
  has_node-add_links index [] g m h = h
  has_node-add_links index ((path, tags) ∷ files) g m h =
      has_node-add_links index files _ m
        (has_node-link D L index (normalize path) (references tags) g m h)

  empty-IsWellFormed : IsWellFormed D (record { graph = D.empty; definition_index = [] })
  unfolding Dict.get
  empty-IsWellFormed = record {
    ends = record {
      source = λ a b e. ground (arith, L.edge-empty a b);
      target = λ a b e. ground (arith, L.edge-empty a b);
      differ = λ a b e. ground (arith, L.edge-empty a b);
    };
    known = λ n f e. cc;
  }

  pub build-IsWellFormed :
      (files : List (String × List Tag)) → IsWellFormed D (build D normalize suffix files)
  unfolding build
  build-IsWellFormed files =
      let w = add_files-IsWellFormed files _ empty-IsWellFormed in
      record {
        ends = add_links-HasEnds _ files _ w.ends;
        known = λ n f e. has_node-add_links _ files _ f (w.known n f e);
      }

  pub update_file-IsWellFormed :
      (path : String) (tags : List Tag) (i : Index G)
      → IsWellFormed D i
      → IsWellFormed D (update_file D normalize suffix path tags i)
  unfolding update_file
  update_file-IsWellFormed path tags i h =
      let fp = normalize path in
      let g = clear_outgoing D fp i.graph in
      let x = node_of suffix fp tags in
      record {
        ends =
            link-HasEnds D L _ fp (references tags) _
              (put_node-HasEnds D L g fp x (clear_outgoing-HasEnds D L fp i.graph h.ends));
        known = λ n f e. has_node-link D L _ fp (references tags) _ f (
            register-Known fp tags x (forget fp i.definition_index) g
              (λ m t k. ground (
                arith,
                get-forget fp i.definition_index m,
                h.known m t,
                has_node-clear_outgoing D L fp i.graph t,
              ))
              n f e);
      }

  pub remove_file-IsWellFormed :
      (path : String) (i : Index G)
      → IsWellFormed D i
      → IsWellFormed D (remove_file D normalize suffix path i)
  unfolding remove_file
  remove_file-IsWellFormed path i h =
      let fp = normalize path in
      elim (Bool-cases (has_node D i.graph fp)) [
        | inl e ↦ rw e (record {
          ends = remove_node-HasEnds D L i.graph fp h.ends;
          known = λ n f k. ground (
            arith,
            get-forget fp i.definition_index n,
            h.known n f,
            eq_iff f fp,
            eq_iff fp f,
            L.node-remove_node i.graph fp f,
          );
        })
        | inr e ↦ rw e (record {
          ends = h.ends;
          known = λ n f k. ground (arith, get-forget fp i.definition_index n, h.known n f);
        })
      ]

  changes-IsWellFormed :
      (cs : List Change) (i : Index G)
      → IsWellFormed D i
      → IsWellFormed D (changes D normalize suffix cs i)
  unfolding changes change
  changes-IsWellFormed [] i h = h
  changes-IsWellFormed (update path tags ∷ cs) i h =
      changes-IsWellFormed cs _ (update_file-IsWellFormed path tags i h)
  changes-IsWellFormed (remove path ∷ cs) i h =
      changes-IsWellFormed cs _ (remove_file-IsWellFormed path i h)

  -- After a build and any updates and removals, each edge joins two different nodes, and each name in
  -- the definition index belongs to a node.
  pub build-changes-IsWellFormed :
      (files : List (String × List Tag)) (cs : List Change)
      → IsWellFormed D (changes D normalize suffix cs (build D normalize suffix files))
  build-changes-IsWellFormed files cs = changes-IsWellFormed cs _ (build-IsWellFormed files)
