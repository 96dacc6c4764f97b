-- ===== src/CodeIntel/Structural.antt =====
-- index/structural_index.py (packages/infra-codeintel): the graph of references between files and the
-- file that defines each symbol, built from tags and updated file by file.
pub mod Owners
pub mod WellFormed
pub mod Kept
pub mod Incremental
pub mod Traversal
pub mod Rebuild
pub mod Ranked
mod Tests
pub mod References
use praecepta.Prelude.{
  ℕ, zero, suc, ◌+◌, String, ◌≡◌, Bool, true, false, not, ◌&&◌, List, [], ◌∷◌, ◌++◌, Option, none,
  some, str_eq, if◌then◌else◌, length,
}
use praecepta.Text.{truthy}
use praecepta.Text.Membership.{mem}
use praecepta.Dict
use praecepta.Dict.{Dict}
use praecepta.CodeIntel.{Tag, TagKind, definition, reference}
use praecepta.CodeIntel.DiGraph.{DiGraph, Node, Edge, has_node}

-- `[t for t in tags if t.kind == "definition"]`
unfoldable pub definitions : List Tag → List Tag
definitions [] = []
definitions (t ∷ ts) =
    let rest = definitions ts in elim t.kind [ definition ↦ t ∷ rest | reference ↦ rest ]

-- `[t for t in tags if t.kind == "reference"]`
unfoldable pub references : List Tag → List Tag
references [] = []
references (t ∷ ts) =
    let rest = references ts in elim t.kind [ definition ↦ rest | reference ↦ t ∷ rest ]

-- `self._definition_index[t.name] = fp_str` for each definition
unfoldable pub register : (fp : String) → List Tag → Dict String → Dict String
register fp [] index = index
register fp (t ∷ ts) index = register fp ts (Dict.put index t.name fp)

-- `[k for k, v in self._definition_index.items() if v == fp_str]`: the value of a key is looked up.
unfoldable pub keys_owned : (index : Dict String) → (fp : String) → Dict String → List String
keys_owned index fp [] = []
keys_owned index fp ((k, v) ∷ d) =
    let rest = keys_owned index fp d in
    elim (Dict.get index k) [ none ↦ rest | some w ↦ if str_eq w fp then k ∷ rest else rest ]

-- `for k in stale_keys: del self._definition_index[k]`
unfoldable pub delete_keys : List String → Dict String → Dict String
delete_keys [] index = index
delete_keys (k ∷ ks) index = delete_keys ks (Dict.remove index k)

unfoldable pub forget : (fp : String) → Dict String → Dict String
forget fp index = delete_keys (keys_owned index fp index) index

-- `_guess_language`, where `suffix` is the lowered suffix of the path.
languages : Dict String
languages =
    (".py", "python")
    ∷ (".ts", "typescript")
    ∷ (".tsx", "typescript")
    ∷ (".js", "javascript")
    ∷ (".jsx", "javascript")
    ∷ (".rs", "rust")
    ∷ (".go", "go")
    ∷ (".java", "java")
    ∷ (".cs", "csharp")
    ∷ (".rb", "ruby")
    ∷ (".cpp", "cpp")
    ∷ (".c", "c")
    ∷ (".h", "c")
    ∷ (".hpp", "cpp")
    ∷ []

unfoldable pub guess_language : (suffix : String) → String
unfolding languages
guess_language suffix = elim (Dict.get languages suffix) [ none ↦ "unknown" | some l ↦ l ]

pub record Index (G : Type 0) : Type 0 where
  pub graph : G
  pub definition_index : Dict String

-- the edge that one more reference to `name` leaves
unfoldable pub counted : (name : String) → Option Edge → Edge
counted name none = record { weight = 1; symbols = name ∷ [] }
counted name (some e) = record {
  weight = e.weight + 1;
  symbols = if mem name e.symbols then e.symbols else e.symbols ++ name ∷ [];
}

unfoldable pub node_of : (suffix : String → String) → (fp : String) → List Tag → Node
node_of suffix fp tags = record {
  symbol_count = length (definitions tags);
  language = guess_language (suffix fp);
}

module _ {G : Type 0} (D : DiGraph G) where
  -- `if target_file and target_file != fp_str`, with the file that defines the name if there is one
  unfoldable pub link_to : (fp name : String) → Option String → G → G
  link_to fp name none g = g
  link_to fp name (some target) g =
      if truthy target && not (str_eq target fp)
      then D.put_edge g fp target (counted name (D.edge g fp target))
      else g

  -- the loop over the references of a file
  unfoldable pub link : (index : Dict String) → (fp : String) → List Tag → G → G
  link index fp [] g = g
  link index fp (t ∷ ts) g = link index fp ts (link_to fp t.name (Dict.get index t.name) g)

  -- `for succ in successors: self._graph.remove_edge(fp_str, succ)`
  unfoldable pub remove_edges : (fp : String) → List String → G → G
  remove_edges fp [] g = g
  remove_edges fp (succ ∷ rest) g = remove_edges fp rest (D.remove_edge g fp succ)

  unfoldable pub clear_outgoing : (fp : String) → G → G
  clear_outgoing fp g = if has_node D g fp then remove_edges fp (D.successors g fp) g else g

-- `normalize` is `_normalize` and `suffix` takes the lowered suffix of a path: pathlib's view of paths.
module _ {G : Type 0} (D : DiGraph G) (normalize suffix : String → String) where
  -- the two passes of `build` over `all_tags.items()`
  unfoldable pub add_files : List (String × List Tag) → Index G → Index G
  add_files [] i = i
  add_files ((path, tags) ∷ files) i = add_files files (record {
    graph = D.put_node i.graph (normalize path) (node_of suffix (normalize path) tags);
    definition_index = register (normalize path) (definitions tags) i.definition_index;
  })

  unfoldable pub add_links : (index : Dict String) → List (String × List Tag) → G → G
  add_links index [] g = g
  add_links index ((path, tags) ∷ files) g =
      add_links index files (link D index (normalize path) (references tags) g)

  unfoldable pub build : List (String × List Tag) → Index G
  build all_tags =
      let i = add_files all_tags (record { graph = D.empty; definition_index = [] }) in
      record i { graph = add_links i.definition_index all_tags i.graph }

  unfoldable pub update_file : (file_path : String) → (new_tags : List Tag) → Index G → Index G
  update_file file_path new_tags i =
      let fp = normalize file_path in
      let index = register fp (definitions new_tags) (forget fp i.definition_index) in
      let g = D.put_node (clear_outgoing D fp i.graph) fp (node_of suffix fp new_tags) in
      record { graph = link D index fp (references new_tags) g; definition_index = index }

  unfoldable pub remove_file : (file_path : String) → Index G → Index G
  remove_file file_path i =
      let fp = normalize file_path in
      record {
        graph = if has_node D i.graph fp then D.remove_node i.graph fp else i.graph;
        definition_index = forget fp i.definition_index;
      }
