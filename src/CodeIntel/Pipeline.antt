-- ===== src/CodeIntel/Pipeline.antt =====
-- watcher/incremental_pipeline.py (packages/infra-codeintel): both indexes follow the changes of files; with
-- `upsert_symbols` and `remove_symbols` of index/semantic_index.py.
pub mod Diff
pub mod Indexed
pub mod Stale
mod Tests
use praecepta.Prelude.{
  ℕ, zero, suc, ◌+◌, String, ◌≡◌, Bool, true, false, not, ◌&&◌, ◌||◌, List, [], ◌∷◌, ◌++◌, Option,
  none, some, str_eq, if◌then◌else◌, ◌==◌,
}
use praecepta.Text.Membership.{mem, is_some}
use praecepta.Dict
use praecepta.Dict.{Dict}
use praecepta.CodeIntel.{Tag, TagKind, definition, reference, SymbolSignature}
use praecepta.CodeIntel.DiGraph.{DiGraph}
use praecepta.CodeIntel.Structural.{definitions, Index, update_file, remove_file}

abbrev pub tag_names : List Tag → List String
tag_names [] = []
tag_names (t ∷ ts) = t.name ∷ tag_names ts

abbrev pub symbol_names : List SymbolSignature → List String
symbol_names [] = []
symbol_names (s ∷ ss) = s.qualified_name ∷ symbol_names ss

-- The table of LanceDB: the rows under a qualified name, `delete(qualified_name IN (...))` and `add`.
pub record SymbolTable (T : Type 0) : Type 0 where
  pub has_row : T → String → Bool
  pub delete : T → List String → T
  pub add : T → List SymbolSignature → T

pub record IsSymbolTable {T : Type 0} (L : SymbolTable T) : Type 0 where
  pub has_row-delete :
      (t : T) (ns : List String) (n : String)
      → L.has_row (L.delete t ns) n ≡ (not (mem n ns) && L.has_row t n)
  pub has_row-add :
      (t : T) (ss : List SymbolSignature) (n : String)
      → L.has_row (L.add t ss) n ≡ (mem n (symbol_names ss) || L.has_row t n)

-- `{t.name: t for t in tags if t.kind == "definition"}`
unfoldable pub by_name : List Tag → Dict Tag → Dict Tag
by_name [] d = d
by_name (t ∷ ts) d = by_name ts (Dict.put d t.name t)

abbrev pub keys : Dict Tag → List String
keys [] = []
keys ((k, t) ∷ d) = k ∷ keys d

-- `[d[n] for n in names if ...]`: the names that `keep` tells to keep
unfoldable pub pick : (keep : String → Bool) → Dict Tag → List String → List Tag
pick keep d [] = []
pick keep d (n ∷ ns) =
    let rest = pick keep d ns in
    elim (Dict.get d n) [ none ↦ rest | some t ↦ if keep n then t ∷ rest else rest ]

-- `old_defs[n].line != new_defs[n].line`, where both are defined
abbrev pub moved : Option Tag → Option Tag → Bool
moved (some t) (some u) = not (t.line == u.line)
moved none o = false
moved (some t) none = false

-- `as_set` gives the order in which Python iterates over a set of names.
module _ (as_set : List String → List String) where
  -- `diff_tags`: (added, removed, modified)
  unfoldable pub diff_tags : (old_tags new_tags : List Tag) → List Tag × List Tag × List Tag
  diff_tags old_tags new_tags =
      let old_defs = by_name (definitions old_tags) [] in
      let new_defs = by_name (definitions new_tags) [] in
      (
        pick (λ n. not (is_some (Dict.get old_defs n))) new_defs (as_set (keys new_defs)),
        pick (λ n. not (is_some (Dict.get new_defs n))) old_defs (as_set (keys old_defs)),
        pick (λ n. moved (Dict.get old_defs n) (Dict.get new_defs n)) new_defs
            (as_set (keys old_defs)),
      )

-- The pipeline: its cache of tags and the two indexes.
pub record State (G T : Type 0) : Type 0 where
  pub tag_cache : Dict (List Tag)
  pub structural : Index G
  pub semantic : T

pub data EventType : Type 0 where
  created modified deleted : EventType

pub record FileEvent : Type 0 where
  pub path : String
  pub event_type : EventType

module _ {T : Type 0} (L : SymbolTable T) where
  -- `upsert_symbols`, `remove_symbols`
  unfoldable pub upsert_symbols : List SymbolSignature → T → T
  upsert_symbols [] t = t
  upsert_symbols (s ∷ ss) t = L.add (L.delete t (symbol_names (s ∷ ss))) (s ∷ ss)

  unfoldable pub remove_symbols : List String → T → T
  remove_symbols [] t = t
  remove_symbols (n ∷ ns) t = L.delete t (n ∷ ns)

abbrev pub cached : Option (List Tag) → List Tag
cached none = []
cached (some ts) = ts

-- What the parser gives for a file: its tags, and its tree as what `extract_symbols` reads from it for a
-- list of tags.
pub record Parsed : Type 0 where
  pub tags : List Tag
  pub symbols : List Tag → List SymbolSignature

-- `if changed_tags: symbols = ...`
unfoldable pub changed_symbols : Parsed → List Tag → List SymbolSignature
changed_symbols p [] = []
changed_symbols p (t ∷ ts) = p.symbols (t ∷ ts)

-- The calls of the extractor and of the table are taken not to raise.
module _ {G T : Type 0} (D : DiGraph G) (normalize suffix : String → String) (L : SymbolTable T)
    (as_set : List String → List String) where
  unfoldable pub handle_deleted : (path : String) → State G T → State G T
  handle_deleted path s =
      let old_tags = cached (Dict.get s.tag_cache path) in
      record {
        tag_cache = Dict.remove s.tag_cache path;
        structural = remove_file D normalize suffix path s.structural;
        semantic = remove_symbols L (tag_names (definitions old_tags)) s.semantic;
      }

  -- none if `parse_file` raises
  unfoldable pub handle_created : (path : String) → Option Parsed → State G T → State G T
  handle_created path none s = s
  handle_created path (some p) s = record {
    tag_cache = Dict.put s.tag_cache path p.tags;
    structural = update_file D normalize suffix path p.tags s.structural;
    semantic = upsert_symbols L (p.symbols p.tags) s.semantic;
  }

  unfoldable pub handle_modified : (path : String) → Option Parsed → State G T → State G T
  handle_modified path none s = s
  handle_modified path (some p) s =
      let old_tags = cached (Dict.get s.tag_cache path) in
      let (added, removed, changed) = diff_tags as_set old_tags p.tags in
      let left = remove_symbols L (tag_names removed) s.semantic in
      record {
        tag_cache = Dict.put s.tag_cache path p.tags;
        structural = update_file D normalize suffix path p.tags s.structural;
        semantic = upsert_symbols L (changed_symbols p (added ++ changed)) left;
      }

  -- An event whose handler raises is logged, and the next one follows.
  unfoldable pub process_event : FileEvent → Option Parsed → State G T → State G T
  process_event event parsed s = elim event.event_type [
    | deleted ↦ handle_deleted event.path s
    | created ↦ handle_created event.path parsed s
    | modified ↦ handle_modified event.path parsed s
  ]

  -- each event with what the parser gives when it is processed
  unfoldable pub process_events : List (FileEvent × Option Parsed) → State G T → State G T
  process_events [] s = s
  process_events ((e, parsed) ∷ es) s = process_events es (process_event e parsed s)
