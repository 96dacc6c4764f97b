-- ===== src/CodeIntel/Pipeline/Indexed.antt =====
-- watcher/incremental_pipeline.py: the structural index stays well formed under the changes of files.
use praecepta.Prelude.{String, List, [], ◌∷◌, Option, none, some}
use praecepta.Dict.{Dict}
use praecepta.CodeIntel.{Tag}
use praecepta.CodeIntel.DiGraph.{DiGraph, IsDiGraph}
use praecepta.CodeIntel.Structural.{build}
use praecepta.CodeIntel.Pipeline.{
  SymbolTable, State, EventType, created, modified, deleted, FileEvent, Parsed, handle_deleted,
  handle_created, handle_modified, process_event, process_events,
}
use praecepta.CodeIntel.Structural.WellFormed.{IsWellFormed}
use praecepta.CodeIntel.Structural.Kept.{
  build-IsWellFormed, update_file-IsWellFormed, remove_file-IsWellFormed,
}

module _ {G T : Type 0} (D : DiGraph G) (G-laws : IsDiGraph D) (normalize suffix : String → String)
    (L : SymbolTable T) (as_set : List String → List String) where
  process_event-IsWellFormed :
      (e : FileEvent) (parsed : Option Parsed) (s : State G T)
      → IsWellFormed D s.structural
      → IsWellFormed D (process_event D normalize suffix L as_set e parsed s).structural
  unfolding process_event handle_deleted handle_created handle_modified
  process_event-IsWellFormed e parsed s h = of_type e.event_type parsed
    where
      of_type :
          (t : EventType) (parsed : Option Parsed)
          → IsWellFormed D
              (elim t as (λ t. State G T) [
                | deleted ↦ handle_deleted D normalize suffix L as_set e.path s
                | created ↦ handle_created D normalize suffix L as_set e.path parsed s
                | modified ↦ handle_modified D normalize suffix L as_set e.path parsed s
              ]).structural
      of_type deleted parsed =
          remove_file-IsWellFormed D G-laws normalize suffix e.path s.structural h
      of_type created none = h
      of_type created (some p) =
          update_file-IsWellFormed D G-laws normalize suffix e.path p.tags s.structural h
      of_type modified none = h
      of_type modified (some p) =
          update_file-IsWellFormed D G-laws normalize suffix e.path p.tags s.structural h

  process_events-IsWellFormed :
      (es : List (FileEvent × Option Parsed)) (s : State G T)
      → IsWellFormed D s.structural
      → IsWellFormed D (process_events D normalize suffix L as_set es s).structural
  unfolding process_events
  process_events-IsWellFormed [] s h = h
  process_events-IsWellFormed ((e, parsed) ∷ es) s h =
      process_events-IsWellFormed es _ (process_event-IsWellFormed e parsed s h)

  -- From an index that was built, whatever files change and whatever the parser gives for each, failures
  -- included: each edge joins two different nodes, and each name belongs to a file that is a node.
  pub build-process_events-IsWellFormed :
      (files : List (String × List Tag)) (cache : Dict (List Tag)) (t : T)
      (es : List (FileEvent × Option Parsed))
      → IsWellFormed D
          (process_events D normalize suffix L as_set es (record {
            tag_cache = cache;
            structural = build D normalize suffix files;
            semantic = t;
          })).structural
  build-process_events-IsWellFormed files cache t es =
      process_events-IsWellFormed es _ (build-IsWellFormed D G-laws normalize suffix files)
