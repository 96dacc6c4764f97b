-- ===== src/CodeIntel/Pipeline/Tests.antt =====
-- incremental_pipeline at concrete inputs, with a table of names.
use praecepta.Prelude.{
  String, ◌≡◌, refl, true, not, ◌&&◌, List, [], ◌∷◌, ◌++◌, none, some, arith, eq_iff, if◌then◌else◌,
}
use praecepta.Text.{len}
use praecepta.Text.Membership.{mem, is_some, mem-append}
use praecepta.CodeIntel.{Tag, definition}
use praecepta.CodeIntel.Structural.{definitions, build}
use praecepta.CodeIntel.Pipeline.{
  tag_names, symbol_names, SymbolTable, IsSymbolTable, moved, diff_tags, created, modified, deleted,
  Parsed, process_events,
}
use praecepta.CodeIntel.Listed.{dedupe, dedupe-ListsSet, lists, lists-IsDiGraph, same, tag}
use praecepta.CodeIntel.Structural.WellFormed.{IsWellFormed}
use praecepta.CodeIntel.Pipeline.Diff.{has_name, last_named, diff_tags_lem}
use praecepta.CodeIntel.Pipeline.Indexed.{build-process_events-IsWellFormed}
use praecepta.CodeIntel.Pipeline.Stale.{undotted, dotted, deleted-has_row, parsed_as}
use praecepta.CodeIntel.Extraction.{
  Cst, node, leaf, branch, search, search_children, is_match, names_it, get_definition_node,
  or_self, inner_definition, first_child, get_parent_class, definition_ancestors, enclosing,
  class_name,
}
use praecepta.CodeIntel.Extraction.Symbols.{
  extract_symbols, symbols_of, symbol_of, symbol_of_kind, symbol_at, kind_of, qualify,
}

-- The rows of the table by their qualified names alone.
unfoldable without_names : List String → List String → List String
without_names ns [] = []
without_names ns (x ∷ xs) = let rest = without_names ns xs in if mem x ns then rest else x ∷ rest

abbrev rows : SymbolTable (List String)
rows = record {
  has_row = λ t n. mem n t;
  delete = λ t ns. without_names ns t;
  add = λ t ss. symbol_names ss ++ t;
}

mem-without_names :
    (ns xs : List String) (n : String) → mem n (without_names ns xs) ≡ (not (mem n ns) && mem n xs)
unfolding without_names mem
mem-without_names ns [] n = ground arith
mem-without_names ns (x ∷ xs) n = ground (arith, mem-without_names ns xs n, eq_iff x n)

rows-IsSymbolTable : IsSymbolTable rows
rows-IsSymbolTable = record {
  has_row-delete = λ t ns n. mem-without_names ns t n;
  has_row-add = λ t ss n. mem-append n (symbol_names ss) t;
}

abbrev before : List Tag
before = tag "run" definition ∷ tag "stop" definition ∷ []

abbrev after : List Tag
after = record (tag "run" definition) { line = 4 } ∷ tag "help" definition ∷ []

diff_tags_lem_example :
    (has_name "run" (diff_tags dedupe before after).0 ≡ (
      not (is_some (last_named (definitions before) "run"))
      && is_some (last_named (definitions after) "run")))
    × (has_name "run" (diff_tags dedupe before after).1 ≡ (
        is_some (last_named (definitions before) "run")
        && not (is_some (last_named (definitions after) "run"))))
    × (has_name "run" (diff_tags dedupe before after).2
        ≡ moved (last_named (definitions before) "run") (last_named (definitions after) "run"))
diff_tags_lem_example = diff_tags_lem dedupe dedupe-ListsSet before after "run"

-- def run
abbrev run_root : Cst
run_root = node "module" "" 0 0 (
    branch
      (node "function_definition" "def run" 0 0
        (branch (node "def" "def" 0 0 leaf) (branch (node "identifier" "run" 0 0 leaf) leaf)))
      leaf)

abbrev run_tags : List Tag
run_tags = tag "run" definition ∷ []

abbrev run_parsed : Parsed
run_parsed = parsed_as "app.py" "app" "python" 0 len run_tags run_root

build-process_events-IsWellFormed_example :
    IsWellFormed lists
      (process_events lists same same rows dedupe
        ((record { path = "app.py"; event_type = created }, some run_parsed)
          ∷ (record { path = "old.py"; event_type = modified }, none)
          ∷ (record { path = "app.py"; event_type = deleted }, none)
          ∷ [])
        (record {
          tag_cache = [];
          structural = build lists same same (("old.py", before) ∷ []);
          semantic = [];
        })).structural
build-process_events-IsWellFormed_example =
    build-process_events-IsWellFormed lists lists-IsDiGraph same same rows dedupe
      (("old.py", before) ∷ []) [] []
      ((record { path = "app.py"; event_type = created }, some run_parsed)
        ∷ (record { path = "old.py"; event_type = modified }, none)
        ∷ (record { path = "app.py"; event_type = deleted }, none)
        ∷ [])

plain : undotted (tag_names (definitions run_tags)) ≡ true
unfolding undotted dotted definitions
plain = refl

extracted :
    mem "app.run"
      (symbol_names (extract_symbols "app.py" "app" "python" 0 len run_tags (some run_root)))
    ≡ true
unfolding extract_symbols symbols_of symbol_of symbol_of_kind symbol_at kind_of qualify search
    search_children is_match names_it get_definition_node or_self inner_definition first_child
    get_parent_class definition_ancestors enclosing class_name definitions mem
extracted = refl

deleted-has_row_example :
    rows.has_row
      (process_events lists same same rows dedupe
        ((record { path = "app.py"; event_type = created }, some run_parsed)
          ∷ (record { path = "app.py"; event_type = deleted }, none)
          ∷ [])
        (record { tag_cache = []; structural = build lists same same []; semantic = [] })).semantic
      "app.run"
    ≡ true
deleted-has_row_example =
    deleted-has_row "app.py" "app" "python" 0 len lists same same rows rows-IsSymbolTable dedupe
      "app.py" run_tags run_root
      (record { tag_cache = []; structural = build lists same same []; semantic = [] }) "app.run"
      plain extracted
