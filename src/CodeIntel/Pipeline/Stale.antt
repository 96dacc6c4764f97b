-- ===== src/CodeIntel/Pipeline/Stale.antt =====
-- watcher/incremental_pipeline.py with extraction/semantic_extractor.py: the symbols of a deleted file.
use praecepta.Prelude.{
  ℕ, String, ◌≡◌, refl, ◌∙◌, Bool, true, false, not, ◌&&◌, ◌||◌, List, [], ◌∷◌, ◌++◌, Option, none,
  some, arith, eq_iff, ◌==◌,
}
use Prim.Native.Char.{code}
use praecepta.Text.{append}
use praecepta.Text.Membership.{mem}
use praecepta.Dict
use praecepta.Dict.{Dict}
use praecepta.CodeIntel.{Tag, SymbolSignature}
use praecepta.CodeIntel.DiGraph.{DiGraph}
use praecepta.CodeIntel.Structural.{definitions}
use praecepta.CodeIntel.Pipeline.{
  tag_names, symbol_names, SymbolTable, IsSymbolTable, State, created, deleted, upsert_symbols,
  remove_symbols, Parsed, handle_deleted, handle_created, process_event, process_events,
}
use praecepta.CodeIntel.Extraction.{
  Cst, Place, search, get_parent_class, definition_ancestors, get_definition_node,
}
use praecepta.CodeIntel.Extraction.Symbols.{
  qualify, symbol_at, symbol_of_kind, symbol_of, symbols_of, extract_symbols, kind_of, present,
}

-- Whether a full stop stands in the text.
unfoldable pub dotted : String → Bool
dotted String.[] = false
dotted (String.◌∷◌ c s) = code c == b'.' || dotted s

dotted-append : (s t : String) → dotted (append s t) ≡ (dotted s || dotted t)
unfolding dotted
dotted-append String.[] t = refl
dotted-append (String.◌∷◌ c s) t = ground (arith, dotted-append s t)

dotted-qualify :
    (module_name name : String) (parent : Option String)
    → dotted (qualify module_name name parent) ≡ true
unfolding qualify dotted
dotted-qualify m n none = ground (arith, dotted-append m (append "." n), dotted-append "." n)
dotted-qualify m n (some p) = ground (
  arith,
  dotted-append m (append "." (append p (append "." n))),
  dotted-append "." (append p (append "." n)),
)

-- No name of the list has a full stop, each has one.
unfoldable pub undotted : List String → Bool
undotted [] = true
undotted (n ∷ ns) = not (dotted n) && undotted ns

abbrev all_dotted : List String → Bool
all_dotted [] = true
all_dotted (n ∷ ns) = dotted n && all_dotted ns

mem-undotted :
    (q : String) (ns : List String) → undotted ns ≡ true → dotted q ≡ true → mem q ns ≡ false
unfolding undotted mem
mem-undotted q [] h k = refl
mem-undotted q (n ∷ ns) h k = ground (arith, mem-undotted q ns, eq_iff n q)

mem-all_dotted :
    (q : String) (ns : List String) → all_dotted ns ≡ true → mem q ns ≡ true → dotted q ≡ true
unfolding mem
mem-all_dotted q [] h k = cc
mem-all_dotted q (n ∷ ns) h k = ground (arith, mem-all_dotted q ns, eq_iff n q)

all_dotted-append :
    (xs ys : List SymbolSignature)
    → all_dotted (symbol_names xs) ≡ true
    → all_dotted (symbol_names ys) ≡ true
    → all_dotted (symbol_names (xs ++ ys)) ≡ true
all_dotted-append [] ys h k = k
all_dotted-append (x ∷ xs) ys h k = ground (arith, all_dotted-append xs ys)

module _ (file_path module_name detected_language : String) (now : ℕ) (estimate : String → ℕ) where
  symbol_of_kind-dotted :
      (tag : Tag) (d : Cst) (parent : Option String) (kind : Option String) (outer : Cst)
      → all_dotted (
          symbol_names (
            symbol_of_kind file_path module_name detected_language now estimate tag d parent kind
              outer))
        ≡ true
  unfolding symbol_of_kind symbol_at
  symbol_of_kind-dotted tag d parent none outer = refl
  symbol_of_kind-dotted tag d parent (some kind) outer =
      ground (arith, dotted-qualify module_name tag.name (present parent))

  symbol_of-dotted :
      (tag : Tag) (o : Option Place)
      → all_dotted
          (symbol_names (symbol_of file_path module_name detected_language now estimate tag o))
        ≡ true
  unfolding symbol_of
  symbol_of-dotted tag none = refl
  symbol_of-dotted tag (some (outer, ancestors)) =
      let parent = get_parent_class (definition_ancestors (outer, ancestors)) in
      let d = get_definition_node outer in
      symbol_of_kind-dotted tag d parent (kind_of d parent) outer

  symbols_of-dotted :
      (root : Cst) (tags : List Tag)
      → all_dotted
          (symbol_names (symbols_of file_path module_name detected_language now estimate root tags))
        ≡ true
  unfolding symbols_of
  symbols_of-dotted root [] = refl
  symbols_of-dotted root (tag ∷ tags) =
      all_dotted-append _ _ (symbol_of-dotted tag (search tag.name tag.line [] root))
        (symbols_of-dotted root tags)

  abbrev pub parsed_as : (tags : List Tag) → (root : Cst) → Parsed
  parsed_as tags root = record {
    tags = tags;
    symbols =
        λ ts. extract_symbols file_path module_name detected_language now estimate ts (some root);
  }

  module _ {G T : Type 0} (D : DiGraph G) (normalize suffix : String → String) (L : SymbolTable T)
      (laws : IsSymbolTable L) (as_set : List String → List String) where
    has_row-remove_symbols :
        (ns : List String) (t : T) (q : String)
        → mem q ns ≡ false
        → L.has_row (remove_symbols L ns t) q ≡ L.has_row t q
    unfolding remove_symbols
    has_row-remove_symbols [] t q h = refl
    has_row-remove_symbols (n ∷ ns) t q h = ground (arith, laws.has_row-delete t (n ∷ ns) q)

    has_row-upsert_symbols :
        (ss : List SymbolSignature) (t : T) (q : String)
        → mem q (symbol_names ss) ≡ true
        → L.has_row (upsert_symbols L ss t) q ≡ true
    unfolding upsert_symbols mem
    has_row-upsert_symbols [] t q h = cc
    has_row-upsert_symbols (s ∷ ss) t q h =
        ground (arith, laws.has_row-add (L.delete t (symbol_names (s ∷ ss))) (s ∷ ss) q)

    -- A file is created and then deleted: every symbol that its creation put into the semantic index is
    -- still there, since the names of its tags, which have no full stop, are no qualified names.
    pub deleted-has_row :
        (path : String) (tags : List Tag) (root : Cst) (s : State G T) (q : String)
        → undotted (tag_names (definitions tags)) ≡ true
        → mem q (
            symbol_names (
              extract_symbols file_path module_name detected_language now estimate tags
                (some root)))
          ≡ true
        → L.has_row
            (process_events D normalize suffix L as_set
              ((record { path = path; event_type = created }, some (parsed_as tags root))
                ∷ (record { path = path; event_type = deleted }, none)
                ∷ [])
              s).semantic
            q
          ≡ true
    unfolding process_events process_event handle_created handle_deleted extract_symbols
    deleted-has_row path tags root s q plain found =
        let ss =
          extract_symbols file_path module_name detected_language now estimate tags (some root) in
        let dot : dotted q ≡ true =
          mem-all_dotted q (symbol_names ss) (symbols_of-dotted root (definitions tags)) found in
        let cache = Dict.get-put_self s.tag_cache path tags in
        rw cache (
          has_row-remove_symbols (tag_names (definitions tags)) (upsert_symbols L ss s.semantic) q
            (mem-undotted q (tag_names (definitions tags)) plain dot)
          ∙ has_row-upsert_symbols ss s.semantic q found)
