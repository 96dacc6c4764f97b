-- ===== src/CodeIntel/Extraction/Tests.antt =====
-- semantic_extractor at a small tree: a decorated class with a method.
use praecepta.Prelude.{ℕ, String, ◌≡◌, refl, [], ◌∷◌, some}
use praecepta.CodeIntel.Extraction.{
  Cst, node, leaf, branch, children_of, first_child, inner_definition, or_self, search,
  search_children, is_match, names_it, get_definition_node, text_of, definition_ancestors,
  get_parent_class,
}
use praecepta.CodeIntel.Extraction.Find.{get_parent_class-decorated}
use praecepta.CodeIntel.Extraction.Symbols.{strip_string_quotes, first_paragraph, ends_with}
use praecepta.CodeIntel.Extraction.Symbols.{
  join, paragraph, stripped, lines_from, close_up, signature_text,
}
use praecepta.Text.{strip}

abbrev word : (type text : String) → (row : ℕ) → Cst
word type text row = node type text row row leaf

-- @dataclass
-- class Point:
abbrev point_name : Cst
point_name = word "identifier" "Point" 1

abbrev point_class : Cst
point_class =
    node "class_definition" "class Point: ..." 1 2
      (branch (word "class" "class" 1) (branch point_name (branch (word "block" "..." 2) leaf)))

abbrev decorated_point : Cst
decorated_point =
    node "decorated_definition" "@dataclass class Point: ..." 0 2
      (branch (word "decorator" "@dataclass" 0) (branch point_class leaf))

abbrev module_root : Cst
module_root = node "module" "" 0 2 (branch decorated_point leaf)

found : search "Point" 2 [] module_root ≡ some (decorated_point, module_root ∷ [])
unfolding search search_children is_match names_it get_definition_node or_self inner_definition
    first_child
found = refl

quotes : strip_string_quotes "\"\"\" A point. \"\"\"" ≡ "A point."
unfolding strip_string_quotes ends_with strip
quotes = refl

one_paragraph : first_paragraph "\n A point\n of two\n\nMore." ≡ "A point of two"
unfolding first_paragraph paragraph stripped lines_from join strip
one_paragraph = refl

closed_up : signature_text ("def" ∷ "f" ∷ "(x)" ∷ ":" ∷ []) ≡ "def f(x):"
unfolding signature_text join close_up
closed_up = refl

inner_point : inner_definition (children_of decorated_point) ≡ some point_class
unfolding inner_definition
inner_point = refl

named_point : first_child "identifier" (children_of point_class) ≡ some point_name
unfolding first_child
named_point = refl

get_parent_class-decorated_example :
    get_parent_class (definition_ancestors (decorated_point, module_root ∷ []))
    ≡ some (text_of point_name)
get_parent_class-decorated_example =
    get_parent_class-decorated decorated_point point_class point_name (module_root ∷ []) refl
      inner_point refl named_point
