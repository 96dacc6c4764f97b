-- ===== src/CodeIntel/Extraction.antt =====
-- extraction/semantic_extractor.py (packages/infra-codeintel): the symbols that definition tags name, read
-- from the syntax tree. A node of tree-sitter is its type, its text, its rows and its children.
pub mod Find
pub mod Symbols
pub mod Relationships
mod Tests
use praecepta.Prelude.{
  ℕ, zero, suc, ◌+◌, ◌-◌, String, ◌≡◌, Bool, true, false, not, ◌&&◌, ◌||◌, List, [], ◌∷◌, ◌++◌,
  Option, none, some, str_eq, if◌then◌else◌, ◌==◌, ltb,
}
use Prim.Native.Char.{code}
use praecepta.Text.{truthy, append, starts_with, strip, len, take, drop}
use praecepta.CodeIntel.{Tag, TagKind, definition, reference, SymbolSignature}
use praecepta.CodeIntel.Structural.{definitions}

mutual
  pub data Cst : Type 0 where
    node : (type text : String) → (start_row end_row : ℕ) → (children : Csts) → Cst

  pub data Csts : Type 0 where
    leaf : Csts
    branch : Cst → Csts → Csts

abbrev pub type_of : Cst → String
type_of (node t x s e cs) = t

abbrev pub text_of : Cst → String
text_of (node t x s e cs) = x

abbrev pub start_of : Cst → ℕ
start_of (node t x s e cs) = s

abbrev pub end_of : Cst → ℕ
end_of (node t x s e cs) = e

abbrev pub children_of : Cst → Csts
children_of (node t x s e cs) = cs

-- the first child of a type
unfoldable pub first_child : (type : String) → Csts → Option Cst
first_child type leaf = none
first_child type (branch c cs) = if str_eq (type_of c) type then some c else first_child type cs

abbrev pub is_function : Cst → Bool
is_function n = str_eq (type_of n) "function_definition"

abbrev pub is_class : Cst → Bool
is_class n = str_eq (type_of n) "class_definition"

abbrev pub is_decorated : Cst → Bool
is_decorated n = str_eq (type_of n) "decorated_definition"

unfoldable pub inner_definition : Csts → Option Cst
inner_definition leaf = none
inner_definition (branch c cs) = if is_function c || is_class c then some c else inner_definition cs

-- `_get_definition_node`
unfoldable pub or_self : Cst → Option Cst → Cst
or_self n none = n
or_self n (some d) = d

unfoldable pub get_definition_node : Cst → Cst
get_definition_node n = if is_decorated n then or_self n (inner_definition (children_of n)) else n

-- The identifier is the name, and stands on the line; `line` counts from 1, rows from 0.
unfoldable pub names_it : (name : String) → (line : ℕ) → Option Cst → Bool
names_it name line none = false
names_it name line (some c) = str_eq (text_of c) name && start_of c + 1 == line

-- the test of `_search` on one node
unfoldable pub is_match : (name : String) → (line : ℕ) → Cst → Bool
is_match name line n =
    (is_function n || is_class n || is_decorated n)
    && names_it name line (first_child "identifier" (children_of (get_definition_node n)))

-- A node with its ancestors, the nearest first, which `node.parent` leads to.
abbrev pub Place : Type 0
Place = Cst × List Cst

abbrev pub or_else {ℓ} : {A : Type ℓ} → Option A → Option A → Option A
or_else none other = other
or_else (some a) other = some a

-- `_find_definition_node`: the node itself, or else the first of its children that has one
unfoldable mutual
  pub search : (name : String) → (line : ℕ) → (ancestors : List Cst) → Cst → Option Place
  search name line ancestors (node t x s e cs) =
      let below = search_children name line (node t x s e cs ∷ ancestors) cs in
      if is_match name line (node t x s e cs) then some (node t x s e cs, ancestors) else below

  pub search_children : (name : String) → (line : ℕ) → (ancestors : List Cst) → Csts → Option Place
  search_children name line ancestors leaf = none
  search_children name line ancestors (branch c cs) =
      or_else (search name line ancestors c) (search_children name line ancestors cs)

-- `_get_parent_class`: the name of the class that an ancestor is or decorates
unfoldable pub class_name : Option Cst → Option String
class_name none = none
class_name (some c) = elim (first_child "identifier" (children_of c)) [
  | none ↦ none
  | some i ↦ some (text_of i)
]

-- the children of a decorated definition: each class in turn, until one has an identifier
unfoldable pub decorated_class : Csts → Option String
decorated_class leaf = none
decorated_class (branch c cs) =
    or_else (if is_class c then class_name (some c) else none) (decorated_class cs)

unfoldable pub enclosing : Cst → Option String
enclosing n =
    or_else (if is_class n then class_name (some n) else none)
      (if is_decorated n then decorated_class (children_of n) else none)

unfoldable pub get_parent_class : List Cst → Option String
get_parent_class [] = none
get_parent_class (n ∷ ancestors) = or_else (enclosing n) (get_parent_class ancestors)

-- the ancestors of the definition inside a place
unfoldable pub definition_ancestors : Place → List Cst
definition_ancestors (n, ancestors) =
    if is_decorated n
    then elim (inner_definition (children_of n)) [ none ↦ ancestors | some d ↦ n ∷ ancestors ]
    else ancestors

-- `_get_decorators`
unfoldable pub decorators : Csts → List String
decorators leaf = []
decorators (branch c cs) =
    let rest = decorators cs in if str_eq (type_of c) "decorator" then text_of c ∷ rest else rest

unfoldable pub get_decorators : Cst → List String
get_decorators n = if is_decorated n then decorators (children_of n) else []
