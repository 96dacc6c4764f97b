-- ===== src/CodeIntel/Extraction/Find.antt =====
-- extraction/semantic_extractor.py: what the search in the syntax tree finds.
use praecepta.Prelude.{
  ◌⊎◌, ℕ, String, ◌≡◌, refl, sym, subst, Bool, true, false, ◌||◌, List, [], ◌∷◌, Option, none, some,
  arith, str_eq, eq_iff, Bool-cases, inl, inr,
}
use praecepta.CodeIntel.Extraction.{
  Cst, node, Csts, leaf, branch, type_of, text_of, children_of, is_function, is_class, is_decorated,
  first_child, inner_definition, Place, search, search_children, is_match, definition_ancestors,
  get_parent_class, or_else, class_name, decorated_class, enclosing,
}

-- Whether a node of the tree is a match.
unfoldable mutual
  pub has_match : (name : String) → (line : ℕ) → Cst → Bool
  has_match name line (node t x s e cs) =
      is_match name line (node t x s e cs) || have_match name line cs

  pub have_match : (name : String) → (line : ℕ) → Csts → Bool
  have_match name line leaf = false
  have_match name line (branch c cs) = has_match name line c || have_match name line cs

-- what the search gives, where a match exists exactly when `found`
abbrev Finds : (name : String) → (line : ℕ) → (found : Bool) → Option Place → Type 0
Finds name line found none = found ≡ false
Finds name line found (some p) = (found ≡ true) × (is_match name line p.0 ≡ true)

Finds-or_else :
    (name : String) (line : ℕ) (f g : Bool) (o p : Option Place)
    → Finds name line f o
    → Finds name line g p
    → Finds name line (f || g) (or_else o p)
Finds-or_else name line f g none none h k = ground (arith, h, k)
Finds-or_else name line f g none (some p) h k = ground (arith, h, k)
Finds-or_else name line f g (some o) p h k = ground (arith, h)

mutual
  unfolding search search_children has_match have_match

  search-Finds :
      (name : String) (line : ℕ) (ancestors : List Cst) (n : Cst)
      → Finds name line (has_match name line n) (search name line ancestors n)
  search-Finds name line ancestors (node t x s e cs) =
      elim (Bool-cases (is_match name line (node t x s e cs))) [
        | inl m ↦ rw m (refl, m)
        | inr m ↦ rw m (search_children-Finds name line (node t x s e cs ∷ ancestors) cs)
      ]

  search_children-Finds :
      (name : String) (line : ℕ) (ancestors : List Cst) (cs : Csts)
      → Finds name line (have_match name line cs) (search_children name line ancestors cs)
  search_children-Finds name line ancestors leaf = refl
  search_children-Finds name line ancestors (branch c cs) =
      Finds-or_else name line (has_match name line c) (have_match name line cs) _ _
        (search-Finds name line ancestors c) (search_children-Finds name line ancestors cs)

-- The class that a decorated definition holds, if the definition is one.
decorated_class-inner :
    (cs : Csts) (d : Cst) (n : String)
    → inner_definition cs ≡ some d
    → is_class d ≡ true
    → class_name (some d) ≡ some n
    → decorated_class cs ≡ some n
unfolding inner_definition decorated_class
decorated_class-inner leaf d n h k m = cc
decorated_class-inner (branch c cs) d n h k m = elim (Bool-cases (is_function c || is_class c)) [
  | inl e ↦
      let same : c ≡ d = ground (arith, h, e) in
      let class : is_class c ≡ true = subst (λ b. is_class b ≡ true) (sym same) k in
      let named : class_name (some c) ≡ some n =
        subst (λ b. class_name (some b) ≡ some n) (sym same) m in
      rw (class, named) refl
  | inr e ↦
      let rest = decorated_class-inner cs d n (ground (arith, h, e)) k m in ground (arith, rest, e)
]

-- A decorated class counts as a member of itself: its own name is that of its parent class.
pub get_parent_class-decorated :
    (n d i : Cst) (ancestors : List Cst)
    → is_decorated n ≡ true
    → inner_definition (children_of n) ≡ some d
    → is_class d ≡ true
    → first_child "identifier" (children_of d) ≡ some i
    → get_parent_class (definition_ancestors (n, ancestors)) ≡ some (text_of i)
unfolding get_parent_class definition_ancestors enclosing class_name
get_parent_class-decorated n d i ancestors deco inner class ident =
    let named : class_name (some d) ≡ some (text_of i) = rw (ident, class_name) refl in
    let own = decorated_class-inner (children_of n) d (text_of i) inner class named in
    let no_class : is_class n ≡ false =
      subst (λ t. str_eq t "class_definition" ≡ false)
        (sym ((eq_iff (type_of n) "decorated_definition").0 deco)) refl in
    ground (arith, deco, inner, own, no_class)

-- The search returns a node that is a match, and it returns one exactly when the tree has a match.
pub search_lem :
    (name : String) (line : ℕ) (root : Cst)
    → ((has_match name line root ≡ false) × (search name line [] root ≡ none))
      ⊎ ((p : Place) × (search name line [] root ≡ some p)
          × (has_match name line root ≡ true)
          × (is_match name line p.0 ≡ true))
search_lem name line root =
    of_result _ (search name line [] root) refl (search-Finds name line [] root)
  where
    of_result :
        (found : Bool) (o : Option Place)
        → search name line [] root ≡ o
        → Finds name line found o
        → ((found ≡ false) × (search name line [] root ≡ none))
          ⊎ ((p : Place) × (search name line [] root ≡ some p)
              × (found ≡ true)
              × (is_match name line p.0 ≡ true))
    of_result found none e h = inl (h, e)
    of_result found (some p) e h = inr (p, e, h.0, h.1)
