-- ===== src/CodeIntel/Structural/Tests.antt =====
-- structural_index at concrete inputs, with a graph of two lists.
use praecepta.Prelude.{
  ℕ, ◌+◌, ◌-◌, String, ◌≡◌, refl, subst, true, false, List, [], ◌∷◌, Option, none, some, arith,
  str_eq, eq_iff, if◌then◌else◌, Bool-cases, inl, inr, length, ltb, ◌==◌,
}
use praecepta.Text.Membership.{mem}
use praecepta.Dict
use praecepta.Dict.{Dict}
use praecepta.CodeIntel.{Tag, definition, reference}
use praecepta.CodeIntel.Listed.{Listed, lists, lists-IsDiGraph, node_names, find_edge, same, tag}
use praecepta.CodeIntel.DiGraph.{has_node}
use praecepta.CodeIntel.Structural.{
  definitions, references, register, Index, counted, node_of, link_to, link, add_files, add_links,
  build, update_file,
}
use praecepta.CodeIntel.Structural.Owners.{defines, owner, without, owned}
use praecepta.CodeIntel.Structural.Kept.{build-IsWellFormed}
use praecepta.CodeIntel.Structural.References.{weight, uses, uses_of}
use praecepta.CodeIntel.Structural.Incremental.{build_lem, update_file_lem}
use praecepta.CodeIntel.Structural.Rebuild.{update_file-build, occurs}
use praecepta.CodeIntel.Structural.Traversal.{both, Pairs, get_dependencies}
use praecepta.CodeIntel.Scores.{Scores}
use praecepta.CodeIntel.Structural.Ranked.{valid}
use praecepta.CodeIntel.Structural.Traversal.Sound.{AllTouched}
use praecepta.CodeIntel.Structural.Traversal.Complete.{get_dependencies-exact, HasAll}

abbrev user_tags : List Tag
user_tags = tag "User" definition ∷ tag "Base" reference ∷ tag "Base" reference ∷ []

abbrev app_tags : List Tag
app_tags = tag "main" definition ∷ tag "User" reference ∷ []

abbrev base_tags : List Tag
base_tags = tag "Base" definition ∷ []

abbrev repo : List (String × List Tag)
repo = ("base.py", base_tags) ∷ ("user.py", user_tags) ∷ ("app.py", app_tags) ∷ []

abbrev index : Index Listed
index = build lists same same repo

references_counted : weight (lists.edge index.graph "user.py" "base.py") ≡ 2
unfolding build add_files add_links link link_to counted node_of references definitions register
    find_edge Dict.get Dict.put
references_counted = refl

build_lem_example :
    (Dict.get index.definition_index "User" ≡ owner same repo "User")
    × (weight (lists.edge index.graph "user.py" "base.py")
        ≡ uses_of (owner same repo) same "user.py" "base.py" repo)
build_lem_example = build_lem lists lists-IsDiGraph same same repo "User" "user.py" "base.py"

update_file_lem_example :
    (Dict.get (update_file lists same same "user.py" app_tags index).definition_index "main" ≡ (
      if defines app_tags "main"
      then some "user.py"
      else without "user.py" (Dict.get index.definition_index "main")))
    × (weight (
          lists.edge
            (update_file lists same same "user.py" app_tags index).graph
            "app.py"
            "user.py")
        ≡ (if str_eq "user.py" "app.py"
            then uses
                (Dict.get (update_file lists same same "user.py" app_tags index).definition_index)
                "app.py"
                "user.py"
                app_tags
            else weight (lists.edge index.graph "app.py" "user.py")))
update_file_lem_example =
    update_file_lem lists lists-IsDiGraph same same "user.py" app_tags index
      (build-IsWellFormed lists lists-IsDiGraph same same repo) "main" "app.py" "user.py"

user_known : has_node lists index.graph "user.py" ≡ true
unfolding build add_files add_links link link_to counted node_of references definitions register
    node_names Dict.get Dict.put mem
user_known = refl

get_dependencies-exact_example :
    (es : Pairs) × (get_dependencies lists same index.graph both "user.py" 1 ≡ some es)
    × AllTouched lists index.graph both "user.py" 1 es
    × HasAll lists index.graph both "user.py" 1 es
get_dependencies-exact_example =
    get_dependencies-exact lists same index.graph both "user.py" lists-IsDiGraph
      (build-IsWellFormed lists lists-IsDiGraph same same repo).ends user_known 1

-- The new tags of user.py define the name that it owned, and refer to another one.
abbrev edited : List Tag
edited = tag "User" definition ∷ tag "main" reference ∷ []

owned_before : (n : String) → defines edited n ≡ owned (owner same repo n) "user.py"
unfolding defines owner
owned_before n = elim (Bool-cases (str_eq "User" n)) [
  | inl e ↦
      subst (λ m. defines edited m ≡ owned (owner same repo m) "user.py") ((eq_iff "User" n).0 e)
        refl
  | inr e ↦ elim (Bool-cases (str_eq "main" n)) [
    | inl f ↦ ground (arith, e, f)
    | inr f ↦ ground (arith, e, f)
  ]
]

absent_before : occurs same "user.py" (("base.py", base_tags) ∷ []) ≡ false
unfolding occurs
absent_before = refl

absent_after : occurs same "user.py" (("app.py", app_tags) ∷ []) ≡ false
unfolding occurs
absent_after = refl

update_file-build_example :
    (Dict.get (update_file lists same same "user.py" edited index).definition_index "User"
      ≡ Dict.get
          (build lists same same (
            ("base.py", base_tags)
            ∷ ("user.py", edited)
            ∷ ("app.py", app_tags)
            ∷ [])).definition_index
          "User")
    × (weight
          (lists.edge (update_file lists same same "user.py" edited index).graph "user.py" "app.py")
        ≡ weight (
            lists.edge
              (build lists same same
                (("base.py", base_tags) ∷ ("user.py", edited) ∷ ("app.py", app_tags) ∷ [])).graph
              "user.py"
              "app.py"))
update_file-build_example =
    update_file-build lists lists-IsDiGraph same same (("base.py", base_tags) ∷ [])
      (("app.py", app_tags) ∷ []) "user.py" user_tags edited absent_before absent_after owned_before
      "User" "user.py" "app.py"

abbrev ranks : Listed → Option (Dict ℕ) → Dict ℕ
ranks g none = ("user.py", 9) ∷ ("base.py", 4) ∷ []
ranks g (some d) = d

abbrev counts : Scores ℕ
counts = record {
  tenths = λ n. n;
  add = λ a b. a + b;
  sub = λ a b. a - b;
  mul = λ a b. a;
  div = λ a b. a;
  lt = ltb;
  eq = ◌==◌;
}

abbrev two_files : Listed
two_files = record {
  node_list =
      ("user.py", record { symbol_count = 1; language = "python" })
      ∷ ("base.py", record { symbol_count = 1; language = "python" })
      ∷ [];
  edge_list = [];
}

not_empty : (length (lists.nodes two_files) == 0) ≡ false
unfolding node_names
not_empty = refl

base_valid :
    valid counts lists ranks two_files (("gone.py", 3) ∷ ("base.py", 8) ∷ []) ≡ ("base.py", 8) ∷ []
unfolding valid node_names mem
base_valid = refl
