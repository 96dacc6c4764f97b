-- ===== src/CodeIntel/Structural/Rebuild.antt =====
-- index/structural_index.py: an update against an index that is built anew.
use praecepta.Prelude.{
  ◌+◌, String, ◌≡◌, refl, sym, ap, ◌∙◌, Bool, false, ◌||◌, List, [], ◌∷◌, ◌++◌, Option, none, some,
  arith, str_eq, eq_iff, eq_refl, if◌then◌else◌,
}
use mathlib.Core.Path.{fun_ext}
use praecepta.Dict
use praecepta.Dict.{Dict}
use praecepta.CodeIntel.{Tag}
use praecepta.CodeIntel.DiGraph.{DiGraph, IsDiGraph}
use praecepta.CodeIntel.Structural.{build, update_file}
use praecepta.CodeIntel.Structural.Owners.{defines, owner, without, owned}
use praecepta.CodeIntel.Structural.Kept.{build-IsWellFormed}
use praecepta.CodeIntel.Structural.References.{weight, uses, uses_of}
use praecepta.CodeIntel.Structural.Incremental.{build_lem, update_file_lem}

abbrev pub Files : Type 0
Files = List (String × List Tag)

-- Whether a path of the list is `fp` once normalized.
unfoldable pub occurs : (normalize : String → String) → (fp : String) → Files → Bool
occurs normalize fp [] = false
occurs normalize fp ((path, tags) ∷ files) = str_eq (normalize path) fp || occurs normalize fp files

module _ (normalize : String → String) where
  owner-append :
      (xs ys : Files) (n : String)
      → owner normalize (xs ++ ys) n ≡ Dict.or_old (owner normalize ys n) (owner normalize xs n)
  unfolding owner
  owner-append [] ys n = ground (arith, owner normalize ys n)
  owner-append ((path, tags) ∷ xs) ys n =
      ground (arith, owner-append xs ys n, owner normalize ys n, owner normalize xs n)

  owned-owner :
      (fp : String) (files : Files) (n : String)
      → occurs normalize fp files ≡ false
      → owned (owner normalize files n) fp ≡ false
  unfolding owner occurs
  owned-owner fp [] n h = refl
  owned-owner fp ((path, tags) ∷ files) n h =
      ground (arith, owned-owner fp files n, owner normalize files n)

  uses_of-append :
      (o : String → Option String) (a b : String) (xs ys : Files)
      → uses_of o normalize a b (xs ++ ys) ≡ uses_of o normalize a b xs + uses_of o normalize a b ys
  unfolding uses_of
  uses_of-append o a b [] ys = omega arith
  uses_of-append o a b ((path, tags) ∷ xs) ys = omega (arith, uses_of-append o a b xs ys)

  uses_of-absent :
      (o : String → Option String) (a b : String) (files : Files)
      → occurs normalize a files ≡ false
      → uses_of o normalize a b files ≡ 0
  unfolding uses_of occurs
  uses_of-absent o a b [] h = refl
  uses_of-absent o a b ((path, tags) ∷ files) h = ground (arith, uses_of-absent o a b files)

  -- What a file's new tags define, where it defines the names that it owned before and no others.
  owner-keep :
      (pre post : Files) (path : String) (old new : List Tag) (n : String)
      → occurs normalize (normalize path) pre ≡ false
      → occurs normalize (normalize path) post ≡ false
      → defines new n ≡ owned (owner normalize (pre ++ (path, old) ∷ post) n) (normalize path)
      → owner normalize (pre ++ (path, new) ∷ post) n
        ≡ owner normalize (pre ++ (path, old) ∷ post) n
  unfolding owner
  owner-keep pre post path old new n hp hq k = ground (
    arith,
    owner-append pre ((path, old) ∷ post) n,
    owner-append pre ((path, new) ∷ post) n,
    owned-owner (normalize path) pre n,
    owned-owner (normalize path) post n,
    owner normalize pre n,
    owner normalize post n,
    eq_refl (normalize path),
  )

  owner-update :
      (o : Option String) (b : Bool) (fp : String)
      → b ≡ owned o fp
      → (if b then some fp else without fp o) ≡ o
  owner-update none b fp h = ground arith
  owner-update (some w) b fp h = ground (arith, eq_iff w fp)

  uses_of-replace :
      (o : String → Option String) (a b : String) (pre post : Files) (path : String)
      (old new : List Tag)
      → occurs normalize (normalize path) pre ≡ false
      → occurs normalize (normalize path) post ≡ false
      → uses_of o normalize a b (pre ++ (path, new) ∷ post) ≡ (
          if str_eq (normalize path) a
          then uses o a b new
          else uses_of o normalize a b (pre ++ (path, old) ∷ post))
  unfolding uses_of
  uses_of-replace o a b pre post path old new hp hq = ground (
    arith,
    uses_of-append o a b pre ((path, new) ∷ post),
    uses_of-append o a b pre ((path, old) ∷ post),
    eq_iff (normalize path) a,
    uses_of-absent o a b pre,
    uses_of-absent o a b post,
  )

module _ {G : Type 0} (D : DiGraph G) (L : IsDiGraph D) (normalize suffix : String → String)
    (pre post : Files) (path : String) (old new : List Tag) where
  -- An update in place of a rebuild: where no other path is the same file, and the new tags define
  -- exactly the names that the file owned, the updated index gives each name the same file and each edge
  -- the same number of references as an index built from all the tags with the new ones.
  pub update_file-build :
      (occurs normalize (normalize path) pre ≡ false)
      → (occurs normalize (normalize path) post ≡ false)
      → ((n : String)
          → defines new n ≡ owned (owner normalize (pre ++ (path, old) ∷ post) n) (normalize path))
      → (n a b : String)
      → (Dict.get
            (update_file D normalize suffix path new
              (build D normalize suffix (pre ++ (path, old) ∷ post))).definition_index
            n
          ≡ Dict.get (build D normalize suffix (pre ++ (path, new) ∷ post)).definition_index n)
        × (weight (
              D.edge
                (update_file D normalize suffix path new
                  (build D normalize suffix (pre ++ (path, old) ∷ post))).graph
                a
                b)
            ≡ weight (D.edge (build D normalize suffix (pre ++ (path, new) ∷ post)).graph a b))
  update_file-build hp hq keep n a b =
      let before = pre ++ (path, old) ∷ post in
      let after = pre ++ (path, new) ∷ post in
      let i = build D normalize suffix before in
      let w = build-IsWellFormed D L normalize suffix before in
      let o = owner normalize before in
      let lem = update_file_lem D L normalize suffix path new i w in
      let was = build_lem D L normalize suffix before in
      let is = build_lem D L normalize suffix after in
      let kept : owner normalize after ≡ o =
        fun_ext (λ m. owner-keep normalize pre post path old new m hp hq (keep m)) in
      let index : Dict.get (update_file D normalize suffix path new i).definition_index ≡ o =
        fun_ext (λ m.
          (lem m a b).0
          ∙ ap
              (λ (v : Option String).
                if defines new m then some (normalize path) else without (normalize path) v)
              (was m a b).0
          ∙ owner-update normalize (o m) (defines new m) (normalize path) (keep m)) in
      (
        ap (λ (f : String → Option String). f n) index
            ∙ sym (ap (λ (f : String → Option String). f n) kept)
            ∙ sym (is n a b).0,
        ground (
          arith,
          (lem n a b).1,
          (was n a b).1,
          (is n a b).1,
          ap (λ (f : String → Option String). uses f a b new) index,
          ap (λ (f : String → Option String). uses_of f normalize a b after) kept,
          uses_of-replace normalize o a b pre post path old new hp hq,
        ),
      )
