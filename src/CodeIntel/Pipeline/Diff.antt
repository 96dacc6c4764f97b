-- ===== src/CodeIntel/Pipeline/Diff.antt =====
-- watcher/incremental_pipeline.py: what `diff_tags` tells apart.
use praecepta.Prelude.{
  String, ◌≡◌, refl, ◌∙◌, Bool, not, ◌&&◌, List, [], ◌∷◌, Option, none, some, arith, str_eq, eq_iff,
  if◌then◌else◌, Option-cases, Bool-cases, inl, inr,
}
use praecepta.Text.Membership.{ListsSet, mem, is_some}
use praecepta.Dict
use praecepta.Dict.{Dict}
use praecepta.CodeIntel.{Tag}
use praecepta.CodeIntel.Structural.{definitions}
use praecepta.CodeIntel.Pipeline.{tag_names, by_name, keys, pick, moved, diff_tags}

abbrev pub has_name : String → List Tag → Bool
has_name n ts = mem n (tag_names ts)

-- The last tag of a list with a name.
unfoldable pub last_named : List Tag → String → Option Tag
last_named [] n = none
last_named (t ∷ ts) n = Dict.or_old (last_named ts n) (if str_eq t.name n then some t else none)

get-by_name :
    (ts : List Tag) (d : Dict Tag) (n : String)
    → Dict.get (by_name ts d) n ≡ Dict.or_old (last_named ts n) (Dict.get d n)
unfolding by_name last_named
get-by_name [] d n = refl
get-by_name (t ∷ ts) d n =
    ground
      (arith, get-by_name ts (Dict.put d t.name t) n, Dict.get-put d t.name t n, last_named ts n)

-- Each name of the dict leads to a tag with that name.
abbrev Named : Dict Tag → Type 0
Named d = (k : String) (t : Tag) → Dict.get d k ≡ some t → t.name ≡ k

by_name-Named : (ts : List Tag) (d : Dict Tag) → Named d → Named (by_name ts d)
unfolding by_name
by_name-Named [] d h = h
by_name-Named (t ∷ ts) d h =
    by_name-Named ts (Dict.put d t.name t)
      (λ k u e. ground (arith, Dict.get-put d t.name t k, h k u, eq_iff t.name k))

mem-keys : (d : Dict Tag) (n : String) → mem n (keys d) ≡ is_some (Dict.get d n)
unfolding Dict.get mem
mem-keys [] n = refl
mem-keys ((k, t) ∷ d) n = ground (arith, mem-keys d n)

mem-pick :
    (keep : String → Bool) (d : Dict Tag) (ns : List String) (n : String)
    → Named d
    → mem n (tag_names (pick keep d ns)) ≡ (mem n ns && keep n && is_some (Dict.get d n))
unfolding pick mem
mem-pick keep d [] n named = refl
mem-pick keep d (m ∷ ns) n named = elim (Option-cases (Dict.get d m)) [
  | inl e ↦ ground (arith, mem-pick keep d ns n named, eq_iff m n, e)
  | inr (t, e) ↦
      ground (arith, mem-pick keep d ns n named, eq_iff m n, e, named m t e, Bool-cases (keep m))
]

or_none : (o : Option Tag) → Dict.or_old o none ≡ o
or_none none = refl
or_none (some t) = refl

-- A name is added if it is defined only after, removed if it is defined only before, and modified if the
-- last tags that define it before and after are on different lines; the order of sets does not matter.
pub diff_tags_lem :
    (as_set : List String → List String)
    → ListsSet as_set
    → (old new : List Tag) (n : String)
    → (has_name n (diff_tags as_set old new).0 ≡ (
        not (is_some (last_named (definitions old) n)) && is_some (last_named (definitions new) n)))
      × (has_name n (diff_tags as_set old new).1 ≡ (
          is_some (last_named (definitions old) n)
          && not (is_some (last_named (definitions new) n))))
      × (has_name n (diff_tags as_set old new).2
          ≡ moved (last_named (definitions old) n) (last_named (definitions new) n))
unfolding diff_tags Dict.get
diff_tags_lem as_set set old new n =
    let d = by_name (definitions old) [] in
    let e = by_name (definitions new) [] in
    let empty : Named [] = λ k t h. cc (h, Dict.get-nil {V = Tag} k) in
    let dn = by_name-Named (definitions old) [] empty in
    let en = by_name-Named (definitions new) [] empty in
    let dg = get-by_name (definitions old) [] n ∙ or_none (last_named (definitions old) n) in
    let eg = get-by_name (definitions new) [] n ∙ or_none (last_named (definitions new) n) in
    (
      ground (
        arith,
        mem-pick (λ m. not (is_some (Dict.get d m))) e (as_set (keys e)) n en,
        set.same (keys e) n,
        mem-keys e n,
        dg,
        eg,
      ),
      ground (
        arith,
        mem-pick (λ m. not (is_some (Dict.get e m))) d (as_set (keys d)) n dn,
        set.same (keys d) n,
        mem-keys d n,
        dg,
        eg,
      ),
      ground (
        arith,
        mem-pick (λ m. moved (Dict.get d m) (Dict.get e m)) e (as_set (keys d)) n en,
        set.same (keys d) n,
        mem-keys d n,
        dg,
        eg,
      ),
    )
