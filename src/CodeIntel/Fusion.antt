-- ===== src/CodeIntel/Fusion.antt =====
-- assembly/ranking.py (packages/infra-codeintel): the fusion of the structural and the semantic results.
use praecepta.Prelude.{
  String, ◌≡◌, refl, ap, ◌∙◌, Bool, true, not, ◌&&◌, ◌||◌, List, [], ◌∷◌, ◌++◌, Option, none, some,
  arith, str_eq, eq_iff, if◌then◌else◌,
}
use praecepta.Text.Membership.{ListsSet, mem, distinct, mem-append}
use praecepta.Dict
use praecepta.Dict.{Dict}
use praecepta.CodeIntel.{QueryIntent, understand, modify, navigate, generate}
use praecepta.CodeIntel.Scores.{
  Scores, IsAsymmetric, names, place, sorted, descending, descending-sorted, mem-sorted,
  distinct-sorted,
}

module _ {S : Type 0} (F : Scores S) where
  -- INTENT_WEIGHTS: (semantic_weight, structural_weight)
  unfoldable pub intent_weights : QueryIntent → S × S
  intent_weights understand = (F.tenths 5, F.tenths 5)
  intent_weights modify = (F.tenths 3, F.tenths 7)
  intent_weights navigate = (F.tenths 2, F.tenths 8)
  intent_weights generate = (F.tenths 7, F.tenths 3)

  -- `max(score for _, score in results)` and `min(...)`, past the first result
  unfoldable pub highest : S → Dict S → S
  highest best [] = best
  highest best ((k, x) ∷ d) = highest (if F.lt best x then x else best) d

  unfoldable pub lowest : S → Dict S → S
  lowest best [] = best
  lowest best ((k, x) ∷ d) = lowest (if F.lt x best then x else best) d

  -- `{name: f(score) for name, score in results}`
  unfoldable pub comprehension : (S → S) → Dict S → Dict S → Dict S
  comprehension f [] out = out
  comprehension f ((k, x) ∷ d) out = comprehension f d (Dict.put out k (f x))

  unfoldable pub normalize_score : (range_ min_score : S) → S → S
  normalize_score range_ min_score x =
      if F.eq range_ (F.tenths 0) then F.tenths 10 else F.div (F.sub x min_score) range_

  unfoldable pub normalize : Dict S → Dict S
  normalize [] = []
  normalize ((k, x) ∷ d) =
      let max_score = highest x d in
      let min_score = lowest x d in
      comprehension (normalize_score (F.sub max_score min_score) min_score) ((k, x) ∷ d) []

  abbrev pub or_default : S → Option S → S
  or_default x none = x
  or_default x (some y) = y

  -- `if name in structural_names and name in semantic_names: score *= BOTH_SET_BOOST`
  unfoldable pub boost : (structural semantic : Option S) → S → S
  boost none semantic score = score
  boost (some s) none score = score
  boost (some s) (some e) score = F.mul score (F.tenths 12)

  -- the score of one name
  unfoldable pub fused_score : (sem_w struct_w : S) → (structural semantic : Option S) → S
  fused_score sem_w struct_w structural semantic =
      let score =
        F.add (F.mul (or_default (F.tenths 0) structural) struct_w)
          (F.mul (or_default (F.tenths 0) semantic) sem_w) in
      let boosted = boost structural semantic score in
      if F.lt (F.tenths 10) boosted then F.tenths 10 else boosted

  -- `for name in all_names: ...`, `fused` being filled
  unfoldable pub fuse_names :
      (sem_w struct_w : S) → (norm_structural norm_semantic : Dict S) → List String → Dict S
  fuse_names sem_w struct_w norm_structural norm_semantic [] = []
  fuse_names sem_w struct_w norm_structural norm_semantic (n ∷ ns) =
      (n, fused_score sem_w struct_w (Dict.get norm_structural n) (Dict.get norm_semantic n))
      ∷ fuse_names sem_w struct_w norm_structural norm_semantic ns

  -- `as_set xs` lists the set of the texts in `xs`, in the order in which Python iterates over it.
  unfoldable pub fuse_rankings :
      (as_set : List String → List String)
      → (structural_results semantic_results : Dict S) → QueryIntent
      → (structural_weight semantic_weight : Option S) → Dict S
  fuse_rankings as_set structural_results semantic_results intent structural_weight
        semantic_weight =
      let (sem_w, struct_w) = intent_weights intent in
      let norm_structural = normalize structural_results in
      let norm_semantic = normalize semantic_results in
      sorted F (
        fuse_names (or_default sem_w semantic_weight) (or_default struct_w structural_weight)
          norm_structural norm_semantic (as_set (names norm_structural ++ names norm_semantic)))

  mem-put :
      (d : Dict S) (k : String) (x : S) (n : String)
      → mem n (names (Dict.put d k x)) ≡ (str_eq k n || mem n (names d))
  unfolding Dict.put mem
  mem-put [] k x n = ground arith
  mem-put ((j, y) ∷ d) k x n = ground (arith, mem-put d k x n, eq_iff j k, eq_iff j n)

  mem-comprehension :
      (f : S → S) (d out : Dict S) (n : String)
      → mem n (names (comprehension f d out)) ≡ (mem n (names d) || mem n (names out))
  unfolding comprehension mem
  mem-comprehension f [] out n = refl
  mem-comprehension f ((k, x) ∷ d) out n =
      ground (arith, mem-comprehension f d (Dict.put out k (f x)) n, mem-put out k (f x) n)

  mem-normalize : (d : Dict S) (n : String) → mem n (names (normalize d)) ≡ mem n (names d)
  unfolding normalize mem
  mem-normalize [] n = refl
  mem-normalize ((k, x) ∷ d) n = ground (
    arith,
    mem-comprehension (normalize_score (F.sub (highest x d) (lowest x d)) (lowest x d)) ((k, x) ∷ d)
        [] n,
  )

  names-fuse_names :
      (u v : S) (d e : Dict S) (ns : List String) → names (fuse_names u v d e ns) ≡ ns
  unfolding fuse_names
  names-fuse_names u v d e [] = refl
  names-fuse_names u v d e (n ∷ ns) = ap (λ ms. n ∷ ms) (names-fuse_names u v d e ns)

  -- no score above 1.0
  unfoldable pub capped : Dict S → Bool
  capped [] = true
  capped ((k, x) ∷ d) = not (F.lt (F.tenths 10) x) && capped d

  capped-place :
      (k : String) (x : S) (d : Dict S)
      → capped (place F k x d) ≡ (not (F.lt (F.tenths 10) x) && capped d)
  unfolding place capped
  capped-place k x [] = refl
  capped-place k x ((j, y) ∷ d) = ground (arith, capped-place k x d)

  capped-sorted : (d : Dict S) → capped (sorted F d) ≡ capped d
  unfolding sorted capped
  capped-sorted [] = refl
  capped-sorted ((k, x) ∷ d) = ground (arith, capped-place k x (sorted F d), capped-sorted d)

  capped-fuse_names :
      IsAsymmetric F
      → (u v : S) (d e : Dict S) (ns : List String) → capped (fuse_names u v d e ns) ≡ true
  unfolding fuse_names capped fused_score
  capped-fuse_names asym u v d e [] = refl
  capped-fuse_names asym u v d e (n ∷ ns) =
      ground (arith, capped-fuse_names asym u v d e ns, asym (F.tenths 10) (F.tenths 10))

  -- The fused ranking names each name of the two results once and no other, in descending order of
  -- score, and no score is above 1.0, whatever the intent and the weights.
  pub fuse_rankings_lem :
      IsAsymmetric F
      → (as_set : List String → List String) → ListsSet as_set
      → (structural semantic : Dict S) (intent : QueryIntent) (u v : Option S) (n : String)
      → (mem n (names (fuse_rankings as_set structural semantic intent u v))
          ≡ (mem n (names structural) || mem n (names semantic)))
        × (distinct (names (fuse_rankings as_set structural semantic intent u v)) ≡ true)
        × (descending F (fuse_rankings as_set structural semantic intent u v) ≡ true)
        × (capped (fuse_rankings as_set structural semantic intent u v) ≡ true)
  unfolding fuse_rankings
  fuse_rankings_lem asym as_set set structural semantic intent u v n =
      let d = normalize structural in
      let e = normalize semantic in
      let sem_w = or_default (intent_weights intent).0 v in
      let struct_w = or_default (intent_weights intent).1 u in
      let ns = as_set (names d ++ names e) in
      let raw = fuse_names sem_w struct_w d e ns in
      let listed = names-fuse_names sem_w struct_w d e ns in
      (
        mem-sorted F raw n
            ∙ ap (mem n) listed
            ∙ set.same (names d ++ names e) n
            ∙ mem-append n (names d) (names e)
            ∙ ground (arith, mem-normalize structural n, mem-normalize semantic n),
        distinct-sorted F raw ∙ ap distinct listed ∙ set.once (names d ++ names e),
        descending-sorted F asym raw,
        capped-sorted raw ∙ capped-fuse_names asym sem_w struct_w d e ns,
      )
