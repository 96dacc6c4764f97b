-- ===== src/CodeIntel/Structural/Ranked.antt =====
-- index/structural_index.py (packages/infra-codeintel): `get_ranked_symbols` and its cache of PageRank scores.
use praecepta.Prelude.{
  ◌⊎◌, ℕ, String, ◌≡◌, refl, false, [], ◌∷◌, Option, none, some, arith, if◌then◌else◌, length, ◌==◌,
  take,
}
use praecepta.Dict.{Dict}
use praecepta.CodeIntel.DiGraph.{DiGraph, has_node}
use praecepta.CodeIntel.Scores.{Scores, sorted}

-- `xs[:k]` is `take k xs`. `pagerank g p` is networkx's `pagerank` with the damping of the index, where `p`
-- is the argument `personalization`.
module _ {S G : Type 0} (F : Scores S) (D : DiGraph G)
    (pagerank : G → Option (Dict S) → Dict S) where
  -- `{k: v for k, v in personalization.items() if k in self._graph}`
  unfoldable pub valid : G → Dict S → Dict S
  valid g [] = []
  valid g ((k, x) ∷ d) = let rest = valid g d in if has_node D g k then (k, x) ∷ rest else rest

  -- the argument that `if valid` passes on
  unfoldable pub passed : Dict S → Option (Dict S)
  passed [] = none
  passed ((k, x) ∷ d) = some ((k, x) ∷ d)

  unfoldable pub scores_for : G → (personalization : Option (Dict S)) → Dict S
  scores_for g none = pagerank g none
  scores_for g (some p) = pagerank g (passed (valid g p))

  -- the three branches past the test for an empty graph: the cache after the call, and the scores
  unfoldable pub cached_scores :
      G → (cache personalization : Option (Dict S)) → Option (Dict S) × Dict S
  cached_scores g none personalization =
      (some (scores_for g personalization), scores_for g personalization)
  cached_scores g (some scores) none = (some scores, scores)
  cached_scores g (some scores) (some p) = (some scores, scores_for g (some p))

  unfoldable pub get_ranked_symbols :
      G → (cache personalization : Option (Dict S)) → (top_k : ℕ) → Option (Dict S) × Dict S
  get_ranked_symbols g cache personalization top_k =
      if length (D.nodes g) == 0
      then (cache, [])
      else let (cache', scores) = cached_scores g cache personalization in
        (cache', take top_k (sorted F scores))

  -- Calls without a personalization after the index changed: each gives the first names of the plain
  -- PageRank, whether or not the cache is filled by then.
  pub get_ranked-plain :
      (g : G) (cache : Option (Dict S)) (k m : ℕ)
      → (cache ≡ none) ⊎ (cache ≡ some (pagerank g none))
      → (length (D.nodes g) == 0) ≡ false
      → ((get_ranked_symbols g cache none k).1 ≡ take k (sorted F (pagerank g none)))
        × ((get_ranked_symbols g (get_ranked_symbols g cache none k).0 none m).1
            ≡ take m (sorted F (pagerank g none)))
  unfolding get_ranked_symbols cached_scores scores_for
  get_ranked-plain g none k m h e = rw e (refl, refl)
  get_ranked-plain g (some d) k m h e =
      let same : d ≡ pagerank g none = ground (arith, h) in rw (e, same) (refl, refl)

  -- A first call with a personalization that names a node fills the cache with its own scores, so that a
  -- later call without one gives the personalized ranking and not the plain one.
  pub get_ranked-personalized :
      (g : G) (p : Dict S) (k m : ℕ) (name : String) (x : S) (rest : Dict S)
      → (length (D.nodes g) == 0) ≡ false
      → valid g p ≡ (name, x) ∷ rest
      → (get_ranked_symbols g (get_ranked_symbols g none (some p) k).0 none m).1
        ≡ take m (sorted F (pagerank g (some ((name, x) ∷ rest))))
  unfolding get_ranked_symbols cached_scores scores_for passed
  get_ranked-personalized g p k m name x rest e v = rw (e, v) refl
