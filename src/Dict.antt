-- ===== src/Dict.antt =====
-- Python's `dict` with string keys, as an association list in insertion order.
use praecepta.Prelude.{
  String, ◌≡◌, refl, List, [], ◌∷◌, Option, none, some, arith, str_eq, eq_iff, eq_refl,
  if◌then◌else◌,
}

abbrev pub Dict {ℓ} : Type ℓ → Type ℓ
Dict V = List (String × V)

module _ {ℓ} {V : Type ℓ} where
  -- `d.get(k)`
  unfoldable pub get : Dict V → String → Option V
  get [] k = none
  get ((j, v) ∷ d) k = if str_eq j k then some v else get d k

  -- `d[k] = v`: an old key keeps its place, a new one goes to the end.
  unfoldable pub put : Dict V → String → V → Dict V
  put [] k v = (k, v) ∷ []
  put ((j, w) ∷ d) k v = if str_eq j k then (j, v) ∷ d else (j, w) ∷ put d k v

  -- `d.update(e)`
  pub update : Dict V → Dict V → Dict V
  update d [] = d
  update d ((k, v) ∷ e) = update (put d k v) e

  -- `d.pop(k, None)`
  unfoldable pub remove : Dict V → String → Dict V
  remove [] k = []
  remove ((j, w) ∷ d) k = let rest = remove d k in if str_eq j k then rest else (j, w) ∷ rest

  pub get-put :
      (d : Dict V) (k : String) (v : V) (j : String)
      → get (put d k v) j ≡ (if str_eq k j then some v else get d j)
  unfolding get put
  get-put [] k v j = refl
  get-put ((i, w) ∷ d) k v j = ground (arith, eq_iff k j, eq_iff i k, eq_iff i j, get-put d k v j)

  pub get-remove :
      (d : Dict V) (k j : String) → get (remove d k) j ≡ (if str_eq k j then none else get d j)
  unfolding get remove
  get-remove [] k j = ground arith
  get-remove ((i, w) ∷ d) k j = ground (arith, eq_iff k j, eq_iff i k, eq_iff i j, get-remove d k j)

  pub get-put_self : (d : Dict V) (k : String) (v : V) → get (put d k v) k ≡ some v
  get-put_self d k v = simp (get-put, eq_refl)

  pub get-nil : (k : String) → get [] k ≡ none
  unfolding get
  get-nil k = refl

  -- the last binding of a key in a list of them
  pub get_last : Dict V → String → Option V
  get_last [] j = none
  get_last ((k, v) ∷ e) j = elim (get_last e j) [
    | some w ↦ some w
    | none ↦ if str_eq k j then some v else none
  ]

  -- what a key maps to after `update`: the last new binding, or else the old one
  abbrev pub or_old : Option V → Option V → Option V
  or_old (some v) old = some v
  or_old none old = old

  pub get-update :
      (d e : Dict V) (j : String) → get (update d e) j ≡ or_old (get_last e j) (get d j)
  unfolding update get_last
  get-update d [] j = refl
  get-update d ((k, v) ∷ e) j = ground (arith, get-update (put d k v) e j, get-put d k v j)
