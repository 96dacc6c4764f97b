-- ===== src/Registry.antt =====
-- The two reservation tables: oidc_sub_registry.py (packages/domain-identity) and slug_registry.py
-- (packages/domain-tenancy). Each method runs one SQL statement in a transaction of its own, so it
-- is a function of the table, which is a list of rows under their primary keys.
pub mod OidcSub
pub mod Slug
mod Tests
use praecepta.Prelude.{
  String, ◌≡◌, refl, List, [], ◌∷◌, ◌++◌, Option, none, some, arith, str_eq, eq_iff, if◌then◌else◌,
}
use praecepta.Dict
use praecepta.Dict.{Dict}
use praecepta.Errors.{Result, ok, err, conflict}

module _ {ℓ} {V : Type ℓ} where
  -- INSERT under a primary key: a row that is there is a violation, which becomes a ConflictError.
  abbrev pub inserted : Option V → String → Dict V → String → V → Result (Dict V)
  inserted (some old) message d k v = err (conflict message)
  inserted none message d k v = ok (d ++ (k, v) ∷ [])

  -- No two rows have the same primary key.
  abbrev pub Keyed : Dict V → Type ℓ
  Keyed [] = Unit
  Keyed ((k, v) ∷ d) = (Dict.get d k ≡ none) × Keyed d

  abbrev pub or_else : Option V → Option V → Option V
  or_else none o = o
  or_else (some v) o = some v

  pub get-append :
      (d : Dict V) (k : String) (v : V) (j : String)
      → Dict.get (d ++ (k, v) ∷ []) j ≡ or_else (Dict.get d j) (if str_eq k j then some v else none)
  unfolding Dict.get
  get-append [] k v j = ground arith
  get-append ((i, w) ∷ d) k v j = ground (arith, get-append d k v j)

  pub append-Keyed :
      (d : Dict V) (k : String) (v : V) → Dict.get d k ≡ none → Keyed d → Keyed (d ++ (k, v) ∷ [])
  unfolding Dict.get
  append-Keyed [] k v h keyed = (refl, tt)
  append-Keyed ((i, w) ∷ d) k v h keyed = (
    ground (arith, get-append d k v i, eq_iff i k, eq_iff k i, keyed.0),
    append-Keyed d k v (ground arith) keyed.1,
  )
