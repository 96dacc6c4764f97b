-- ===== src/Config/Kept.antt =====
-- A cache that keeps what it is given, for tests: the interface can be filled.
use Prim.Native.Char.{Char, code}
use praecepta.Prelude.{
  ℕ, String, ◌≡◌, ◌⊎◌, refl, ap, true, false, [], Option, none, some, arith, str_eq, eq_iff,
}
use praecepta.Text.{drop}
use praecepta.Dict
use praecepta.Dict.{Dict, get-put, get-remove}
use praecepta.Config.{Value}
use praecepta.Config.Service.{ConfigCache, Config, from_cache}
use praecepta.Config.Coherence.{IsCoherent}

-- A key of two texts from which both can be read back.
abbrev pub pair_key : String → String → String
pair_key String.[] k = String.◌∷◌ "b" k
pair_key (String.◌∷◌ c t) k = String.◌∷◌ "a" (String.◌∷◌ c (pair_key t k))

abbrev first : String → Option Char
first String.[] = none
first (String.◌∷◌ c s) = some c

abbrev first_code : String → ℕ
first_code String.[] = 0
first_code (String.◌∷◌ c s) = code c

pub pair_key_injective : (t k u j : String) → pair_key t k ≡ pair_key u j → (t ≡ u) × (k ≡ j)
pair_key_injective String.[] k String.[] j h = (refl, ap (drop 1) h)
pair_key_injective String.[] k (String.◌∷◌ d u) j h = ground (arith, ap first_code h)
pair_key_injective (String.◌∷◌ c t) k String.[] j h = ground (arith, ap first_code h)
pair_key_injective (String.◌∷◌ c t) k (String.◌∷◌ d u) j h =
    let (same, rest) = pair_key_injective t k u j (ap (drop 2) h) in
    let head : some c ≡ some d = ap (λ s. first (drop 1 s)) h in (cc (head, same), rest)

pub kept_set :
    (c : Dict Value) (k j : String) (v w : Value)
    → Dict.get (Dict.put c k v) j ≡ some w
    → (str_eq k j ≡ true) × (w ≡ v) ⊎ (str_eq k j ≡ false) × (Dict.get c j ≡ some w)
kept_set c k j v w h = ground (arith, get-put c k v j, eq_iff k j)

pub kept_delete :
    (c : Dict Value) (k j : String) (w : Value)
    → Dict.get (Dict.remove c k) j ≡ some w
    → (str_eq k j ≡ false) × (Dict.get c j ≡ some w)
kept_delete c k j w h = ground (arith, get-remove c k j, eq_iff k j)

abbrev pub kept : ConfigCache (Dict Value)
kept = record {
  cache_key = pair_key;
  get = Dict.get;
  set = Dict.put;
  delete = Dict.remove;
  cache_key_injective = pair_key_injective;
  get-set = kept_set;
  get-delete = kept_delete;
}

-- Nothing is set, and nothing is cached.
abbrev pub fresh : Config (Dict Value)
fresh = record { table = []; cache = some [] }

pub fresh-IsCoherent : IsCoherent kept fresh
unfolding from_cache Dict.get
fresh-IsCoherent t k v h = cc h
