-- ===== src/Config/Service.antt =====
-- config_service.py (packages/foundation-application): `TenantConfigService`, over the table of its
-- repository and a cache that it may have. `SYSTEM_DEFAULTS` is an argument.
use praecepta.Prelude.{
  ℕ, String, ◌≡◌, ◌⊎◌, Bool, true, false, List, [], ◌∷◌, Option, none, some, str_eq, ◌==◌, ltb,
  if◌then◌else◌,
}
use praecepta.Dict
use praecepta.Dict.{Dict}
use praecepta.Text.{codes}
use praecepta.Config.{Value, ConfigValue, model_dump}
use praecepta.Config.Table
use praecepta.Config.Table.{Table}

-- The protocol `ConfigCache`. An entry may vanish at any time; one that is read back is the last
-- that was set under its key since the key was deleted.
pub record ConfigCache (C : Type 0) : Type 0 where
  pub cache_key : (tenant_id key : String) → String
  pub get : C → String → Option Value
  pub set : C → String → Value → C
  pub delete : C → String → C
  pub cache_key_injective : (t k u j : String) → cache_key t k ≡ cache_key u j → (t ≡ u) × (k ≡ j)
  pub get-set :
      (c : C) (k j : String) (v w : Value)
      → get (set c k v) j ≡ some w
      → (str_eq k j ≡ true) × (w ≡ v) ⊎ (str_eq k j ≡ false) × (get c j ≡ some w)
  pub get-delete :
      (c : C) (k j : String) (w : Value)
      → get (delete c k) j ≡ some w
      → (str_eq k j ≡ false) × (get c j ≡ some w)

pub data Source : Type 0 where
  tenant system_default : Source

-- `{"key": …, "value": …, "source": …}`
pub record Entry : Type 0 where
  pub key : String
  pub value : Value
  pub source : Source

-- `_repo` with what the database holds, and `_cache` with what it holds
pub record Config (C : Type 0) : Type 0 where
  pub table : Table
  pub cache : Option C

-- the part of the chain that reads the defaults, with what they have for the key
unfoldable pub of_default : (key : String) → Option ConfigValue → Option Entry
of_default key none = none
of_default key (some d) =
    some (record { key = key; value = model_dump d; source = Source.system_default })

abbrev pub of_tenant : (key : String) → Value → Entry
of_tenant key value = record { key = key; value = value; source = tenant }

-- the chain behind the cache: what the tenant set, or else the default
unfoldable pub resolve : Dict ConfigValue → (key : String) → Option Value → Option Entry
resolve defaults key (some value) = some (of_tenant key value)
resolve defaults key none = of_default key (Dict.get defaults key)

-- `sorted(set(a) | set(b))`: each key goes to its place in the order of code points, once.
before : List ℕ → List ℕ → Bool
before [] [] = false
before [] (d ∷ ds) = true
before (c ∷ cs) [] = false
before (c ∷ cs) (d ∷ ds) = let rest = before cs ds in if c == d then rest else ltb c d

unfoldable pub place : String → List String → List String
unfolding before
place s [] = s ∷ []
place s (x ∷ xs) =
    let rest = place s xs in
    if str_eq s x then x ∷ xs else if before (codes s) (codes x) then s ∷ x ∷ xs else x ∷ rest

unfoldable pub place_keys : {V : Type 0} → Dict V → List String → List String
place_keys [] keys = keys
place_keys ((k, v) ∷ d) keys = place k (place_keys d keys)

abbrev list_of : {A : Type 0} → Option A → List A → List A
list_of none xs = xs
list_of (some x) xs = x ∷ xs

-- `for key_str in all_keys`
unfoldable pub entries : Dict ConfigValue → Dict Value → List String → List Entry
entries defaults overrides [] = []
entries defaults overrides (k ∷ ks) =
    list_of (resolve defaults k (Dict.get overrides k)) (entries defaults overrides ks)

unfoldable pub get_all_config : Dict ConfigValue → Table → (tenant_id : String) → List Entry
get_all_config defaults table tenant_id =
    let overrides = Table.get_all table tenant_id in
    entries defaults overrides (place_keys defaults (place_keys overrides []))

module _ {C : Type 0} (cache : ConfigCache C) where
  abbrev pub invalidate : Option C → (tenant_id key : String) → Option C
  invalidate none tenant_id key = none
  invalidate (some c) tenant_id key = some (cache.delete c (cache.cache_key tenant_id key))

  unfoldable pub set_config :
      (tenant_id key : String) → Value → (updated_by : String) → Config C → Config C
  set_config tenant_id key value updated_by s = record {
    table = Table.upsert s.table tenant_id key value updated_by;
    cache = invalidate s.cache tenant_id key;
  }

  -- the test of the cache
  unfoldable pub from_cache : Option C → (tenant_id key : String) → Option Value
  from_cache none tenant_id key = none
  from_cache (some c) tenant_id key = cache.get c (cache.cache_key tenant_id key)

  -- "Populate cache on read"
  unfoldable pub populate : Option C → (tenant_id key : String) → Option Value → Option C
  populate none tenant_id key value = none
  populate (some c) tenant_id key none = some c
  populate (some c) tenant_id key (some value) =
      some (cache.set c (cache.cache_key tenant_id key) value)

module _ {C : Type 0} (cache : ConfigCache C) (defaults : Dict ConfigValue) where
  -- what `get_config` does once the cache is read
  unfoldable pub get_from :
      (cached : Option Value) → (tenant_id key : String) → Config C → Option Entry × Config C
  get_from (some value) tenant_id key s = (some (of_tenant key value), s)
  get_from none tenant_id key s =
      let tenant_value = Table.get s.table tenant_id key in
      (
        resolve defaults key tenant_value,
        record s { cache = populate cache s.cache tenant_id key tenant_value },
      )

  unfoldable pub get_config : (tenant_id key : String) → Config C → Option Entry × Config C
  get_config tenant_id key s = get_from (from_cache cache s.cache tenant_id key) tenant_id key s

-- One call of the service.
pub data Call : Type 0 where
  set : (tenant_id key : String) → Value → (updated_by : String) → Call
  read : (tenant_id key : String) → Call
