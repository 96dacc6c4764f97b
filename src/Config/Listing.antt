-- ===== src/Config/Listing.antt =====
-- `get_all_config` against `get_config`.
use praecepta.Prelude.{
  String, ◌≡◌, refl, ◌∙◌, Bool, true, false, ◌||◌, List, [], ◌∷◌, Option, none, some, arith, str_eq,
  eq_iff, if◌then◌else◌, Option-cases, inl, inr,
}
use praecepta.Dict
use praecepta.Dict.{Dict}
use praecepta.Config.{Value, ConfigValue}
use praecepta.Config.Table
use praecepta.Config.Table.{Table}
use praecepta.Config.Service.{
  Entry, resolve, of_default, place, place_keys, entries, get_all_config,
}

-- The first entry for a key.
unfoldable pub find_entry : List Entry → String → Option Entry
find_entry [] k = none
find_entry (e ∷ es) k = if str_eq e.key k then some e else find_entry es k

unfoldable has : List String → String → Bool
has [] k = false
has (x ∷ xs) k = str_eq x k || has xs k

abbrev is_some : {A : Type 0} → Option A → Bool
is_some none = false
is_some (some a) = true

get-get_all : (rs : Table) (t k : String) → Dict.get (Table.get_all rs t) k ≡ Table.get rs t k
unfolding Table.get_all Table.get Dict.get
get-get_all [] t k = refl
get-get_all (r ∷ rs) t k =
    ground (arith, get-get_all rs t k, eq_iff r.tenant_id t, eq_iff r.config_key k)

has-place :
    (s : String) (xs : List String) (k : String) → has (place s xs) k ≡ (str_eq s k || has xs k)
unfolding has place
has-place s [] k = refl
has-place s (x ∷ xs) k = ground (arith, has-place s xs k, eq_iff s x, eq_iff s k, eq_iff x k)

has-place_keys :
    {V : Type 0} (d : Dict V) (xs : List String) (k : String)
    → has (place_keys d xs) k ≡ (is_some (Dict.get d k) || has xs k)
unfolding place_keys Dict.get
has-place_keys [] xs k = refl
has-place_keys ((j, v) ∷ d) xs k =
    ground (arith, has-place j (place_keys d xs) k, has-place_keys d xs k, eq_iff j k)

resolve-key :
    (defaults : Dict ConfigValue) (k : String) (o : Option Value) (e : Entry)
    → resolve defaults k o ≡ some e
    → e.key ≡ k
unfolding resolve of_default
resolve-key defaults k (some v) e h = ground arith
resolve-key defaults k none e h = elim (Option-cases (Dict.get defaults k)) [
  | inl n ↦ ground (arith, h, n)
  | inr (d, n) ↦ ground (arith, h, n)
]

find_entry-entries :
    (defaults : Dict ConfigValue) (overrides : Dict Value) (ks : List String) (k : String)
    → find_entry (entries defaults overrides ks) k
      ≡ (if has ks k then resolve defaults k (Dict.get overrides k) else none)
unfolding entries find_entry has
find_entry-entries defaults overrides [] k = refl
find_entry-entries defaults overrides (j ∷ ks) k =
    elim (Option-cases (resolve defaults j (Dict.get overrides j))) [
      | inl n ↦ rw n (ground (arith, find_entry-entries defaults overrides ks k, eq_iff j k, n))
      | inr (e, n) ↦ rw n (
          ground (
            arith,
            find_entry-entries defaults overrides ks k,
            eq_iff j k,
            n,
            resolve-key defaults j (Dict.get overrides j) e n,
          ))
    ]

-- A key that no side has resolves to nothing.
resolve-known :
    (defaults : Dict ConfigValue) (k : String) (o : Option Value)
    → (if is_some (Dict.get defaults k) || (is_some o || false) then resolve defaults k o else none)
      ≡ resolve defaults k o
unfolding resolve of_default
resolve-known defaults k (some v) = ground arith
resolve-known defaults k none = ground arith

-- The listing has for every key the entry that the chain of the tenant's value and the default gives,
-- and none for a key that neither knows.
pub find_entry-get_all_config :
    (defaults : Dict ConfigValue) (table : Table) (t k : String)
    → find_entry (get_all_config defaults table t) k ≡ resolve defaults k (Table.get table t k)
unfolding get_all_config has
find_entry-get_all_config defaults table t k =
    let overrides = Table.get_all table t in
    find_entry-entries defaults overrides (place_keys defaults (place_keys overrides [])) k
    ∙ rw
        (
          has-place_keys defaults (place_keys overrides []) k,
          has-place_keys overrides [] k,
          get-get_all table t k,
        )
        (resolve-known defaults k (Table.get table t k))
