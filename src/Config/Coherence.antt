-- ===== src/Config/Coherence.antt =====
-- The cache of `TenantConfigService` against the service without one.
use praecepta.Prelude.{
  String, ◌≡◌, ◌⊎◌, refl, sym, ap, ◌∙◌, true, false, ◌&&◌, List, [], ◌∷◌, Option, none, some, arith,
  str_eq, eq_iff, eq_refl, Option-cases, inl, inr,
}
use praecepta.Dict.{Dict}
use praecepta.Config.{Value, ConfigValue}
use praecepta.Config.Table
use praecepta.Config.Table.{Table, get-upsert}
use praecepta.Config.Service.{
  ConfigCache, Config, Entry, resolve, set_config, get_config, get_from, invalidate, from_cache,
  populate, of_tenant, Call, read,
}

-- What the service answers without a cache.
unfoldable pub plain : Dict ConfigValue → List Call → Table → List (Option Entry)
plain defaults [] table = []
plain defaults (Call.set t k v by ∷ calls) table =
    plain defaults calls (Table.upsert table t k v by)
plain defaults (read t k ∷ calls) table =
    resolve defaults k (Table.get table t k) ∷ plain defaults calls table

module _ {C : Type 0} (cache : ConfigCache C) (defaults : Dict ConfigValue) where
  -- The answers of the calls that read, in order.
  unfoldable pub run : List Call → Config C → List (Option Entry)
  run [] s = []
  run (Call.set t k v by ∷ calls) s = run calls (set_config cache t k v by s)
  run (read t k ∷ calls) s =
      let (answer, s') = get_config cache defaults t k s in answer ∷ run calls s'

module _ {C : Type 0} (cache : ConfigCache C) where
  -- What the cache has, the table has.
  abbrev pub IsCoherent : Config C → Type 0
  IsCoherent s =
      (t k : String) (v : Value)
      → from_cache cache s.cache t k ≡ some v
      → Table.get s.table t k ≡ some v

  same_key :
      (t k u j : String)
      → str_eq (cache.cache_key t k) (cache.cache_key u j) ≡ (str_eq t u && str_eq k j)
  same_key t k u j = ground (
    arith,
    eq_iff (cache.cache_key t k) (cache.cache_key u j),
    cache.cache_key_injective t k u j,
    eq_iff t u,
    eq_iff k j,
  )

  invalidate-lem :
      (o : Option C) (t k u j : String) (w : Value)
      → from_cache cache (invalidate cache o t k) u j ≡ some w
      → ((str_eq t u && str_eq k j) ≡ false) × (from_cache cache o u j ≡ some w)
  unfolding from_cache
  invalidate-lem none t k u j w h = cc
  invalidate-lem (some c) t k u j w h =
      let (other, found) = cache.get-delete c (cache.cache_key t k) (cache.cache_key u j) w h in
      (sym (same_key t k u j) ∙ other, found)

  populate-lem :
      (o : Option C) (t k u j : String) (v : Option Value) (w : Value)
      → from_cache cache (populate cache o t k v) u j ≡ some w
      → ((str_eq t u && str_eq k j) ≡ true) × (v ≡ some w) ⊎ (from_cache cache o u j ≡ some w)
  unfolding from_cache populate
  populate-lem none t k u j v w h = inr h
  populate-lem (some c) t k u j none w h = inr h
  populate-lem (some c) t k u j (some v) w h =
      ground
        (arith, same_key t k u j, cache.get-set c (cache.cache_key t k) (cache.cache_key u j) v w h)

  -- Setting a value keeps the cache coherent with the table.
  pub set_config-IsCoherent :
      (t k : String) (v : Value) (by : String) (s : Config C)
      → IsCoherent s
      → IsCoherent (set_config cache t k v by s)
  unfolding set_config
  set_config-IsCoherent t k v by s co u j w h =
      let (other, found) = invalidate-lem s.cache t k u j w h in
      get-upsert s.table t k v by u j ∙ rw other (co u j w found)

  get_from-IsCoherent :
      (defaults : Dict ConfigValue) (o : Option Value) (t k : String) (s : Config C)
      → IsCoherent s
      → IsCoherent (get_from cache defaults o t k s).1
  unfolding get_from
  get_from-IsCoherent defaults (some v) t k s co u j w h = co u j w h
  get_from-IsCoherent defaults none t k s co u j w h =
      elim (populate-lem s.cache t k u j (Table.get s.table t k) w h) [
        | inr found ↦ co u j w found
        | inl (same, e) ↦ ground (arith, same, e, eq_iff t u, eq_iff k j)
      ]

  pub get_config-IsCoherent :
      (defaults : Dict ConfigValue) (t k : String) (s : Config C)
      → IsCoherent s
      → IsCoherent (get_config cache defaults t k s).1
  unfolding get_config
  get_config-IsCoherent defaults t k s co =
      get_from-IsCoherent defaults (from_cache cache s.cache t k) t k s co

  -- With a coherent cache a read answers what the table and the defaults say.
  pub get_config-resolve :
      (defaults : Dict ConfigValue) (t k : String) (s : Config C)
      → IsCoherent s
      → (get_config cache defaults t k s).0 ≡ resolve defaults k (Table.get s.table t k)
  unfolding get_config get_from resolve
  get_config-resolve defaults t k s co = elim (Option-cases (from_cache cache s.cache t k)) [
    | inl e ↦ rw e refl
    | inr (v, e) ↦ rw (e, co t k v e) refl
  ]

  set_config-table :
      (t k : String) (v : Value) (by : String) (s : Config C)
      → (set_config cache t k v by s).table ≡ Table.upsert s.table t k v by
  unfolding set_config
  set_config-table t k v by s = refl

  get_from-table :
      (defaults : Dict ConfigValue) (o : Option Value) (t k : String) (s : Config C)
      → (get_from cache defaults o t k s).1.table ≡ s.table
  unfolding get_from
  get_from-table defaults (some v) t k s = refl
  get_from-table defaults none t k s = refl

  pub get_config-table :
      (defaults : Dict ConfigValue) (t k : String) (s : Config C)
      → (get_config cache defaults t k s).1.table ≡ s.table
  unfolding get_config
  get_config-table defaults t k s = get_from-table defaults (from_cache cache s.cache t k) t k s

  -- From a coherent state every sequence of writes and reads answers as the service without a cache
  -- does, whatever the cache drops.
  pub run-plain :
      (defaults : Dict ConfigValue) (calls : List Call) (s : Config C)
      → IsCoherent s
      → run cache defaults calls s ≡ plain defaults calls s.table
  unfolding run plain
  run-plain defaults [] s co = refl
  run-plain defaults (Call.set t k v by ∷ calls) s co =
      run-plain defaults calls (set_config cache t k v by s) (set_config-IsCoherent t k v by s co)
      ∙ ap (plain defaults calls) (set_config-table t k v by s)
  run-plain defaults (read t k ∷ calls) s co =
      let answer = get_config-resolve defaults t k s co in
      let rest =
        run-plain defaults calls (get_config cache defaults t k s).1
          (get_config-IsCoherent defaults t k s co) in
      rw (answer, rest, get_config-table defaults t k s) refl

  -- A read after a write of the same key answers with the value written, as the tenant's.
  pub get_config-set_config :
      (defaults : Dict ConfigValue) (t k : String) (v : Value) (by : String) (s : Config C)
      → IsCoherent s
      → (get_config cache defaults t k (set_config cache t k v by s)).0 ≡ some (of_tenant k v)
  unfolding resolve
  get_config-set_config defaults t k v by s co =
      get_config-resolve defaults t k (set_config cache t k v by s)
        (set_config-IsCoherent t k v by s co)
      ∙ rw (set_config-table t k v by s, get-upsert s.table t k v by t k, eq_refl t, eq_refl k) refl
