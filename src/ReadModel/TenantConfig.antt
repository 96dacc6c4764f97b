-- ===== src/ReadModel/TenantConfig.antt =====
-- projections/tenant_config.py (packages/domain-tenancy): the projection that writes the configuration
-- of the tenants to the table that the configuration service reads.
use praecepta.Prelude.{String, ◌≡◌, ap, ◌∙◌, List, [], ◌∷◌, arith, eq_iff}
use praecepta.Dict
use praecepta.Dict.{Dict, get-put}
use praecepta.Config.{Value, ConfigValue}
use praecepta.Config.Table
use praecepta.Config.Table.{get-upsert}
use praecepta.Config.Service.{ConfigCache, Config, invalidate, set_config, resolve, get_config}
use praecepta.Config.Coherence.{IsCoherent, set_config-IsCoherent, get_config-resolve}
use praecepta.Tenant.{
  Tenant, TenantEvent, TenantCommand, activated, config_updated, mutate, run, replay,
}
use praecepta.Tenant.History.{replay-run}
use praecepta.Tenant.Own.{IsOwn, AllOwn, run-AllOwn}

module _ {C : Type 0} (cache : ConfigCache C) where
  -- `process_event` without the record of the position; the cache is the one of this process.
  unfoldable pub process_event : TenantEvent Value → Config C → Config C
  process_event (config_updated tenant_id config_key config_value updated_by) s = record {
    table = Table.upsert s.table tenant_id config_key config_value updated_by;
    cache = invalidate cache s.cache tenant_id config_key;
  }
  process_event _ s = s

  -- `clear_read_model`
  unfoldable pub clear_read_model : Config C → Config C
  clear_read_model s = record s { table = [] }

  unfoldable pub process_all : List (TenantEvent Value) → Config C → Config C
  process_all [] s = s
  process_all (e ∷ es) s = process_all es (process_event e s)

  -- The table has the configuration of the tenant.
  abbrev pub Agrees : Config C → (tenant_id : String) → Tenant Value → Type 0
  Agrees s tenant_id t = (k : String) → Table.get s.table tenant_id k ≡ Dict.get t.config k

  process_event-Agrees :
      (e : TenantEvent Value) (s : Config C) (tenant_id : String) (t : Tenant Value)
      → IsOwn tenant_id e
      → Agrees s tenant_id t
      → Agrees (process_event e s) tenant_id (mutate e t)
  unfolding process_event mutate
  process_event-Agrees (config_updated i k v by) s tenant_id t own h j = ground (
    arith,
    get-upsert s.table i k v by tenant_id j,
    get-put t.config k v j,
    eq_iff i tenant_id,
    eq_iff k j,
    h j,
    own,
  )
  process_event-Agrees (activated by corr) s tenant_id t own h j = h j
  process_event-Agrees _ s tenant_id t own h j = h j

  process_event-IsCoherent :
      (e : TenantEvent Value) (s : Config C)
      → IsCoherent cache s
      → IsCoherent cache (process_event e s)
  unfolding process_event set_config
  process_event-IsCoherent (config_updated i k v by) s co =
      set_config-IsCoherent cache i k v by s co
  process_event-IsCoherent (activated by corr) s co = co
  process_event-IsCoherent _ s co = co

  process_all-Agrees :
      (es : List (TenantEvent Value)) (s : Config C) (tenant_id : String) (t : Tenant Value)
      → AllOwn tenant_id es
      → IsCoherent cache s
      → Agrees s tenant_id t
      → IsCoherent cache (process_all es s) × Agrees (process_all es s) tenant_id (replay t es)
  unfolding process_all replay
  process_all-Agrees [] s tenant_id t own co h = (co, h)
  process_all-Agrees (e ∷ es) s tenant_id t (first, own) co h =
      process_all-Agrees es (process_event e s) tenant_id (mutate e t) own
        (process_event-IsCoherent e s co) (process_event-Agrees e s tenant_id t first h)

  -- Once the projection has processed the events that any commands on a tenant record, the
  -- configuration service answers for each key with the value in the aggregate, or else the default,
  -- if the table had the configuration of the tenant before and the cache was coherent with it.
  pub run-configured :
      (defaults : Dict ConfigValue) (cs : List (TenantCommand Value)) (t : Tenant Value)
      (s : Config C) (k : String)
      → IsCoherent cache s
      → Agrees s t.tenant_id t
      → (get_config cache defaults t.tenant_id k (process_all (run cs t).1 s)).0
        ≡ resolve defaults k (Dict.get (run cs t).0.config k)
  run-configured defaults cs t s k co h =
      let (co', same) = process_all-Agrees (run cs t).1 s t.tenant_id t (run-AllOwn cs t) co h in
      get_config-resolve cache defaults t.tenant_id k (process_all (run cs t).1 s) co'
      ∙ ap (resolve defaults k)
          (same k ∙ ap (λ (u : Tenant Value). Dict.get u.config k) (replay-run cs t))
