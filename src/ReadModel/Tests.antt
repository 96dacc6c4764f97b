-- ===== src/ReadModel/Tests.antt =====
-- The read models at concrete inputs: a tenant is activated, configured and suspended.
use praecepta.Prelude.{String, ◌≡◌, refl, true, List, [], ◌∷◌, map, none, some}
use praecepta.Dict
use praecepta.Dict.{Dict}
use praecepta.Errors.{ok}
use praecepta.ValueObjects.{TenantStatus}
use praecepta.Config.{Value, ConfigValue, model_dump}
use praecepta.Config.Table
use praecepta.Config.Service.{get_config, resolve}
use praecepta.Config.Kept.{kept, fresh, fresh-IsCoherent}
use praecepta.Auth.{is_excluded}
use praecepta.Tenant.{
  Tenant, TenantEvent, TenantCommand, activated, suspended, config_updated, activate, suspend,
  update_config, plain, run, request, after,
}
use praecepta.ReadModel.TenantList
use praecepta.ReadModel.TenantList.{Tenants, TenantRow, process_all, provisioned, put_row}
use praecepta.ReadModel.TenantList.Status.{Listed, run-Listed, provisioned-Listed}
use praecepta.ReadModel.TenantConfig
use praecepta.ReadModel.TenantConfig.{run-configured}
use praecepta.ReadModel.Gate.{call, is_blocked, is_closed, repository_status, run-closed}

abbrev dark_mode : Value
dark_mode = model_dump (ConfigValue.boolean true)

abbrev new_tenant : Tenant Value
new_tenant = record {
  id = "id-1";
  tenant_id = "acme";
  name = "Acme";
  slug = "acme";
  status = TenantStatus.provisioning;
  config = [];
  metadata = [];
  suspension_reason = none;
  suspension_category = none;
  decommission_reason = none;
}

abbrev commands : List (TenantCommand Value)
commands =
    activate "ann" none
    ∷ update_config "feature.dark_mode" (plain dark_mode) "ann"
    ∷ suspend "ann" (some "unpaid") none none
    ∷ []

abbrev stamped : List (String × TenantEvent Value)
stamped =
    ("t1", activated "ann" "")
    ∷ ("t2", config_updated "acme" "feature.dark_mode" dark_mode "ann")
    ∷ ("t3", suspended "unpaid" "" "ann" "")
    ∷ []

abbrev listed : Tenants
listed = put_row [] "id-1" "acme" "Acme" "PROVISIONING" "t0"

listed_by : provisioned "id-1" "acme" "Acme" "t0" [] ≡ ok listed
unfolding provisioned TenantList.upsert TenantList.slug_taken TenantList.has_slug Dict.get
listed_by = refl

listed-Listed : Listed "id-1" listed new_tenant
unfolding Dict.get
listed-Listed =
    provisioned-Listed "id-1" "acme" "Acme" "t0" [] listed new_tenant listed_by refl refl refl refl

stamped-recorded : map (λ e. e.1) stamped ≡ (run commands new_tenant).1
unfolding run request after
stamped-recorded = refl

run-Listed_example :
    (d' : Tenants) × (process_all "id-1" stamped listed ≡ ok d')
    × Listed "id-1" d' (run commands new_tenant).0
run-Listed_example =
    run-Listed "id-1" commands stamped listed new_tenant listed-Listed stamped-recorded

run-closed_example :
    (d' : Tenants) × (process_all "id-1" stamped listed ≡ ok d')
    × (is_blocked (
          call
            (some (repository_status d'))
            ("/health" ∷ [])
            (record { type = "http"; path = "/orders"; headers = ("X-Tenant-ID", "acme") ∷ [] }))
        ≡ is_closed (run commands new_tenant).0.status)
unfolding is_excluded put_row
run-closed_example =
    run-closed "id-1" "/orders" ("/health" ∷ []) commands stamped listed new_tenant listed-Listed
      (refl, tt) stamped-recorded refl refl

run-configured_example :
    (get_config kept [] "acme" "feature.dark_mode"
      (TenantConfig.process_all kept (run commands new_tenant).1 fresh)).0
    ≡ resolve [] "feature.dark_mode"
        (Dict.get (run commands new_tenant).0.config "feature.dark_mode")
unfolding Table.get Dict.get
run-configured_example =
    run-configured kept [] commands new_tenant fresh "feature.dark_mode" fresh-IsCoherent
      (λ k. refl)
