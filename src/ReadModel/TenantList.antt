-- ===== src/ReadModel/TenantList.antt =====
-- tenant_repository.py and projections/tenant_list.py (packages/domain-tenancy): the table of tenants
-- and the projection that fills it. The event that creates a tenant is handled by `provisioned`.
pub mod Status
use praecepta.Prelude.{
  ltb, Bool, true, false, String, ◌≡◌, refl, sym, subst, ap, ◌∙◌, not, ◌||◌, List, [], ◌∷◌, map,
  Option, none, some, arith, str_eq, eq_refl, Bool-cases, inl, inr, if◌then◌else◌,
}
use praecepta.Dict
use praecepta.Dict.{Dict}
use praecepta.Errors.{Result, ok, err, value_error, conflict, data_error, ◌>>=◌}
use praecepta.Text.{append, len}
use praecepta.ValueObjects.{TenantStatus, status_value}
use praecepta.Tenant.{
  Tenant, TenantEvent, TenantCommand, activated, suspended, decommissioned, config_updated,
  metadata_updated, mutate, run, replay,
}
use praecepta.Tenant.History.{replay-run}

-- A row of `tenants`; its key is the identifier of the aggregate.
pub record TenantRow : Type 0 where
  pub slug : String
  pub name : String
  pub status : String
  pub created_at : String
  pub activated_at : Option String
  pub suspended_at : Option String
  pub decommissioned_at : Option String

abbrev pub Tenants : Type 0
Tenants = Dict TenantRow

-- the row that INSERT … ON CONFLICT (id) DO UPDATE SET status, name writes
unfoldable pub put_row : Tenants → (tenant_id slug name status timestamp : String) → Tenants
put_row [] tenant_id slug name status timestamp =
    (
      tenant_id,
      record {
        slug = slug;
        name = name;
        status = status;
        created_at = timestamp;
        activated_at = none;
        suspended_at = none;
        decommissioned_at = none;
      },
    )
    ∷ []
put_row ((k, r) ∷ d) tenant_id slug name status timestamp =
    let rest = put_row d tenant_id slug name status timestamp in
    if str_eq k tenant_id then (k, record r { status = status; name = name }) ∷ d else (k, r) ∷ rest

-- `slug … UNIQUE`
unfoldable pub has_slug : String → Tenants → Bool
has_slug slug [] = false
has_slug slug ((k, r) ∷ d) = str_eq r.slug slug || has_slug slug d

-- Whether the insertion meets the slug of another row; an identifier with a row is updated instead.
unfoldable pub slug_taken : String → Option TenantRow → Tenants → Bool
slug_taken slug none d = has_slug slug d
slug_taken slug (some old) d = false

unfoldable pub upsert : Tenants → (tenant_id slug name status timestamp : String) → Result Tenants
upsert d tenant_id slug name status timestamp =
    if ltb 63 (len slug) || ltb 255 (len name) || ltb 50 (len status)
    then err data_error
    else if slug_taken slug (Dict.get d tenant_id) d
    then err (conflict "tenants_slug_key")
    else ok (put_row d tenant_id slug name status timestamp)

abbrev pub set_column : (column timestamp : String) → TenantRow → TenantRow
set_column column timestamp r =
    if str_eq column "activated_at"
    then record r { activated_at = some timestamp }
    else if str_eq column "suspended_at"
    then record r { suspended_at = some timestamp }
    else record r { decommissioned_at = some timestamp }

-- the UPDATE of `update_status`
unfoldable pub set_status : Tenants → (tenant_id status column timestamp : String) → Tenants
set_status [] tenant_id status column timestamp = []
set_status ((k, r) ∷ d) tenant_id status column timestamp =
    (
      k,
      if str_eq k tenant_id then record (set_column column timestamp r) { status = status } else r,
    )
    ∷ set_status d tenant_id status column timestamp

unfoldable pub update_status :
    Tenants → (tenant_id status column timestamp : String) → Result Tenants
update_status d tenant_id status column timestamp =
    if not (
      str_eq column "activated_at"
      || str_eq column "suspended_at"
      || str_eq column "decommissioned_at")
    then err (value_error (append "Invalid timestamp column: " column))
    else ok (set_status d tenant_id status column timestamp)

-- the SELECT of `get`: slugs are unique
unfoldable pub get : Tenants → (slug : String) → Option TenantRow
get [] slug = none
get ((k, r) ∷ d) slug = if str_eq r.slug slug then some r else get d slug

-- `_handle_provisioned`
unfoldable pub provisioned : (id slug name timestamp : String) → Tenants → Result Tenants
provisioned id slug name timestamp d = upsert d id slug name "PROVISIONING" timestamp

-- `process_event` without the record of the position; `id` is the event's `originator_id`
unfoldable pub process_event :
    {V : Type 0} → (id timestamp : String) → TenantEvent V → Tenants → Result Tenants
process_event id timestamp (activated by corr) d =
    update_status d id "ACTIVE" "activated_at" timestamp
process_event id timestamp (suspended reason category by corr) d =
    update_status d id "SUSPENDED" "suspended_at" timestamp
process_event id timestamp (TenantEvent.reactivated by corr) d =
    update_status d id "ACTIVE" "activated_at" timestamp
process_event id timestamp (decommissioned reason by corr) d =
    update_status d id "DECOMMISSIONED" "decommissioned_at" timestamp
process_event id timestamp _ d = ok d

-- `clear_read_model`
unfoldable pub clear_read_model : Tenants → Tenants
clear_read_model d = []

-- The events of one tenant in order, each with its timestamp.
unfoldable pub process_all :
    {V : Type 0} → (id : String) → List (String × TenantEvent V) → Tenants → Result Tenants
process_all id [] d = ok d
process_all id ((timestamp, e) ∷ es) d = do
  d' ← process_event id timestamp e d
  process_all id es d'
