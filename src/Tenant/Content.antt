-- ===== src/Tenant/Content.antt =====
-- The configuration and the metadata of a tenant under the commands that edit them.
use praecepta.Prelude.{String, ◌≡◌, ◌≢◌, some, arith, str_eq, if◌then◌else◌}
use praecepta.Dict
use praecepta.Dict.{Dict, get-put, get-update, get_last, or_old}
use praecepta.ValueObjects.{TenantStatus}
use praecepta.Tenant.{
  Tenant, ConfigInput, serialized, update_config, update_metadata, request, after,
}

module _ {V : Type 0} where
  -- An edit of an active tenant sets exactly the given key to the serialised value and changes
  -- nothing else; on any other status the tenant is left as it is.
  pub update_config-get :
      (t : Tenant V) (key : String) (value : ConfigInput V) (by : String)
      → let u = (after t (request (update_config key value by) t)).0 in
        (t.status ≡ TenantStatus.active
          → (j : String)
          → Dict.get u.config j
            ≡ (if str_eq key j then some (serialized value) else Dict.get t.config j))
        × (t.status ≡ TenantStatus.active → record u { config = t.config } ≡ t)
        × (t.status ≢ TenantStatus.active → u ≡ t)
  unfolding after request
  update_config-get t key value by = (
    λ e j. ground (arith, get-put t.config key (serialized value) j),
    λ e. ground arith,
    λ n. ground arith,
  )

  -- New metadata is merged: a key has its last new value, or else its old one; nothing else changes,
  -- and on a tenant that is not active nothing changes at all.
  pub update_metadata-get :
      (t : Tenant V) (metadata : Dict V) (by : String)
      → let u = (after t (request (update_metadata metadata by) t)).0 in
        (t.status ≡ TenantStatus.active
          → (j : String)
          → Dict.get u.metadata j ≡ or_old (get_last metadata j) (Dict.get t.metadata j))
        × (t.status ≡ TenantStatus.active → record u { metadata = t.metadata } ≡ t)
        × (t.status ≢ TenantStatus.active → u ≡ t)
  unfolding after request
  update_metadata-get t metadata by = (
    λ e j. ground (arith, get-update t.metadata metadata j),
    λ e. ground arith,
    λ n. ground arith,
  )
