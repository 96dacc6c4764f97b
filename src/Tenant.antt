-- ===== src/Tenant.antt =====
-- tenant.py (packages/domain-tenancy): the Tenant aggregate. A public command is a function from the
-- aggregate to the event that it triggers, none, or an exception; `mutate` holds the bodies of the
-- `@event` methods, which run when the event is triggered and again when it is replayed.
-- `V` is the type of the values in the `config` and `metadata` dictionaries.
pub mod Lifecycle
pub mod History
pub mod Invariant
pub mod Content
pub mod Own
mod Tests
use praecepta.Prelude.{
  ℕ, String, Bool, true, false, not, ◌||◌, List, [], ◌∷◌, ◌++◌, Option, none, some, str_eq,
  if◌then◌else◌,
}
use praecepta.Text.{append, truthy}
use praecepta.Dict
use praecepta.Dict.{Dict}
use praecepta.Errors.{Result, ok, err, Error, invalid_state_transition, value_error, ◌>>=◌}
use praecepta.ValueObjects.{TenantStatus, status_value, tenant_slug, tenant_name}

pub record Tenant (V : Type 0) : Type 0 where
  pub id : String
  pub tenant_id : String
  pub name : String
  pub slug : String
  pub status : TenantStatus
  pub config : Dict V
  pub metadata : Dict V
  pub suspension_reason : Option String
  pub suspension_category : Option String
  pub decommission_reason : Option String

-- The events that the commands trigger, with their attributes.
pub data TenantEvent (V : Type 0) : Type 0 where
  activated : (initiated_by correlation_id : String) → TenantEvent V
  suspended : (reason category initiated_by correlation_id : String) → TenantEvent V
  reactivated : (initiated_by correlation_id : String) → TenantEvent V
  decommissioned : (reason initiated_by correlation_id : String) → TenantEvent V
  config_updated :
      (tenant_id config_key : String) (config_value : V) (updated_by : String) → TenantEvent V
  metadata_updated : (metadata : Dict V) (updated_by : String) → TenantEvent V
  data_deleted : (category : String) (entity_count : ℕ) (deleted_by : String) → TenantEvent V

-- `reason or ""`
abbrev pub or_empty : Option String → String
or_empty none = ""
or_empty (some s) = s

-- `config or {}`
abbrev pub or_no_entries {ℓ} : {V : Type ℓ} → Option (Dict V) → Dict V
or_no_entries none = []
or_no_entries (some d) = d

-- `reason if reason else None`
abbrev pub none_if_empty : String → Option String
none_if_empty s = if truthy s then some s else none

-- `self.status == TenantStatus.X.value`
pub status_eq : TenantStatus → TenantStatus → Bool
status_eq TenantStatus.provisioning TenantStatus.provisioning = true
status_eq TenantStatus.active TenantStatus.active = true
status_eq TenantStatus.suspended TenantStatus.suspended = true
status_eq TenantStatus.decommissioned TenantStatus.decommissioned = true
status_eq _ _ = false

-- A `config_value`: a dictionary, or a Pydantic model with what its `model_dump` returns.
pub data ConfigInput (V : Type 0) : Type 0 where
  plain : V → ConfigInput V
  model : V → ConfigInput V

abbrev pub serialized : {V : Type 0} → ConfigInput V → V
serialized (plain v) = v
serialized (model dump) = dump

module _ {V : Type 0} where
  -- The body of each `@event` method.
  unfoldable pub mutate : TenantEvent V → Tenant V → Tenant V
  mutate (activated by corr) t = record t { status = TenantStatus.active }
  mutate (suspended reason category by corr) t = record t {
    status = TenantStatus.suspended;
    suspension_reason = none_if_empty reason;
    suspension_category = none_if_empty category;
  }
  mutate (reactivated by corr) t = record t {
    status = TenantStatus.active;
    suspension_reason = none;
    suspension_category = none;
  }
  mutate (decommissioned reason by corr) t = record t {
    status = TenantStatus.decommissioned;
    decommission_reason = none_if_empty reason;
  }
  mutate (config_updated tenant key value by) t = record t { config = Dict.put t.config key value }
  mutate (metadata_updated metadata by) t = record t { metadata = Dict.update t.metadata metadata }
  mutate (data_deleted category count by) t = t

  -- `raise InvalidStateTransitionError(f"Cannot … tenant …")`
  pub refusal : String → Tenant V → String → Error
  refusal action t expected = invalid_state_transition (
      append (append (append action t.id) (append ": current state is " (status_value t.status)))
        (append ", expected " expected))

  pub request_activate : Tenant V → String → Option String → Result (Option (TenantEvent V))
  unfolding status_eq
  request_activate t by corr =
      if status_eq t.status TenantStatus.active
      then ok none
      else if not (status_eq t.status TenantStatus.provisioning)
      then err (refusal "Cannot activate tenant " t "PROVISIONING")
      else ok (some (activated by (or_empty corr)))

  pub request_suspend :
      Tenant V
      → String
      → Option String
      → Option String
      → Option String
      → Result (Option (TenantEvent V))
  unfolding status_eq
  request_suspend t by reason category corr =
      if status_eq t.status TenantStatus.suspended
      then ok none
      else if not (status_eq t.status TenantStatus.active)
      then err (refusal "Cannot suspend tenant " t "ACTIVE")
      else ok (some (suspended (or_empty reason) (or_empty category) by (or_empty corr)))

  pub request_reactivate : Tenant V → String → Option String → Result (Option (TenantEvent V))
  unfolding status_eq
  request_reactivate t by corr =
      if status_eq t.status TenantStatus.active
      then ok none
      else if not (status_eq t.status TenantStatus.suspended)
      then err (refusal "Cannot reactivate tenant " t "SUSPENDED")
      else ok (some (reactivated by (or_empty corr)))

  pub request_decommission :
      Tenant V → String → Option String → Option String → Result (Option (TenantEvent V))
  unfolding status_eq
  request_decommission t by reason corr =
      if status_eq t.status TenantStatus.decommissioned
      then ok none
      else if not
          (status_eq t.status TenantStatus.active || status_eq t.status TenantStatus.suspended)
      then err (refusal "Cannot decommission tenant " t "ACTIVE or SUSPENDED")
      else ok (some (decommissioned (or_empty reason) by (or_empty corr)))

  pub request_update_config :
      Tenant V → String → ConfigInput V → String → Result (Option (TenantEvent V))
  unfolding status_eq
  request_update_config t key value by =
      if not (status_eq t.status TenantStatus.active)
      then err (refusal "Cannot update config for tenant " t "ACTIVE")
      else ok (some (config_updated t.tenant_id key (serialized value) by))

  pub request_update_metadata : Tenant V → Dict V → String → Result (Option (TenantEvent V))
  unfolding status_eq
  request_update_metadata t metadata by =
      if not (status_eq t.status TenantStatus.active)
      then err (refusal "Cannot update metadata for tenant " t "ACTIVE")
      else ok (some (metadata_updated metadata by))

  pub record_data_deleted : Tenant V → String → ℕ → String → Result (Option (TenantEvent V))
  unfolding status_eq
  record_data_deleted t category count by =
      if not (status_eq t.status TenantStatus.decommissioned)
      then err (refusal "Cannot record data deletion for tenant " t "DECOMMISSIONED")
      else ok (some (data_deleted category count by))

-- One call of a public command.
pub data TenantCommand (V : Type 0) : Type 0 where
  activate : (by : String) (correlation_id : Option String) → TenantCommand V
  suspend : (by : String) (reason category correlation_id : Option String) → TenantCommand V
  reactivate : (by : String) (correlation_id : Option String) → TenantCommand V
  decommission : (by : String) (reason correlation_id : Option String) → TenantCommand V
  update_config : (key : String) (value : ConfigInput V) (by : String) → TenantCommand V
  update_metadata : (metadata : Dict V) (by : String) → TenantCommand V
  data_deleted : (category : String) (count : ℕ) (by : String) → TenantCommand V

module _ {V : Type 0} where
  unfoldable pub request : TenantCommand V → Tenant V → Result (Option (TenantEvent V))
  unfolding request_activate request_suspend request_reactivate request_decommission
      request_update_config request_update_metadata record_data_deleted
  request (activate by corr) t = request_activate t by corr
  request (suspend by reason category corr) t = request_suspend t by reason category corr
  request (reactivate by corr) t = request_reactivate t by corr
  request (decommission by reason corr) t = request_decommission t by reason corr
  request (update_config key value by) t = request_update_config t key value by
  request (update_metadata metadata by) t = request_update_metadata t metadata by
  request (TenantCommand.data_deleted category count by) t = record_data_deleted t category count by

  -- The aggregate after a call, with the events that the call recorded. An exception leaves it alone.
  unfoldable pub after :
      Tenant V → Result (Option (TenantEvent V)) → Tenant V × List (TenantEvent V)
  unfolding mutate
  after t (err e) = (t, [])
  after t (ok none) = (t, [])
  after t (ok (some e)) = (mutate e t, e ∷ [])

  -- The calls of a client that goes on after an exception.
  unfoldable pub run : List (TenantCommand V) → Tenant V → Tenant V × List (TenantEvent V)
  run [] t = (t, [])
  run (c ∷ cs) t = let (t', es) = after t (request c t) in let (u, fs) = run cs t' in (u, es ++ fs)

  -- What the event store rebuilds: the events applied in order.
  unfoldable pub replay : Tenant V → List (TenantEvent V) → Tenant V
  replay t [] = t
  replay t (e ∷ es) = replay (mutate e t) es

  -- the fields that `__init__` sets, once its checks have passed
  abbrev initial : (id name slug : String) → Dict V → Dict V → Tenant V
  initial id name slug config metadata = record {
    id = id;
    tenant_id = slug;
    name = name;
    slug = slug;
    status = TenantStatus.provisioning;
    config = config;
    metadata = metadata;
    suspension_reason = none;
    suspension_category = none;
    decommission_reason = none;
  }

  -- `__init__`: `id` is the identifier that the library draws.
  pub provision :
      (id tenant_id name slug : String) → Option (Dict V) → Option (Dict V) → Result (Tenant V)
  provision id tenant_id name slug config metadata = do
    s ← tenant_slug slug
    n ← tenant_name name
    let t = initial id n s (or_no_entries config) (or_no_entries metadata)
    if str_eq tenant_id s then ok t else err (value_error "tenant_id must match slug")
