-- ===== src/Auth/KeyTable.antt =====
-- agent_api_key_repository.py and projections/agent_api_key.py (packages/domain-identity): the table
-- of the keys, each SQL statement as a function of it, and the projection that fills it. No condition
-- reads `created_at` and `revoked_at`, which are left out.
pub mod Rotated
use praecepta.Prelude.{
  String, ◌≡◌, refl, false, List, [], ◌∷◌, Option, none, some, arith, str_eq, eq_iff, eq_refl,
  if◌then◌else◌,
}
use praecepta.Dict
use praecepta.Dict.{Dict}
use praecepta.Errors.{Result, ok, err, attribute_error, Error, ◌>>=◌}
use praecepta.Agent.{AgentEvent, suspended, reactivated, api_key_issued, api_key_rotated}

pub record KeyRow : Type 0 where
  pub agent_id : String
  pub tenant_id : String
  pub key_hash : String
  pub status : String

abbrev pub KeyTable : Type 0
KeyTable = Dict KeyRow

-- INSERT … ON CONFLICT (key_id) DO UPDATE SET key_hash, status
unfoldable pub upsert : KeyTable → (key_id agent_id tenant_id key_hash status : String) → KeyTable
upsert [] key_id agent_id tenant_id key_hash status =
    (
      key_id,
      record { agent_id = agent_id; tenant_id = tenant_id; key_hash = key_hash; status = status },
    )
    ∷ []
upsert ((k, r) ∷ d) key_id agent_id tenant_id key_hash status =
    let rest = upsert d key_id agent_id tenant_id key_hash status in
    if str_eq k key_id
    then (k, record r { key_hash = key_hash; status = status }) ∷ d
    else (k, r) ∷ rest

unfoldable pub update_status : KeyTable → (key_id status : String) → KeyTable
update_status [] key_id status = []
update_status ((k, r) ∷ d) key_id status =
    (k, if str_eq k key_id then record r { status = status } else r) ∷ update_status d key_id status

-- `truncate`, for `clear_read_model`
unfoldable pub truncate : KeyTable → KeyTable
truncate d = []

unfoldable pub lookup_by_key_id : KeyTable → (key_id : String) → Option KeyRow
lookup_by_key_id d key_id = Dict.get d key_id

-- A domain event: the name of its class, the identifier of its aggregate, and its other attributes.
pub record DomainEvent : Type 0 where
  pub class_name : String
  pub originator_id : String
  pub attributes : Dict String

-- The events of an agent have the parameters of their mutators as attributes.
unfoldable pub event_of : (agent_id : String) → AgentEvent → DomainEvent
event_of agent_id (suspended reason) = record {
  class_name = "Suspended";
  originator_id = agent_id;
  attributes = ("reason", reason) ∷ [];
}
event_of agent_id reactivated = record {
  class_name = "Reactivated";
  originator_id = agent_id;
  attributes = [];
}
event_of agent_id (api_key_issued key_id key_hash created_at) = record {
  class_name = "APIKeyIssued";
  originator_id = agent_id;
  attributes = ("key_id", key_id) ∷ ("key_hash", key_hash) ∷ ("created_at", created_at) ∷ [];
}
event_of agent_id (api_key_rotated new_key_id new_key_hash revoked_key_id) = record {
  class_name = "APIKeyRotated";
  originator_id = agent_id;
  attributes =
      ("new_key_id", new_key_id)
      ∷ ("new_key_hash", new_key_hash)
      ∷ ("revoked_key_id", revoked_key_id)
      ∷ [];
}

-- reading an attribute, which raises where there is none of the name
abbrev pub present_or_raise : (name : String) → Option String → Result String
present_or_raise name none = err (attribute_error name)
present_or_raise name (some value) = ok value

unfoldable pub attribute : DomainEvent → (name : String) → Result String
attribute e name = present_or_raise name (Dict.get e.attributes name)

-- `self._repo.upsert(...)` with its arguments, which are evaluated first and in this order
unfoldable pub insert_key : DomainEvent → (id_name hash_name : String) → KeyTable → Result KeyTable
insert_key e id_name hash_name d = do
  key_id ← attribute e id_name
  tenant_id ← attribute e "tenant_id"
  key_hash ← attribute e hash_name
  ok (upsert d key_id e.originator_id tenant_id key_hash "active")

-- the outcome of a handler, and the table that it leaves
abbrev pub left_by : KeyTable → Result KeyTable → Result (Unit {0}) × KeyTable
left_by d (err raised) = (err raised, d)
left_by d (ok d') = (ok tt, d')

unfoldable pub handle_issued : DomainEvent → KeyTable → Result (Unit {0}) × KeyTable
handle_issued e d = left_by d (insert_key e "key_id" "key_hash" d)

-- `_handle_rotated` after the evaluation of `event.revoked_key_id`; the first statement is committed on its own
unfoldable pub revoke_and_insert :
    DomainEvent → (revoked_key_id : Result String) → KeyTable → Result (Unit {0}) × KeyTable
revoke_and_insert e (err raised) d = (err raised, d)
revoke_and_insert e (ok revoked_key_id) d =
    let d' = update_status d revoked_key_id "revoked" in
    left_by d' (insert_key e "new_key_id" "new_key_hash" d')

unfoldable pub handle_rotated : DomainEvent → KeyTable → Result (Unit {0}) × KeyTable
handle_rotated e d = revoke_and_insert e (attribute e "revoked_key_id") d

-- `process_event`, without the record of the position
unfoldable pub process_event : DomainEvent → KeyTable → Result (Unit {0}) × KeyTable
process_event e d =
    if str_eq e.class_name "APIKeyIssued"
    then handle_issued e d
    else if str_eq e.class_name "APIKeyRotated"
    then handle_rotated e d
    else (ok tt, d)

abbrev pub with_status : String → Option KeyRow → Option KeyRow
with_status status none = none
with_status status (some r) = some (record r { status = status })

pub get-update_status :
    (d : KeyTable) (k status j : String)
    → Dict.get (update_status d k status) j
      ≡ (if str_eq k j then with_status status (Dict.get d j) else Dict.get d j)
unfolding update_status Dict.get
get-update_status [] k status j = ground arith
get-update_status ((i, r) ∷ d) k status j =
    ground (arith, get-update_status d k status j, eq_iff i k, eq_iff i j, eq_iff k j)

pub get-upsert_other :
    (d : KeyTable) (k agent tenant hash status j : String)
    → str_eq k j ≡ false
    → Dict.get (upsert d k agent tenant hash status) j ≡ Dict.get d j
unfolding upsert Dict.get
get-upsert_other [] k agent tenant hash status j h = ground (arith, h)
get-upsert_other ((i, r) ∷ d) k agent tenant hash status j h =
    ground
      (arith, get-upsert_other d k agent tenant hash status j h, eq_iff i k, eq_iff i j, eq_iff k j)

pub get-upsert_new :
    (d : KeyTable) (k agent tenant hash status : String)
    → Dict.get d k ≡ none
    → Dict.get (upsert d k agent tenant hash status) k
      ≡ some (record { agent_id = agent; tenant_id = tenant; key_hash = hash; status = status })
unfolding upsert Dict.get
get-upsert_new [] k agent tenant hash status h = rw (eq_refl k) refl
get-upsert_new ((i, r) ∷ d) k agent tenant hash status h =
    ground (arith, get-upsert_new d k agent tenant hash status)
