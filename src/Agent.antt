-- ===== src/Agent.antt =====
-- agent.py (packages/domain-identity): the Agent aggregate with its API keys. Commands and `mutate`
-- are as in the tenant's module; the body of `APIKeyRotated` reads the clock, so `mutate` takes the
-- time at which it runs.
pub mod Lifecycle
pub mod Keys
pub mod Rotation
mod Tests
use praecepta.Prelude.{
  String, Bool, true, false, not, List, [], ◌∷◌, ◌++◌, Option, none, some, str_eq, if◌then◌else◌,
}
use praecepta.Text.{append}
use praecepta.Errors.{Result, ok, err, invalid_state_transition, validation, ◌>>=◌}
use praecepta.ValueObjects.{AgentStatus, agent_status_value, agent_type_id, display_name}

-- The dictionary that `active_keys` holds for each key.
pub record ApiKey : Type 0 where
  pub key_id : String
  pub key_hash : String
  pub created_at : String
  pub status : String

pub record Agent : Type 0 where
  pub agent_type_id : String
  pub tenant_id : String
  pub display_name : String
  pub status : AgentStatus
  pub active_keys : List ApiKey
  pub revoked_keys : List String

pub data AgentEvent : Type 0 where
  suspended : (reason : String) → AgentEvent
  reactivated : AgentEvent
  api_key_issued : (key_id key_hash created_at : String) → AgentEvent
  api_key_rotated : (new_key_id new_key_hash revoked_key_id : String) → AgentEvent

-- `__init__`
pub register : (type_id tenant_id name : String) → Result Agent
register type_id tenant_id name = do
  validated_type_id ← agent_type_id type_id
  validated_name ← display_name name
  ok (record {
    agent_type_id = validated_type_id;
    tenant_id = tenant_id;
    display_name = validated_name;
    status = AgentStatus.active;
    active_keys = [];
    revoked_keys = [];
  })

-- The comprehension that marks the old key as revoked.
unfoldable pub revoke : String → List ApiKey → List ApiKey
revoke old [] = []
revoke old (k ∷ ks) =
    (if str_eq k.key_id old then record k { status = "revoked" } else k) ∷ revoke old ks

-- `[k for k in self.active_keys if k["status"] == "active"]`, of which the code reads the first.
unfoldable pub first_active : List ApiKey → Option ApiKey
first_active [] = none
first_active (k ∷ ks) = if str_eq k.status "active" then some k else first_active ks

abbrev pub new_key : (key_id key_hash created_at : String) → ApiKey
new_key key_id key_hash created_at = record {
  key_id = key_id;
  key_hash = key_hash;
  created_at = created_at;
  status = "active";
}

-- The body of each `@event` method, run at the time `now`.
unfoldable pub mutate : (now : String) → AgentEvent → Agent → Agent
unfolding revoke
mutate now (suspended reason) a = record a { status = AgentStatus.suspended }
mutate now reactivated a = record a { status = AgentStatus.active }
mutate now (api_key_issued key_id key_hash created_at) a = record a {
  active_keys = a.active_keys ++ new_key key_id key_hash created_at ∷ [];
}
mutate now (api_key_rotated new_key_id new_key_hash revoked_key_id) a = record a {
  active_keys = revoke revoked_key_id a.active_keys ++ new_key new_key_id new_key_hash now ∷ [];
  revoked_keys = a.revoked_keys ++ revoked_key_id ∷ [];
}

-- `self.status == AgentStatus.X.value`
abbrev pub is_active : AgentStatus → Bool
is_active AgentStatus.active = true
is_active AgentStatus.suspended = false

abbrev pub is_suspended : AgentStatus → Bool
is_suspended AgentStatus.active = false
is_suspended AgentStatus.suspended = true

abbrev or_empty : Option String → String
or_empty none = ""
or_empty (some s) = s

pub request_suspend : Agent → Option String → Result (Option AgentEvent)
request_suspend a reason =
    if is_suspended a.status
    then ok none
    else if not (is_active a.status)
    then err (invalid_state_transition "Cannot suspend agent")
    else ok (some (suspended (or_empty reason)))

pub request_reactivate : Agent → Result (Option AgentEvent)
request_reactivate a =
    if is_active a.status
    then ok none
    else if not (is_suspended a.status)
    then err (invalid_state_transition "Cannot reactivate agent")
    else ok (some reactivated)

unfoldable pub request_issue_api_key :
    Agent → (key_id key_hash created_at : String) → Result (Option AgentEvent)
request_issue_api_key a key_id key_hash created_at =
    if not (is_active a.status)
    then err (
        validation "agent_status"
          (append (append "Cannot issue key for " (agent_status_value a.status)) " agent"))
    else ok (some (api_key_issued key_id key_hash created_at))

-- Which event `request_rotate_api_key` triggers, by the first active key.
abbrev rotation : Option ApiKey → (new_key_id new_key_hash : String) → Result (Option AgentEvent)
rotation none new_key_id new_key_hash = err (validation "active_keys" "No active key to rotate")
rotation (some old) new_key_id new_key_hash =
    ok (some (api_key_rotated new_key_id new_key_hash old.key_id))

pub request_rotate_api_key : Agent → (new_key_id new_key_hash : String) → Result (Option AgentEvent)
unfolding first_active
request_rotate_api_key a new_key_id new_key_hash =
    if not (is_active a.status)
    then err (validation "agent_status" "Cannot rotate key for non-active agent")
    else rotation (first_active a.active_keys) new_key_id new_key_hash

-- One call of a public command.
pub data AgentCommand : Type 0 where
  suspend : (reason : Option String) → AgentCommand
  reactivate : AgentCommand
  issue : (key_id key_hash created_at : String) → AgentCommand
  rotate : (new_key_id new_key_hash : String) → AgentCommand

pub request : AgentCommand → Agent → Result (Option AgentEvent)
unfolding request_suspend request_reactivate request_issue_api_key request_rotate_api_key
request (suspend reason) a = request_suspend a reason
request reactivate a = request_reactivate a
request (issue key_id key_hash created_at) a = request_issue_api_key a key_id key_hash created_at
request (rotate new_key_id new_key_hash) a = request_rotate_api_key a new_key_id new_key_hash

-- The aggregate after a call at the time `now`; an exception leaves it alone.
unfoldable pub after : String → Agent → Result (Option AgentEvent) → Agent
unfolding mutate
after now a (err e) = a
after now a (ok none) = a
after now a (ok (some e)) = mutate now e a

-- The calls of a client that goes on after an exception, each with its time.
pub run : List (String × AgentCommand) → Agent → Agent
run [] a = a
run ((now, c) ∷ cs) a = run cs (after now a (request c a))
