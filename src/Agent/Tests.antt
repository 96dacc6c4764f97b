-- ===== src/Agent/Tests.antt =====
-- The agent at concrete inputs.
use praecepta.Prelude.{String, ◌≡◌, refl, ◌&&◌, List, [], ◌∷◌, none, some, str_eq, if◌then◌else◌}
use praecepta.Errors.{ok, accepted}
use praecepta.ValueObjects.{
  AgentStatus, agent_type_id, agent_type_pattern, is_type_char, display_name,
}
use praecepta.Text.{strip}
use praecepta.Agent.{
  Agent, ApiKey, AgentCommand, suspend, issue, rotate, request, after, run, new_key, first_active,
  is_active, register,
}
use praecepta.Agent.Keys.{key_status, count_active, Distinct, or_else}
use praecepta.Agent.Rotation.{has_key, rotate-accepted, rotate-keys}

abbrev key_a : ApiKey
key_a = new_key "aaaaaaaa" "hash-a" "2025-01-01"

abbrev bot : Agent
bot = record {
  agent_type_id = "workflow-bot";
  tenant_id = "acme";
  display_name = "Bot";
  status = AgentStatus.active;
  active_keys = key_a ∷ [];
  revoked_keys = [];
}

abbrev calls : List (String × AgentCommand)
calls =
    ("t1", rotate "bbbbbbbb" "hash-b")
    ∷ ("t2", suspend none)
    ∷ ("t3", issue "cccccccc" "hash-c" "t3")
    ∷ []

bot_registered : register "workflow-bot" "acme" " Bot " ≡ ok (record bot { active_keys = [] })
unfolding register agent_type_id agent_type_pattern is_type_char display_name strip
bot_registered = refl

calls-keys :
    (run calls bot).active_keys
    ≡ record key_a { status = "revoked" } ∷ new_key "bbbbbbbb" "hash-b" "t1" ∷ []
unfolding run request after
calls-keys = refl

rotate-accepted_example :
    accepted (request (rotate "bbbbbbbb" "hash-b") bot)
    ≡ (is_active bot.status && has_key (first_active bot.active_keys))
rotate-accepted_example = rotate-accepted bot "bbbbbbbb" "hash-b"

rotate-keys_example :
    ((j : String)
      → key_status (after "t1" bot (request (rotate "bbbbbbbb" "hash-b") bot)).active_keys j
        ≡ or_else
            (if str_eq "aaaaaaaa" j then some "revoked" else key_status bot.active_keys j)
            (if str_eq "bbbbbbbb" j then some "active" else none))
    × (Distinct bot.active_keys
        → count_active (after "t1" bot (request (rotate "bbbbbbbb" "hash-b") bot)).active_keys
          ≡ count_active bot.active_keys)
    × ((after "t1" bot (request (rotate "bbbbbbbb" "hash-b") bot)).revoked_keys ≡ "aaaaaaaa" ∷ [])
    × ((after "t1" bot (request (rotate "bbbbbbbb" "hash-b") bot)).status ≡ AgentStatus.active)
unfolding first_active
rotate-keys_example = rotate-keys bot "t1" "bbbbbbbb" "hash-b" key_a refl refl
