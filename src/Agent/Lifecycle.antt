-- ===== src/Agent/Lifecycle.antt =====
-- The status of an agent under its commands.
use praecepta.Prelude.{String, ◌≡◌, refl, List, [], ◌∷◌, arith}
use praecepta.ValueObjects.{AgentStatus}
use praecepta.Agent.{Agent, AgentCommand, suspend, reactivate, issue, rotate, request, after, run}

-- The status after a call: suspension and reactivation set it, the other commands keep it.
abbrev pub next_status : AgentCommand → AgentStatus → AgentStatus
next_status (suspend reason) s = AgentStatus.suspended
next_status reactivate s = AgentStatus.active
next_status _ s = s

status_step :
    (now : String) (c : AgentCommand) (a : Agent) (s : AgentStatus)
    → a.status ≡ s
    → (after now a (request c a)).status ≡ next_status c s
unfolding after request
status_step now (suspend reason) a AgentStatus.active e = ground arith
status_step now (suspend reason) a _ e = ground arith
status_step now reactivate a AgentStatus.active e = ground arith
status_step now reactivate a _ e = ground arith
status_step now (issue i h t) a AgentStatus.active e = ground arith
status_step now (issue i h t) a _ e = ground arith
status_step now (rotate i h) a AgentStatus.active e = ground arith
status_step now (rotate i h) a _ e = ground arith

abbrev pub final_status : List (String × AgentCommand) → AgentStatus → AgentStatus
final_status [] s = s
final_status ((now, c) ∷ cs) s = final_status cs (next_status c s)

-- After any calls the status is the one that the last suspension or reactivation asked for, or the
-- first status where there was none.
pub run-status :
    (cs : List (String × AgentCommand)) (a : Agent) → (run cs a).status ≡ final_status cs a.status
unfolding run
run-status [] a = refl
run-status ((now, c) ∷ cs) a =
    rw (← status_step now c a a.status refl) (run-status cs (after now a (request c a)))

-- Every call leaves the keys of a suspended agent as they are.
pub suspended-keys :
    (now : String) (c : AgentCommand) (a : Agent)
    → a.status ≡ AgentStatus.suspended
    → ((after now a (request c a)).active_keys ≡ a.active_keys)
      × ((after now a (request c a)).revoked_keys ≡ a.revoked_keys)
unfolding after request
suspended-keys now (suspend reason) a e = ground arith
suspended-keys now _ a e = ground arith
