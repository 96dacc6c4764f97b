-- ===== src/Agent/Rotation.antt =====
-- Issuing and rotating keys, call by call and over a whole history.
use praecepta.Prelude.{
  String, ◌≡◌, refl, ◌≢◌, ap, sym, ◌∙◌, Bool, true, false, ◌&&◌, List, [], ◌∷◌, ◌++◌, Option, none,
  some, arith, str_eq, eq_iff, if◌then◌else◌,
}
use praecepta.Errors.{Result, ok, err, accepted}
use praecepta.ValueObjects.{AgentStatus}
use praecepta.Agent.{
  Agent, ApiKey, AgentEvent, AgentCommand, api_key_rotated, rotate, revoke, first_active, new_key,
  is_active, request, after, mutate, run,
}
use praecepta.Agent.Keys.{
  key_status, key_status-append, key_status-revoke, count_active, count_active-append,
  count_active-revoke, Distinct, first_active-key_status, or_else,
}

abbrev pub has_key : Option ApiKey → Bool
has_key none = false
has_key (some k) = true

-- A rotation is accepted exactly for an active agent that has an active key.
pub rotate-accepted :
    (a : Agent) (new_key_id new_key_hash : String)
    → accepted (request (rotate new_key_id new_key_hash) a)
      ≡ (is_active a.status && has_key (first_active a.active_keys))
unfolding request
rotate-accepted a new_key_id new_key_hash = ground arith

module _ (a : Agent) (now new_key_id new_key_hash : String) (k : ApiKey) where
  abbrev rotated : Agent
  rotated = after now a (request (rotate new_key_id new_key_hash) a)

  abbrev rotated_keys : List ApiKey
  rotated_keys = revoke k.key_id a.active_keys ++ new_key new_key_id new_key_hash now ∷ []

  module _ (running : a.status ≡ AgentStatus.active)
      (found : first_active a.active_keys ≡ some k) where
    rotated-active_keys : rotated.active_keys ≡ rotated_keys
    unfolding after request
    rotated-active_keys = ground arith

    rotated-rest :
        (rotated.revoked_keys ≡ a.revoked_keys ++ k.key_id ∷ []) × (rotated.status ≡ a.status)
    unfolding after request
    rotated-rest = ground arith

    rotated-key_status :
        (j : String)
        → key_status rotated.active_keys j
          ≡ or_else
              (if str_eq k.key_id j then some "revoked" else key_status a.active_keys j)
              (if str_eq new_key_id j then some "active" else none)
    rotated-key_status j =
        rw
          (
            rotated-active_keys,
            key_status-append (revoke k.key_id a.active_keys) (new_key new_key_id new_key_hash now)
                j,
          )
          (ground (
            arith,
            key_status-revoke k.key_id a.active_keys j,
            first_active-key_status a.active_keys found,
            eq_iff k.key_id j,
          ))

    rotated-count_active :
        Distinct a.active_keys → count_active rotated.active_keys ≡ count_active a.active_keys
    rotated-count_active d = rw rotated-active_keys (
        rw
          (count_active-append (revoke k.key_id a.active_keys)
            (new_key new_key_id new_key_hash now))
          (count_active-revoke a.active_keys d found))

    -- An active agent's rotation revokes its first active key and adds the new key as active; every
    -- other key keeps its status, the number of active keys stays the same when key ids are distinct,
    -- the old id joins the revoked ones, and the agent stays active.
    pub rotate-keys :
        ((j : String)
          → key_status rotated.active_keys j
            ≡ or_else
                (if str_eq k.key_id j then some "revoked" else key_status a.active_keys j)
                (if str_eq new_key_id j then some "active" else none))
        × (Distinct a.active_keys → count_active rotated.active_keys ≡ count_active a.active_keys)
        × (rotated.revoked_keys ≡ a.revoked_keys ++ k.key_id ∷ [])
        × (rotated.status ≡ a.status)
    rotate-keys = (rotated-key_status, rotated-count_active, rotated-rest.0, rotated-rest.1)

mutate-revoked :
    (now : String) (e : AgentEvent) (a : Agent) (j : String)
    → key_status a.active_keys j ≡ some "revoked"
    → key_status (mutate now e a).active_keys j ≡ some "revoked"
unfolding mutate
mutate-revoked now (AgentEvent.suspended reason) a j h = h
mutate-revoked now AgentEvent.reactivated a j h = h
mutate-revoked now (AgentEvent.api_key_issued key_id key_hash created_at) a j h =
    rw (key_status-append a.active_keys (new_key key_id key_hash created_at) j) (rw h)
mutate-revoked now (api_key_rotated n nh old) a j h =
    rw (key_status-append (revoke old a.active_keys) (new_key n nh now) j)
      (ground (arith, key_status-revoke old a.active_keys j))

after-revoked :
    (now : String) (a : Agent) (r : Result (Option AgentEvent)) (j : String)
    → key_status a.active_keys j ≡ some "revoked"
    → key_status (after now a r).active_keys j ≡ some "revoked"
unfolding after
after-revoked now a (err e) j h = h
after-revoked now a (ok none) j h = h
after-revoked now a (ok (some e)) j h = mutate-revoked now e a j h

-- A revoked key stays revoked, whatever calls follow.
pub run-revoked :
    (cs : List (String × AgentCommand)) (a : Agent) (j : String)
    → key_status a.active_keys j ≡ some "revoked"
    → key_status (run cs a).active_keys j ≡ some "revoked"
unfolding run
run-revoked [] a j h = h
run-revoked ((now, c) ∷ cs) a j h =
    run-revoked cs (after now a (request c a)) j (after-revoked now a (request c a) j h)

last_created : List ApiKey → String
last_created [] = ""
last_created (k ∷ []) = k.created_at
last_created (k ∷ l ∷ ks) = last_created (l ∷ ks)

last_created-append : (ks : List ApiKey) (k : ApiKey) → last_created (ks ++ k ∷ []) ≡ k.created_at
unfolding last_created
last_created-append [] k = refl
last_created-append (x ∷ []) k = refl
last_created-append (x ∷ y ∷ ks) k = last_created-append (y ∷ ks) k

-- The body of APIKeyRotated reads the clock, so replaying one event at two times gives two states.
pub rotated-ne-replayed :
    (a : Agent) (now later new_key_id new_key_hash old : String)
    → now ≢ later
    → mutate now (api_key_rotated new_key_id new_key_hash old) a
      ≢ mutate later (api_key_rotated new_key_id new_key_hash old) a
unfolding mutate
rotated-ne-replayed a now later n nh old differ same = differ (
    sym (last_created-append (revoke old a.active_keys) (new_key n nh now))
    ∙ ap (λ (b : Agent). last_created b.active_keys) same
    ∙ last_created-append (revoke old a.active_keys) (new_key n nh later))
