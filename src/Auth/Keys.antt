-- ===== src/Auth/Keys.antt =====
-- api_key_generator.py (packages/infra-auth): `APIKeyGenerator`, and the handlers of issue_api_key.py
-- and rotate_api_key.py (packages/foundation-application). bcrypt is a parameter; the random texts
-- that `secrets.token_urlsafe` draws are arguments.
use praecepta.Prelude.{
  ℕ, ◌≤◌, ◌<◌, String, ◌≡◌, subst, not, Option, none, some, arith, ltb, if◌then◌else◌,
}
use praecepta.Text.{
  append, take, drop, len, starts_with, starts_with-append, drop-append, take-append, len-append,
  len-take, append_assoc,
}
use praecepta.Dict
use praecepta.Dict.{Dict, get-put_self}
use praecepta.Errors.{Result, ok, err, not_found, assertion_error, ◌>>=◌}
use praecepta.Agent.{Agent, AgentEvent, request_issue_api_key, request_rotate_api_key, after}

-- (key_id, full_key)
abbrev pub generate_api_key : (prefix id_token secret_token : String) → String × String
generate_api_key prefix id_token secret_token =
    let key_id = take 8 id_token in (key_id, append (append prefix key_id) secret_token)

unfoldable pub extract_key_parts : (prefix full_key : String) → Option (String × String)
extract_key_parts prefix full_key =
    let body = drop (len prefix) full_key in
    if not (starts_with full_key prefix)
    then none
    else if ltb (len body) 9
    then none
    else some (take 8 body, drop 8 body)

-- The agents of the event store, by their identifier.
abbrev pub Agents : Type 0
Agents = Dict Agent

-- what a command's events make of the saved agent
unfoldable pub save :
    (now agent_id : String) → Agents → Agent → Result (Option AgentEvent) → Result Agents
save now agent_id agents a (err e) = err e
save now agent_id agents a (ok e) = ok (Dict.put agents agent_id (after now a (ok e)))

unfoldable pub get_agent : Agents → (agent_id : String) → Option Agent → Result Agent
get_agent agents agent_id none = err (not_found "Aggregate" agent_id)
get_agent agents agent_id (some a) = ok a

abbrev pub secret_of : Option (String × String) → Result String
secret_of none = err assertion_error
secret_of (some (key_id, secret)) = ok secret

-- `hash` is `bcrypt.hashpw` with the salt drawn.
module _ (hash : String → String) (prefix : String) where
  -- `IssueAPIKeyHandler.handle`: (key_id, full_key) and the agents saved
  unfoldable pub issue_api_key :
      (id_token secret_token created_at agent_id : String)
      → Agents
      → Result ((String × String) × Agents)
  issue_api_key id_token secret_token created_at agent_id agents = do
    let (key_id, full_key) = generate_api_key prefix id_token secret_token
    secret ← secret_of (extract_key_parts prefix full_key)
    agent ← get_agent agents agent_id (Dict.get agents agent_id)
    saved ←
        save created_at agent_id agents agent
          (request_issue_api_key agent key_id (hash secret) created_at)
    ok ((key_id, full_key), saved)

  -- `RotateAPIKeyHandler.handle`; `now` is the time at which the mutator runs.
  unfoldable pub rotate_api_key :
      (id_token secret_token now agent_id : String) → Agents → Result ((String × String) × Agents)
  rotate_api_key id_token secret_token now agent_id agents = do
    let (key_id, full_key) = generate_api_key prefix id_token secret_token
    secret ← secret_of (extract_key_parts prefix full_key)
    agent ← get_agent agents agent_id (Dict.get agents agent_id)
    saved ← save now agent_id agents agent (request_rotate_api_key agent key_id (hash secret))
    ok ((key_id, full_key), saved)

take_front : (n : ℕ) (s t : String) → len s ≡ n → take n (append s t) ≡ s
take_front n s t h = subst (λ m. take m (append s t) ≡ s) h (take-append s t)

drop_front : (n : ℕ) (s t : String) → len s ≡ n → drop n (append s t) ≡ t
drop_front n s t h = subst (λ m. drop m (append s t) ≡ t) h (drop-append s t)

-- The parts of a key that is put together from them.
pub extract-append :
    (prefix key_id secret : String)
    → len key_id ≡ 8
    → 0 < len secret
    → extract_key_parts prefix (append (append prefix key_id) secret) ≡ some (key_id, secret)
unfolding extract_key_parts
extract-append prefix key_id secret h pos =
    rw
      (
        append_assoc prefix key_id secret,
        starts_with-append prefix (append key_id secret),
        drop-append prefix (append key_id secret),
        take_front 8 key_id secret h,
        drop_front 8 key_id secret h,
        len-append key_id secret,
      )
      (ground arith)

-- A generated key has its two parts back, where the drawn texts have the lengths that the library
-- documents: at least eight characters for the identifier, and a secret that is not empty.
pub extract-generate :
    (prefix id_token secret : String)
    → 8 ≤ len id_token
    → 0 < len secret
    → extract_key_parts prefix (generate_api_key prefix id_token secret).1
      ≡ some (take 8 id_token, secret)
extract-generate prefix id_token secret h pos =
    extract-append prefix (take 8 id_token) secret (len-take 8 id_token h) pos
