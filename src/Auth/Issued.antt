-- ===== src/Auth/Issued.antt =====
-- The keys that the generator makes, at the middleware that reads them.
use praecepta.Prelude.{
  ℕ, zero, suc, ◌+◌, ◌≤◌, ◌<◌, String, ◌≡◌, refl, sym, ap, ◌∙◌, true, false, [], ◌∷◌, ◌++◌, Option,
  none, some, arith, Bool-cases, inl, inr,
}
use praecepta.Text.{append, drop, len, truthy, starts_with, starts_with-split, len-append}
use praecepta.Dict
use praecepta.Dict.{Dict}
use praecepta.Errors.{ok}
use praecepta.ValueObjects.{AgentStatus}
use praecepta.Agent.{Agent, new_key, request_issue_api_key, mutate, after}
use praecepta.Auth.{next, is_excluded}
use praecepta.Auth.Keys.{
  Agents, generate_api_key, extract_key_parts, extract-generate, issue_api_key, save, get_agent,
}
use praecepta.Auth.KeyTable.{KeyTable, lookup_by_key_id, upsert, get-upsert_new}
use praecepta.Auth.ApiKey
use praecepta.Auth.ApiKey.{
  Parsed, bad, parts, parse_header, key_principal, with_check, with_row, with_header,
}
use praecepta.Auth.Jwt
use praecepta.Auth.Access.{Setup, authenticate}

abbrev pub parts_of : Parsed → Option (String × String)
parts_of (bad message) = none
parts_of (parts key_id secret) = some (key_id, secret)

add_zero : (m : ℕ) → 0 + m ≡ m
add_zero m = omega arith

add_suc : (n m : ℕ) → suc n + m ≡ suc (n + m)
add_suc n m = omega arith

drop_empty : (n : ℕ) → drop n String.[] ≡ String.[]
drop_empty zero = refl
drop_empty (suc n) = refl

drop-drop : (n m : ℕ) (s : String) → drop (n + m) s ≡ drop m (drop n s)
drop-drop zero m s = ap (λ k. drop k s) (add_zero m)
drop-drop (suc n) m String.[] = drop_empty (suc n + m) ∙ sym (drop_empty m)
drop-drop (suc n) m (String.◌∷◌ c s) =
    ap (λ k. drop k (String.◌∷◌ c s)) (add_suc n m) ∙ drop-drop n m s

len-split : (s p : String) → starts_with s p ≡ true → len s ≡ len p + len (drop (len p) s)
len-split s p h = ap len (sym (starts_with-split s p h)) ∙ len-append p (drop (len p) s)

-- The middleware and the generator read the same two parts out of any header, or none.
pub parse-extract :
    (prefix header : String)
    → parts_of (parse_header prefix header) ≡ extract_key_parts prefix header
unfolding parse_header extract_key_parts
parse-extract prefix header = elim (Bool-cases (starts_with header prefix)) [
  | inr e ↦ rw e refl
  | inl e ↦ ground (arith, e, len-split header prefix e, drop-drop (len prefix) 8 header)
]

pub truthy-len : (s : String) → 0 < len s → truthy s ≡ true
truthy-len String.[] h = ground arith
truthy-len (String.◌∷◌ c s) h = refl

parts_of-eq : (q : Parsed) (k s : String) → parts_of q ≡ some (k, s) → q ≡ parts k s
parts_of-eq (bad m) k s h = cc h
parts_of-eq (parts a b) k s h = ground arith

-- The agent after a key was issued.
abbrev pub with_key : Agent → (key_id key_hash created_at : String) → Agent
with_key a key_id key_hash created_at = record a {
  active_keys = a.active_keys ++ new_key key_id key_hash created_at ∷ [];
}

module _ (hash : String → String) (prefix id_token secret created agent_id : String) where
  abbrev key_id : String
  key_id = (generate_api_key prefix id_token secret).0

  abbrev full_key : String
  full_key = (generate_api_key prefix id_token secret).1

  issue_api_key-ok :
      (agents : Agents) (a : Agent)
      → 8 ≤ len id_token
      → 0 < len secret
      → Dict.get agents agent_id ≡ some a
      → a.status ≡ AgentStatus.active
      → issue_api_key hash prefix id_token secret created agent_id agents
        ≡ ok
            ((key_id, full_key), Dict.put agents agent_id (with_key a key_id (hash secret) created))
  unfolding issue_api_key get_agent save request_issue_api_key after mutate
  issue_api_key-ok agents a h pos found active =
      rw (extract-generate prefix id_token secret h pos, found, active) refl

  -- The middleware accepts a new key where its row is in the table.
  accepts :
      (c : Setup) (tenant path authorization : String) (table : KeyTable)
      → c.prefix ≡ prefix
      → 8 ≤ len id_token
      → 0 < len secret
      → c.check secret (hash secret) ≡ some true
      → is_excluded c.excluded path ≡ false
      → Dict.get table key_id ≡ none
      → authenticate c
          (upsert table key_id agent_id tenant (hash secret) "active")
          (record { path = path; api_key = full_key; authorization = authorization })
        ≡ next (
            some (
              key_principal (record {
                agent_id = agent_id;
                tenant_id = tenant;
                key_hash = hash secret;
                status = "active";
              })))
  unfolding authenticate ApiKey.dispatch ApiKey.unauthenticated with_header with_row with_check
      Jwt.dispatch lookup_by_key_id
  accepts c tenant path authorization table same h pos good inside free =
      rw
        (
          inside,
          truthy-len full_key (omega (arith, len-append (append prefix key_id) secret)),
          same,
          parts_of-eq (parse_header prefix full_key) key_id secret
              (parse-extract prefix full_key ∙ extract-generate prefix id_token secret h pos),
          get-upsert_new table key_id agent_id tenant (hash secret) "active" free,
          good,
        )
        refl

  -- Issuing a key to an active agent returns it, saves the agent with the hash of its secret, and with
  -- the row of that key in the table the middlewares let a request with the returned key through as
  -- the agent, where bcrypt accepts a secret against its own hash, the drawn texts have their
  -- documented lengths, the path is not excluded and the identifier is new.
  pub issue-authenticate :
      (c : Setup) (agents : Agents) (a : Agent) (tenant path authorization : String)
      (table : KeyTable)
      → c.prefix ≡ prefix
      → 8 ≤ len id_token
      → 0 < len secret
      → c.check secret (hash secret) ≡ some true
      → is_excluded c.excluded path ≡ false
      → Dict.get table key_id ≡ none
      → Dict.get agents agent_id ≡ some a
      → a.status ≡ AgentStatus.active
      → (issue_api_key hash prefix id_token secret created agent_id agents
          ≡ ok (
            (key_id, full_key),
            Dict.put agents agent_id (with_key a key_id (hash secret) created),
          ))
        × (authenticate c
              (upsert table key_id agent_id tenant (hash secret) "active")
              (record { path = path; api_key = full_key; authorization = authorization })
            ≡ next (
                some (
                  key_principal (record {
                    agent_id = agent_id;
                    tenant_id = tenant;
                    key_hash = hash secret;
                    status = "active";
                  }))))
  issue-authenticate c agents a tenant path authorization table same h pos good inside free found
        active =
      (
        issue_api_key-ok agents a h pos found active,
        accepts c tenant path authorization table same h pos good inside free,
      )
