-- ===== src/Auth/ApiKey.antt =====
-- middleware/api_key_auth.py (packages/infra-auth): `APIKeyAuthMiddleware`. `check` is
-- `bcrypt.checkpw` on the secret and the hash, none where it raises.
use praecepta.Prelude.{
  ◌+◌, String, Bool, true, false, not, List, [], ◌∷◌, Option, none, some, str_eq, ltb,
  if◌then◌else◌,
}
use praecepta.Text.{append, take, drop, len, truthy, starts_with}
use praecepta.Config.{text}
use praecepta.Auth.{Principal, agent, Request, Outcome, next, refuse, is_excluded}
use praecepta.Auth.KeyTable.{KeyTable, KeyRow, lookup_by_key_id}

-- step 4: the refusal of a header, or its key_id and secret
pub data Parsed : Type 0 where
  bad : (message : String) → Parsed
  parts : (key_id secret : String) → Parsed

unfoldable pub parse_header : (prefix header : String) → Parsed
parse_header prefix header =
    if not (starts_with header prefix)
    then bad (append (append "API key must start with '" prefix) "' prefix")
    else if ltb (len header) (len prefix + 8 + 1)
    then bad "API key format is invalid"
    else parts (take 8 (drop (len prefix) header)) (drop (len prefix + 8) header)

-- step 9
abbrev pub key_principal : KeyRow → Principal
key_principal r = record {
  subject = r.agent_id;
  tenant_id = r.tenant_id;
  user_id = r.agent_id;
  roles = text "agent" ∷ [];
  email = none;
  principal_type = agent;
}

-- steps 8 to 11, with what the check of the hash gave
unfoldable pub with_check : KeyRow → Option Bool → Outcome
with_check r none = refuse 401 "invalid_key" "API key validation failed"
with_check r (some false) = refuse 401 "invalid_key" "API key is invalid"
with_check r (some true) = next (some (key_principal r))

module _ (check : (secret key_hash : String) → Option Bool) where
  -- steps 6 and 7
  unfoldable pub with_row : (secret : String) → Option KeyRow → Outcome
  with_row secret none = refuse 401 "invalid_key" "API key is invalid or does not exist"
  with_row secret (some r) =
      if not (str_eq r.status "active")
      then refuse 401 "revoked_key" "API key has been revoked"
      else with_check r (check secret r.key_hash)

  unfoldable pub with_header : Parsed → KeyTable → Outcome
  with_header (bad message) table = refuse 401 "invalid_format" message
  with_header (parts key_id secret) table = with_row secret (lookup_by_key_id table key_id)

  -- steps 2 and 3
  unfoldable pub unauthenticated :
      (prefix : String) → KeyTable → (context : Option Principal) → Request → Outcome
  unauthenticated prefix table (some p) request = next (some p)
  unauthenticated prefix table none request =
      if not (truthy request.api_key)
      then next none
      else with_header (parse_header prefix request.api_key) table

  unfoldable pub dispatch :
      (prefix : String) (excluded : List String)
      → KeyTable
      → (context : Option Principal) → Request
      → Outcome
  dispatch prefix excluded table context request =
      if is_excluded excluded request.path
      then next context
      else unauthenticated prefix table context request
