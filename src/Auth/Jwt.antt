-- ===== src/Auth/Jwt.antt =====
-- middleware/jwt_auth.py and dev_bypass.py (packages/infra-auth): `JWTAuthMiddleware`. `decode` is the
-- key provider with `pyjwt.decode`; `uuid` parses an identifier; `str` is Python's `str`.
use praecepta.Prelude.{
  String, Bool, true, false, not, ◌&&◌, List, [], ◌∷◌, Option, none, some, str_eq, if◌then◌else◌,
}
use praecepta.Prelude.Int.{pos}
use praecepta.Text.{append, drop, lower_eq, truthy, starts_with}
use praecepta.Dict
use praecepta.Errors.{Result, ok, err, value_error, type_error, ◌>>=◌}
use praecepta.Config.{
  Json, null, text, array, object, Items, no_item, item, Members, no_member, member, Value,
}
use praecepta.Config.Flags.{bool, or_default}
use praecepta.Auth.{
  Principal, PrincipalType, user, agent, Request, Outcome, next, refuse, raise, is_excluded,
}

-- `env.lower() == "production"`
unfoldable pub is_production : (environment : String) → Bool
is_production environment = lower_eq environment "production"

abbrev or_development : Option String → String
or_development none = "development"
or_development (some e) = e

-- `ENVIRONMENT` is the variable of the process, if it is set.
unfoldable pub resolve_dev_bypass : (requested : Bool) → (environment : Option String) → Bool
resolve_dev_bypass requested environment =
    if not requested
    then false
    else if is_production (or_development environment)
    then false
    else true

pub data JwtError : Type 0 where
  expired invalid_issuer invalid_audience : JwtError
  missing_claim : (claim : String) → JwtError
  invalid_signature decode_error invalid_token unexpected : JwtError

-- the chain of `except` clauses
unfoldable pub jwt_refusal : JwtError → Outcome
jwt_refusal expired = refuse 401 "token_expired" "Token has expired"
jwt_refusal invalid_issuer = refuse 401 "invalid_claims" "Invalid issuer claim"
jwt_refusal invalid_audience = refuse 401 "invalid_claims" "Invalid audience claim"
jwt_refusal (missing_claim claim) =
    refuse 401 "invalid_claims" (append "Missing required claim: " claim)
jwt_refusal invalid_signature = refuse 401 "invalid_signature" "Token signature verification failed"
jwt_refusal decode_error = refuse 401 "invalid_token" "Token is malformed"
jwt_refusal invalid_token = refuse 401 "invalid_token" "Token validation failed"
jwt_refusal unexpected = refuse 401 "invalid_token" "Token validation failed"

pub data Decoded : Type 0 where
  decoded : Value → Decoded
  failed : JwtError → Decoded

items : Items → List Json
items no_item = []
items (item j js) = j ∷ items js

names : Members → List Json
names no_member = []
names (member k j ms) = text k ∷ names ms

-- `tuple(roles)`, with a single text as one role
unfoldable pub roles_of : Json → Result (List Json)
unfolding items names
roles_of (text s) = ok (text s ∷ [])
roles_of (array js) = ok (items js)
roles_of (object ms) = ok (names ms)
roles_of _ = err type_error

unfoldable pub principal_type_of : Json → PrincipalType
principal_type_of (text s) = if str_eq s "agent" then agent else user
principal_type_of _ = user

abbrev or_null_json : Option Json → Json
or_null_json j = or_default j null

abbrev pub dev_bypass_claims : Value
dev_bypass_claims =
    ("sub", text "00000000-0000-0000-0000-000000000000")
    ∷ ("tenant_id", text "dev-tenant")
    ∷ ("roles", array (item (text "admin") no_item))
    ∷ ("email", text "dev-bypass@localhost")
    ∷ ("iss", text "dev-bypass")
    ∷ ("aud", text "api")
    ∷ ("exp", Json.integer (pos 0))
    ∷ []

abbrev email_of : (str : Json → String) → Option Json → Option String
email_of str none = none
email_of str (some null) = none
email_of str (some j) = some (str j)

module _ (uuid : String → Option String) (str : Json → String) where
  abbrev user_id_of : Json → Option String → Result String
  user_id_of sub (some id) = ok id
  user_id_of sub none = err (value_error (append "JWT 'sub' claim is not a valid UUID: " (str sub)))

  unfoldable pub extract_principal : Value → Result Principal
  extract_principal claims =
      let sub = or_null_json (Dict.get claims "sub") in
      let tenant_id = or_default (Dict.get claims "tenant_id") (text "") in
      if not (bool sub) then err (value_error "JWT missing required claim: sub") else do
        user_id ← user_id_of sub (uuid (str sub))
        if not (bool tenant_id)
            then err (value_error "JWT missing required claim: tenant_id")
            else do
              roles ← roles_of (or_default (Dict.get claims "roles") (array no_item))
              ok (record {
                subject = str sub;
                tenant_id = str tenant_id;
                user_id = user_id;
                roles = roles;
                email = email_of str (Dict.get claims "email");
                principal_type =
                    principal_type_of (or_default (Dict.get claims "principal_type") (text "user"));
              })

  -- Only a ValueError is caught.
  abbrev pub with_principal : Result Principal → Outcome
  with_principal (ok p) = next (some p)
  with_principal (err (value_error message)) = refuse 401 "invalid_claims" message
  with_principal (err e) = raise e

  unfoldable pub with_claims : Decoded → Outcome
  with_claims (failed e) = jwt_refusal e
  with_claims (decoded c) = with_principal (extract_principal c)

  unfoldable pub with_token : (provider : Option (String → Decoded)) → (token : String) → Outcome
  with_token none token = refuse 503 "service_unavailable" "Authentication service not configured"
  with_token (some decode) token = with_claims (decode token)

  -- steps 2 and 3
  unfoldable pub unauthenticated :
      (bypass : Bool) (provider : Option (String → Decoded)) (authorization : String) → Outcome
  unauthenticated bypass provider authorization =
      if bypass && not (truthy authorization)
      then with_principal (extract_principal dev_bypass_claims)
      else if not (truthy authorization)
      then refuse 401 "missing_token" "Authorization header is required"
      else if not (starts_with authorization "Bearer ")
      then refuse 401 "invalid_format" "Authorization header must use Bearer scheme"
      else if not (truthy (drop 7 authorization))
      then refuse 401 "invalid_format" "Bearer token is empty"
      else with_token provider (drop 7 authorization)

  unfoldable pub dispatch :
      (bypass : Bool) (provider : Option (String → Decoded)) (excluded : List String)
      → (context : Option Principal) → Request
      → Outcome
  dispatch bypass provider excluded (some p) request = next (some p)
  dispatch bypass provider excluded none request =
      if is_excluded excluded request.path
      then next none
      else unauthenticated bypass provider request.authorization
