-- ===== src/Auth/Access.antt =====
-- Who reaches a handler behind both middlewares, API keys before JWTs (their priorities are 100 and
-- 150).
pub mod Admission
use praecepta.Prelude.{
  String, ◌≡◌, ◌⊎◌, inl, inr, refl, Bool, true, false, not, ◌&&◌, List, Option, none, some, arith,
  str_eq, eq_iff, eq_refl, Bool-cases,
}
use praecepta.Text.{truthy, drop}
use praecepta.Errors.{Result, ok, err}
use praecepta.Config.{Json, Value}
use praecepta.Auth.{Principal, Request, Outcome, next, refuse, raise, is_excluded}
use praecepta.Auth.KeyTable.{KeyTable, KeyRow, lookup_by_key_id, update_status, get-update_status}
use praecepta.Auth.ApiKey
use praecepta.Auth.ApiKey.{
  Parsed, bad, parts, parse_header, key_principal, with_check, with_row, with_header,
}
use praecepta.Auth.Jwt
use praecepta.Auth.Jwt.{
  Decoded, decoded, failed, extract_principal, with_principal, with_claims, with_token,
  dev_bypass_claims,
}

-- The configuration of both middlewares.
pub record Setup : Type 0 where
  pub check : (secret key_hash : String) → Option Bool
  pub uuid : String → Option String
  pub str : Json → String
  pub prefix : String
  pub excluded : List String
  pub bypass : Bool
  pub provider : Option (String → Decoded)

module _ (c : Setup) where
  abbrev pub then_jwt : Outcome → Request → Outcome
  then_jwt (next context) request =
      Jwt.dispatch c.uuid c.str c.bypass c.provider c.excluded context request
  then_jwt (refuse status code message) request = refuse status code message
  then_jwt (raise e) request = raise e

  -- The two middlewares in their order, on a request that comes without a principal.
  unfoldable pub authenticate : KeyTable → Request → Outcome
  authenticate table request =
      then_jwt (ApiKey.dispatch c.check c.prefix c.excluded table none request) request

  -- What may let a principal in.
  pub data Admitted (table : KeyTable) (request : Request) : Principal → Type 0 where
    -- a key whose row is active and whose secret the row's hash accepts
    by_key :
        (key_id secret : String) (r : KeyRow)
        → parse_header c.prefix request.api_key ≡ parts key_id secret
        → lookup_by_key_id table key_id ≡ some r
        → r.status ≡ "active"
        → c.check secret r.key_hash ≡ some true
        → Admitted table request (key_principal r)
    -- without an API key, a bearer token that the provider accepts
    by_token :
        (decode : String → Decoded) (v : Value) (p : Principal)
        → truthy request.api_key ≡ false
        → c.provider ≡ some decode
        → decode (drop 7 request.authorization) ≡ decoded v
        → extract_principal c.uuid c.str v ≡ ok p
        → Admitted table request p
    -- the bypass for development, without any header
    by_bypass :
        (p : Principal)
        → truthy request.api_key ≡ false
        → c.bypass ≡ true
        → truthy request.authorization ≡ false
        → extract_principal c.uuid c.str dev_bypass_claims ≡ ok p
        → Admitted table request p
