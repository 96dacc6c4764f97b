-- ===== src/Auth.antt =====
-- Authentication (packages/infra-auth): what the two middlewares exchange. A principal is that of
-- foundation/domain/principal.py; an identifier of type UUID is its text.
pub mod Keys
pub mod KeyTable
pub mod ApiKey
pub mod Jwt
pub mod Access
pub mod Issued
pub mod Pkce
mod Tests
use praecepta.Prelude.{ℕ, String, Bool, true, false, ◌||◌, List, [], ◌∷◌, Option, none, some}
use praecepta.Text.{starts_with}
use praecepta.Errors.{Error}
use praecepta.Config.{Json}

pub data PrincipalType : Type 0 where
  user agent : PrincipalType

-- The roles of a JWT are whatever its claim lists.
pub record Principal : Type 0 where
  pub subject : String
  pub tenant_id : String
  pub user_id : String
  pub roles : List Json
  pub email : Option String
  pub principal_type : PrincipalType

-- What the middlewares read of a request; an absent header is the empty text.
pub record Request : Type 0 where
  pub path : String
  pub api_key : String
  pub authorization : String

-- The end of a `dispatch`: the next handler runs, with the principal in its context, or a response
-- with a status, an error code and a message, or an exception that the middleware does not catch.
pub data Outcome : Type 0 where
  next : (principal : Option Principal) → Outcome
  refuse : (status_code : ℕ) (error_code message : String) → Outcome
  raise : Error → Outcome

-- `any(path.startswith(prefix) for prefix in prefixes)`
unfoldable pub is_excluded : (prefixes : List String) → (path : String) → Bool
is_excluded [] path = false
is_excluded (p ∷ ps) path = starts_with path p || is_excluded ps path
