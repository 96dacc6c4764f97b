-- ===== src/Auth/Tests.antt =====
-- Authentication at concrete inputs.
use praecepta.Prelude.{
  String, ◌≡◌, refl, arith, Bool, true, false, [], ◌∷◌, Option, none, some, str_eq, if◌then◌else◌,
}
use praecepta.Text.{append}
use praecepta.Dict
use praecepta.Errors.{ok, err, attribute_error}
use praecepta.ValueObjects.{AgentStatus}
use praecepta.Agent.{Agent, api_key_rotated}
use praecepta.Config.{Json, text}
use praecepta.Auth.{Principal, Request, next, refuse, is_excluded}
use praecepta.Auth.Keys.{Agents, issue_api_key}
use praecepta.Auth.KeyTable.{
  KeyTable, KeyRow, lookup_by_key_id, upsert, DomainEvent, event_of, process_event, handle_rotated,
  revoke_and_insert, insert_key, attribute, with_status,
}
use praecepta.Auth.KeyTable.Rotated.{with_tenant, new_row, process_event-rotated}
use praecepta.Auth.ApiKey
use praecepta.Auth.ApiKey.{parse_header, key_principal, with_check, with_row, with_header}
use praecepta.Auth.Jwt
use praecepta.Auth.Access.{Setup, authenticate, Admitted}
use praecepta.Auth.Access.Admission.{authenticate-Admitted, authenticate-production}
use praecepta.Auth.Pkce.{PkceData}
use praecepta.Auth.Issued.{with_key, issue-authenticate}

-- A hash that keeps the text, and its check.
abbrev keep : String → String
keep secret = append "$2b$" secret

abbrev same_hash : String → String → Option Bool
same_hash secret key_hash = some (str_eq (append "$2b$" secret) key_hash)

abbrev show : Json → String
show (text s) = s
show _ = ""

abbrev setup : Setup
setup = record {
  check = same_hash;
  uuid = λ s. some s;
  str = show;
  prefix = "pk_";
  excluded = "/health" ∷ "/docs" ∷ [];
  bypass = false;
  provider = none;
}

abbrev robot : Agent
robot = record {
  agent_type_id = "crawler";
  tenant_id = "acme";
  display_name = "Crawler";
  status = AgentStatus.active;
  active_keys = [];
  revoked_keys = [];
}

abbrev key_row : KeyRow
key_row = record {
  agent_id = "a-1";
  tenant_id = "acme";
  key_hash = "$2b$secret";
  status = "active";
}

abbrev keys : KeyTable
keys = ("12345678", key_row) ∷ []

abbrev with_api_key : Request
with_api_key = record { path = "/orders"; api_key = "pk_12345678secret"; authorization = "" }

let_in : authenticate setup keys with_api_key ≡ next (some (key_principal key_row))
unfolding authenticate is_excluded ApiKey.dispatch ApiKey.unauthenticated with_header with_row
    with_check lookup_by_key_id parse_header Jwt.dispatch Dict.get
let_in = refl

authenticate-Admitted_example :
    (p : Principal) × (some (key_principal key_row) ≡ some p) × Admitted setup keys with_api_key p
unfolding is_excluded
authenticate-Admitted_example =
    authenticate-Admitted setup keys with_api_key (some (key_principal key_row)) refl let_in

authenticate-production_example :
    authenticate setup keys (record { path = "/orders"; api_key = ""; authorization = "" })
    ≡ refuse 401 "missing_token" "Authorization header is required"
unfolding is_excluded Jwt.resolve_dev_bypass Jwt.is_production
authenticate-production_example =
    authenticate-production setup true "Production" "/orders" keys refl refl refl

abbrev agents : Agents
agents = ("a-1", robot) ∷ []

issue-authenticate_example :
    (issue_api_key keep "pk_" "abcdefgh" "secret" "now" "a-1" agents
      ≡ ok (
        ("abcdefgh", "pk_abcdefghsecret"),
        Dict.put agents "a-1" (with_key robot "abcdefgh" "$2b$secret" "now"),
      ))
    × (authenticate setup
          (upsert keys "abcdefgh" "a-1" "acme" "$2b$secret" "active")
          (record { path = "/orders"; api_key = "pk_abcdefghsecret"; authorization = "" })
        ≡ next (some (key_principal key_row)))
unfolding is_excluded Dict.get
issue-authenticate_example =
    issue-authenticate keep "pk_" "abcdefgh" "secret" "now" "a-1" setup agents robot "acme"
      "/orders" "" keys refl (omega arith) (omega arith) refl refl refl refl refl

-- the event of an agent, which has no tenant, and one that has
abbrev rotation : DomainEvent
rotation = event_of "a-1" (api_key_rotated "87654321" "$2b$other" "12345678")

abbrev rotation_for_tenant : DomainEvent
rotation_for_tenant = record rotation { attributes = ("tenant_id", "acme") ∷ rotation.attributes }

abbrev one_key : KeyTable
one_key =
    (
      "12345678",
      record { agent_id = "a-1"; tenant_id = "acme"; key_hash = "$2b$secret"; status = "active" },
    )
    ∷ []

lost_rotation : (process_event rotation one_key).0 ≡ err (attribute_error "tenant_id")
unfolding process_event event_of handle_rotated revoke_and_insert insert_key attribute Dict.get
lost_rotation = refl

process_event-rotated_example :
    ((process_event rotation_for_tenant one_key).0
      ≡ with_tenant (Dict.get rotation_for_tenant.attributes "tenant_id"))
    × ((j : String)
        → lookup_by_key_id (process_event rotation_for_tenant one_key).1 j ≡ (
            if str_eq "87654321" j
            then new_row "a-1" "$2b$other" (Dict.get rotation_for_tenant.attributes "tenant_id")
            else if str_eq "12345678" j
            then with_status "revoked" (lookup_by_key_id one_key j)
            else lookup_by_key_id one_key j))
unfolding event_of Dict.get lookup_by_key_id
process_event-rotated_example =
    process_event-rotated rotation_for_tenant one_key "87654321" "$2b$other" "12345678" refl refl
      refl refl refl refl

abbrev session : PkceData
session = record { code_verifier = "v-1"; redirect_uri = "https://app/cb"; created_at = "1.5" }
