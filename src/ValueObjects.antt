-- ===== src/ValueObjects.antt =====
-- tenant_value_objects.py, agent_value_objects.py and user_value_objects.py
-- (packages/foundation-domain): the validated values. Each constructor is a function from the raw
-- text to the stored one, or to the exception; a message is kept by its fixed text. The regular
-- expressions are matchers over code points, where `$` also holds before a final newline.
pub mod Slug
pub mod Names
pub mod Emails
mod Tests
use praecepta.Prelude.{
  ℕ, ◌+◌, ◌≤◌, String, Bool, true, false, not, ◌&&◌, ◌||◌, List, [], ◌∷◌, ◌==◌, ltb, leb,
  if◌then◌else◌,
}
use praecepta.Text.{codes, len, truthy, is_space, strip}
use praecepta.Errors.{Result, ok, err, value_error}

-- `TenantStatus`
pub data TenantStatus : Type 0 where
  provisioning active suspended decommissioned : TenantStatus

-- the string value of a member of the enum
unfoldable pub status_value : TenantStatus → String
status_value provisioning = "PROVISIONING"
status_value active = "ACTIVE"
status_value suspended = "SUSPENDED"
status_value decommissioned = "DECOMMISSIONED"

-- `AgentStatus`
pub data AgentStatus : Type 0 where
  active suspended : AgentStatus

pub agent_status_value : AgentStatus → String
agent_status_value AgentStatus.active = "active"
agent_status_value AgentStatus.suspended = "suspended"

-- `[a-z0-9]`
unfoldable pub is_lower_alnum : ℕ → Bool
is_lower_alnum c = (leb b'a' c && leb c b'z') || (leb b'0' c && leb c b'9')

-- `[a-z0-9-]`
unfoldable pub is_slug_char : ℕ → Bool
unfolding is_lower_alnum
is_slug_char c = is_lower_alnum c || c == b'-'

-- `[a-z0-9_-]`
unfoldable pub is_type_char : ℕ → Bool
unfolding is_lower_alnum
is_type_char c = is_lower_alnum c || c == b'_' || c == b'-'

-- `$`
unfoldable pub at_end : List ℕ → Bool
at_end [] = true
at_end (c ∷ []) = c == 10
at_end (c ∷ d ∷ r) = false

-- `X*[a-z0-9]$`, for a class `X`
unfoldable pub ends_in_alnum : (ℕ → Bool) → List ℕ → Bool
unfolding at_end
ends_in_alnum in_class [] = false
ends_in_alnum in_class (c ∷ r) =
    (is_lower_alnum c && at_end r) || (in_class c && ends_in_alnum in_class r)

-- `_SLUG_PATTERN`
unfoldable pub slug_pattern : List ℕ → Bool
unfolding ends_in_alnum
slug_pattern [] = false
slug_pattern (c ∷ r) = is_lower_alnum c && ends_in_alnum is_slug_char r

-- `_AGENT_TYPE_ID_PATTERN`
unfoldable pub agent_type_pattern : List ℕ → Bool
unfolding ends_in_alnum
agent_type_pattern [] = false
agent_type_pattern (c ∷ r) = is_lower_alnum c && (ends_in_alnum is_type_char r || at_end r)

-- `[^@\s]`
unfoldable pub is_address_char : ℕ → Bool
is_address_char c = not (c == b'@') && not (is_space c)

-- `[^@\s]+$`
pub address_end : List ℕ → Bool
unfolding at_end is_address_char
address_end [] = false
address_end (c ∷ r) = is_address_char c && (at_end r || address_end r)

-- `[^@\s]*\.[^@\s]+$`
pub address_domain : List ℕ → Bool
unfolding address_end
address_domain [] = false
address_domain (c ∷ r) = (c == b'.' && address_end r) || (is_address_char c && address_domain r)

-- `[^@\s]+\.[^@\s]+$`
pub address_host : List ℕ → Bool
unfolding address_domain
address_host [] = false
address_host (c ∷ r) = is_address_char c && address_domain r

-- `[^@\s]*@` and what follows
unfoldable pub address_local : List ℕ → Bool
unfolding address_host
address_local [] = false
address_local (c ∷ r) = (c == b'@' && address_host r) || (is_address_char c && address_local r)

-- `_EMAIL_PATTERN`
unfoldable pub email_pattern : List ℕ → Bool
unfolding address_local
email_pattern [] = false
email_pattern (c ∷ r) = is_address_char c && address_local r

-- `TenantSlug`
unfoldable pub tenant_slug : String → Result String
tenant_slug value =
    if ltb (len value) 2
    then err (value_error "Tenant slug too short")
    else if ltb 63 (len value)
    then err (value_error "Tenant slug too long")
    else if not (slug_pattern (codes value))
    then err (value_error "Invalid tenant slug")
    else ok value

-- A text that is stored stripped: `TenantName` and `DisplayName`.
unfoldable pub bounded_name : String → Result String
bounded_name stripped =
    if not (truthy stripped)
    then err (value_error "name cannot be empty")
    else if ltb 255 (len stripped)
    then err (value_error "name too long")
    else ok stripped

-- `TenantName`
unfoldable pub tenant_name : String → Result String
unfolding bounded_name
tenant_name value = bounded_name (strip value)

-- `DisplayName`
unfoldable pub display_name : String → Result String
unfolding bounded_name
display_name value = bounded_name (strip value)

-- `AgentTypeId`
unfoldable pub agent_type_id : String → Result String
agent_type_id value =
    if not (leb 2 (len value) && leb (len value) 63)
    then err (value_error "Agent type ID must be 2-63 characters")
    else if not (agent_type_pattern (codes value))
    then err (value_error "Invalid agent type ID format")
    else ok value

-- `OidcSub`
unfoldable pub oidc_sub : String → Result String
oidc_sub value =
    if not (truthy value)
    then err (value_error "OIDC sub cannot be empty")
    else if ltb 255 (len value)
    then err (value_error "OIDC sub too long")
    else ok value

-- `Email`
unfoldable pub email : String → Result String
email value =
    if not (truthy value)
    then ok value
    else if ltb 255 (len value)
    then err (value_error "Email too long")
    else if not (email_pattern (codes value))
    then err (value_error "Invalid email format")
    else ok value
