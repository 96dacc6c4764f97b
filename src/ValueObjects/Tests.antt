-- ===== src/ValueObjects/Tests.antt =====
-- The value objects at concrete inputs.
use praecepta.Prelude.{◌≡◌, refl}
use praecepta.Text.{is_space, strip}
use praecepta.Errors.{ok, err, value_error}
use praecepta.ValueObjects.{
  is_slug_char, is_type_char, tenant_slug, slug_pattern, tenant_name, email, email_pattern,
  agent_type_id, agent_type_pattern,
}

slug_accepted : tenant_slug "acme-corp" ≡ ok "acme-corp"
unfolding tenant_slug slug_pattern is_slug_char
slug_accepted = refl

slug_refused : tenant_slug "acme-" ≡ err (value_error "Invalid tenant slug")
unfolding tenant_slug slug_pattern is_slug_char
slug_refused = refl

type_accepted : agent_type_id "my_test_agent" ≡ ok "my_test_agent"
unfolding agent_type_id agent_type_pattern is_type_char
type_accepted = refl

name_stripped : tenant_name "  Acme " ≡ ok "Acme"
unfolding tenant_name strip
name_stripped = refl

email_accepted : email "ann@example.org" ≡ ok "ann@example.org"
unfolding email email_pattern is_space
email_accepted = refl
