-- ===== src/Web/Tests.antt =====
-- The web layer at concrete inputs.
use praecepta.Prelude.{◌≡◌, refl, some}
use praecepta.Web.Sanitize.{
  Datum, Fields, text, uuid, sequence, mapping, no_datum, datum, no_field, field_of,
  is_sensitive_key, sanitize_value, sanitize_context, sanitize_context-IsClean, IsCleanContext,
  find, find_in,
}

abbrev context : Fields
context = field_of "tenant_id" (text "acme") (
    field_of "Password" (text "hunter2") (
      field_of "requests"
        (sequence (datum (mapping (field_of "token" (uuid "t-1") no_field)) no_datum)) no_field))

sanitized :
    sanitize_context (λ s. s) (some context)
    ≡ some (
        field_of "tenant_id"
          (text "acme")
          (field_of "requests" (sequence (datum Datum.null no_datum)) no_field))
unfolding sanitize_context sanitize_value is_sensitive_key
sanitized = refl

sanitize_context-IsClean_example :
    IsCleanContext (sanitize_context (λ s. s) (some context))
    × (find_in (sanitize_context (λ s. s) (some context)) "tenant_id" ≡ some (text "acme"))
unfolding sanitize_value is_sensitive_key find
sanitize_context-IsClean_example = sanitize_context-IsClean (λ s. s) context "tenant_id"
