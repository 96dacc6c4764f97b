-- ===== src/Web/Sanitize.antt =====
-- `_sanitize_context` of error_handlers.py (packages/infra-fastapi). `redact` stands for the
-- substitutions of `_redact_sensitive_strings`, which the regular expressions of Python make.
use praecepta.Prelude.{
  String, ◌≡◌, ◌∙◌, refl, Bool, true, false, ◌||◌, Option, none, some, arith, str_eq, eq_iff,
  if◌then◌else◌,
}
use praecepta.Prelude.Int.{ℤ}
use praecepta.Text.{lower_eq}

-- The values of a context. A UUID, a date and a value that JSON does not know are held with the text
-- that `str` or `isoformat` gives, and a float with its digits. The keys of nested fields are texts: `lower` of another
-- key would raise.
mutual
  pub data Datum : Type 0 where
    null : Datum
    boolean : Bool → Datum
    number : ℤ → Datum
    float : (digits : String) → Datum
    text : String → Datum
    uuid : (str : String) → Datum
    datetime : (isoformat : String) → Datum
    unknown : (str : String) → Datum
    sequence : Data → Datum
    mapping : Fields → Datum

  pub data Data : Type 0 where
    no_datum : Data
    datum : Datum → Data → Data

  pub data Fields : Type 0 where
    no_field : Fields
    field_of : (key : String) → Datum → Fields → Fields

unfoldable pub is_sensitive_key : (key : String) → Bool
is_sensitive_key key =
    lower_eq key "password"
    || lower_eq key "secret"
    || lower_eq key "token"
    || lower_eq key "api_key"
    || lower_eq key "apikey"
    || lower_eq key "credential"

-- `sanitized if sanitized else None`
abbrev pub or_none : Fields → Option Fields
or_none no_field = none
or_none (field_of key value fields) = some (field_of key value fields)

abbrev pub as_datum : Option Fields → Datum
as_datum none = null
as_datum (some fields) = mapping fields

module _ (redact : String → String) where
  unfoldable mutual
    -- `_sanitize_value`
    pub sanitize_value : Datum → Datum
    sanitize_value null = null
    sanitize_value (boolean b) = boolean b
    sanitize_value (number n) = number n
    sanitize_value (float x) = float x
    sanitize_value (text s) = text (redact s)
    sanitize_value (uuid s) = text s
    sanitize_value (datetime s) = text s
    sanitize_value (unknown s) = text s
    sanitize_value (sequence values) = sequence (sanitize_data values)
    sanitize_value (mapping fields) = as_datum (or_none (sanitize_fields fields))

    pub sanitize_data : Data → Data
    sanitize_data no_datum = no_datum
    sanitize_data (datum d ds) = datum (sanitize_value d) (sanitize_data ds)

    -- the loop of `_sanitize_context`
    pub sanitize_fields : Fields → Fields
    sanitize_fields no_field = no_field
    sanitize_fields (field_of key value fields) =
        let rest = sanitize_fields fields in
        let clean = sanitize_value value in
        if is_sensitive_key key then rest else field_of key clean rest

  unfoldable pub sanitize_context : (context : Option Fields) → Option Fields
  sanitize_context none = none
  sanitize_context (some fields) = or_none (sanitize_fields fields)

-- No key at any depth is sensitive.
unfoldable mutual
  pub IsClean : Datum → Type 0
  IsClean (sequence values) = AreClean values
  IsClean (mapping fields) = IsCleanMap fields
  IsClean _ = Unit {0}

  pub AreClean : Data → Type 0
  AreClean no_datum = Unit {0}
  AreClean (datum d ds) = IsClean d × AreClean ds

  pub IsCleanMap : Fields → Type 0
  IsCleanMap no_field = Unit {0}
  IsCleanMap (field_of key value fields) =
      (is_sensitive_key key ≡ false) × IsClean value × IsCleanMap fields

abbrev pub IsCleanContext : Option Fields → Type 0
IsCleanContext none = Unit {0}
IsCleanContext (some fields) = IsCleanMap fields

-- The value that a context has for a key.
unfoldable pub find : Fields → (key : String) → Option Datum
find no_field key = none
find (field_of k value fields) key = if str_eq k key then some value else find fields key

abbrev pub find_in : Option Fields → (key : String) → Option Datum
find_in none key = none
find_in (some fields) key = find fields key

as_datum-IsClean : (fields : Fields) → IsCleanMap fields → IsClean (as_datum (or_none fields))
unfolding IsClean
as_datum-IsClean no_field h = tt
as_datum-IsClean (field_of key value fields) h = h

kept_field :
    (key : String) (value : Datum) (rest : Fields) (b : Bool)
    → is_sensitive_key key ≡ b
    → IsClean value
    → IsCleanMap rest
    → IsCleanMap (if b then rest else field_of key value rest)
unfolding IsCleanMap
kept_field key value rest true e clean more = more
kept_field key value rest false e clean more = (e, clean, more)

module _ (redact : String → String) where
  mutual
    unfolding sanitize_value sanitize_data sanitize_fields IsClean AreClean IsCleanMap

    sanitize_value-IsClean : (d : Datum) → IsClean (sanitize_value redact d)
    sanitize_value-IsClean null = tt
    sanitize_value-IsClean (boolean b) = tt
    sanitize_value-IsClean (number n) = tt
    sanitize_value-IsClean (float x) = tt
    sanitize_value-IsClean (text s) = tt
    sanitize_value-IsClean (uuid s) = tt
    sanitize_value-IsClean (datetime s) = tt
    sanitize_value-IsClean (unknown s) = tt
    sanitize_value-IsClean (sequence values) = sanitize_data-AreClean values
    sanitize_value-IsClean (mapping fields) =
        as_datum-IsClean (sanitize_fields redact fields) (sanitize_fields-IsCleanMap fields)

    sanitize_data-AreClean : (ds : Data) → AreClean (sanitize_data redact ds)
    sanitize_data-AreClean no_datum = tt
    sanitize_data-AreClean (datum d ds) = (sanitize_value-IsClean d, sanitize_data-AreClean ds)

    sanitize_fields-IsCleanMap : (fs : Fields) → IsCleanMap (sanitize_fields redact fs)
    sanitize_fields-IsCleanMap no_field = tt
    sanitize_fields-IsCleanMap (field_of key value fields) =
        kept_field key (sanitize_value redact value) (sanitize_fields redact fields)
          (is_sensitive_key key) refl (sanitize_value-IsClean value)
          (sanitize_fields-IsCleanMap fields)

  or_none-IsCleanMap : (fs : Fields) → IsCleanMap fs → IsCleanContext (or_none fs)
  or_none-IsCleanMap no_field h = tt
  or_none-IsCleanMap (field_of key value fields) h = h

  find-or_none : (fs : Fields) (key : String) → find_in (or_none fs) key ≡ find fs key
  unfolding find
  find-or_none no_field key = refl
  find-or_none (field_of k value fields) key = refl

  abbrev cleaned : Option Datum → Option Datum
  cleaned none = none
  cleaned (some d) = some (sanitize_value redact d)

  find-sanitize_fields :
      (fs : Fields) (key : String)
      → find (sanitize_fields redact fs) key
        ≡ (if is_sensitive_key key then none else cleaned (find fs key))
  unfolding find sanitize_fields
  find-sanitize_fields no_field key = ground arith
  find-sanitize_fields (field_of k value fields) key =
      ground (arith, find-sanitize_fields fields key, eq_iff k key)

  -- A sanitised context has no sensitive key at any depth of its mappings and sequences, and under
  -- each other key of the context the sanitised value.
  pub sanitize_context-IsClean :
      (fs : Fields) (key : String)
      → IsCleanContext (sanitize_context redact (some fs))
        × (find_in (sanitize_context redact (some fs)) key
            ≡ (if is_sensitive_key key then none else cleaned (find fs key)))
  unfolding sanitize_context
  sanitize_context-IsClean fs key = (
    or_none-IsCleanMap (sanitize_fields redact fs) (sanitize_fields-IsCleanMap fs),
    find-or_none (sanitize_fields redact fs) key ∙ find-sanitize_fields fs key,
  )
