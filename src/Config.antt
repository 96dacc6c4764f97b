-- ===== src/Config.antt =====
-- The configuration of a tenant: the values of config_value_objects.py (packages/foundation-domain)
-- and the table of config_repository.py (packages/domain-tenancy).
pub mod Table
pub mod Service
pub mod Coherence
pub mod Flags
pub mod Policy
pub mod Limits
pub mod Listing
pub mod Hybrid
pub mod Kept
mod Tests
use praecepta.Prelude.{ℕ, String, Bool, true, false, List, [], ◌∷◌, Option, none, some, str_eq, map}
use praecepta.Prelude.Int.{ℤ}
use praecepta.Dict.{Dict}

-- What JSON holds. A number that is not whole is a finite float, `n / 2 ^ k`.
mutual
  pub data Json : Type 0 where
    null : Json
    boolean : Bool → Json
    integer : ℤ → Json
    float : (n : ℤ) (k : ℕ) → Json
    text : String → Json
    array : Items → Json
    object : Members → Json

  pub data Items : Type 0 where
    no_item : Items
    item : Json → Items → Items

  pub data Members : Type 0 where
    no_member : Members
    member : String → Json → Members → Members

-- `dict[str, Any]`: the content of a column of type JSONB
abbrev pub Value : Type 0
Value = Dict Json

-- The models that `SYSTEM_DEFAULTS` holds; the field `type` is the constructor. Of a float its `n`
-- and `k`.
pub data ConfigValue : Type 0 where
  boolean : (value : Bool) → ConfigValue
  integer : (value : ℤ) (min_value max_value : Option ℤ) → ConfigValue
  float : (value : ℤ × ℕ) (min_value max_value : Option (ℤ × ℕ)) → ConfigValue
  string : (value : String) (max_length : Option ℤ) → ConfigValue
  percentage : (value : ℤ) → ConfigValue
  enum : (value : String) (allowed_values : List String) → ConfigValue

abbrev or_null : {A : Type 0} → (A → Json) → Option A → Json
or_null f none = null
or_null f (some a) = f a

abbrev pub texts : List String → Items
texts [] = no_item
texts (s ∷ ss) = item (text s) (texts ss)

abbrev float_of : ℤ × ℕ → Json
float_of (n, k) = Json.float n k

-- `value` of a default
unfoldable pub default_value : ConfigValue → Json
default_value (boolean b) = Json.boolean b
default_value (integer n lo hi) = Json.integer n
default_value (float x lo hi) = float_of x
default_value (string s m) = text s
default_value (percentage n) = Json.integer n
default_value (enum s ss) = text s

-- `model_dump()`: the fields in the order of their declaration
unfoldable pub model_dump : ConfigValue → Value
model_dump (boolean b) = ("type", text "boolean") ∷ ("value", Json.boolean b) ∷ []
model_dump (integer n lo hi) =
    ("type", text "integer")
    ∷ ("value", Json.integer n)
    ∷ ("min_value", or_null Json.integer lo)
    ∷ ("max_value", or_null Json.integer hi)
    ∷ []
model_dump (float x lo hi) =
    ("type", text "float")
    ∷ ("value", float_of x)
    ∷ ("min_value", or_null float_of lo)
    ∷ ("max_value", or_null float_of hi)
    ∷ []
model_dump (string s m) =
    ("type", text "string") ∷ ("value", text s) ∷ ("max_length", or_null Json.integer m) ∷ []
model_dump (percentage n) = ("type", text "percentage") ∷ ("value", Json.integer n) ∷ []
model_dump (enum s ss) =
    ("type", text "enum") ∷ ("value", text s) ∷ ("allowed_values", array (texts ss)) ∷ []
