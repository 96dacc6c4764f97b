-- ===== src/Errors.antt =====
-- exceptions.py (packages/foundation-domain): the domain exceptions, each with its error code, and
-- the outcome of a call that may raise.
use praecepta.Prelude.{◌⊎◌, inl, inr, ℕ, String, ◌≡◌, refl, Bool, true, false}
use praecepta.Prelude.Int.{ℤ}

-- A raised exception: the domain classes, and the ones of Python that the code raises itself.
pub data Error : Type 0 where
  -- resource type, resource id
  not_found : String → String → Error
  -- field, reason
  validation : String → String → Error
  conflict : String → Error
  invalid_state_transition : String → Error
  -- feature key, tenant
  feature_disabled : String → String → Error
  -- message, auth error, error code
  authentication : String → String → String → Error
  authorization : String → Error
  -- resource, limit, current
  resource_limit_exceeded : String → ℤ → ℤ → Error
  -- codeintel's BudgetExceededError: budget, min_required
  budget_exceeded : ℤ → ℕ → Error
  -- codeintel's CodeIntelError: message
  code_intel_error : String → Error
  value_error runtime_error : String → Error
  index_error type_error data_error unicode_error : Error
  attribute_error : String → Error
  assertion_error : Error

-- The class attribute `error_code`; the exceptions of Python have none.
unfoldable pub error_code : Error → String
error_code (not_found t i) = "RESOURCE_NOT_FOUND"
error_code (validation f r) = "VALIDATION_ERROR"
error_code (conflict r) = "CONFLICT"
error_code (invalid_state_transition m) = "INVALID_STATE_TRANSITION"
error_code (feature_disabled k t) = "FEATURE_DISABLED"
error_code (authentication m a c) = c
error_code (authorization m) = "AUTHORIZATION_ERROR"
error_code (resource_limit_exceeded r l c) = "RESOURCE_LIMIT_EXCEEDED"
error_code (budget_exceeded b m) = "CODE_INTEL_BUDGET_EXCEEDED"
error_code (code_intel_error m) = "CODE_INTEL_ERROR"
error_code _ = ""

-- `isinstance(e, ConflictError)`: a refused transition is a conflict too.
unfoldable pub is_conflict : Error → Bool
is_conflict (conflict r) = true
is_conflict (invalid_state_transition m) = true
is_conflict _ = false

-- What a call gives back: the exception that it raised, or its value.
pub data Result {ℓ} (V : Type ℓ) : Type ℓ where
  err : (raised : Error) → Result V
  ok : (value : V) → Result V

-- The statements after one that may raise.
infixl 5 ◌>>=◌
abbrev pub ◌>>=◌ {ℓ ℓ'} : {V : Type ℓ} {W : Type ℓ'} → Result V → (next : V → Result W) → Result W
err raised >>= next = err raised
ok value >>= next = next value

-- Whether the call returned.
abbrev pub accepted {ℓ} : {V : Type ℓ} → Result V → Bool
accepted (ok value) = true
accepted (err raised) = false

-- A sequence of statements that returned: what the first gave, and that the rest returned.
pub both_returned {ℓ ℓ'} :
    {V : Type ℓ} {W : Type ℓ'} {w : W} (first : Result V) (next : V → Result W)
    → first >>= next ≡ ok w
    → (v : V) × (first ≡ ok v) × (next v ≡ ok w)
both_returned (err raised) next h = cc
both_returned (ok value) next h = (value, refl, h)

-- a result is one or the other
pub Result-cases {ℓ} :
    {A : Type ℓ} (r : Result A) → ((a : A) × (r ≡ ok a)) ⊎ ((e : Error) × (r ≡ err e))
Result-cases (ok a) = inl (a, refl)
Result-cases (err e) = inr (e, refl)

pub ok-inj {ℓ} : {V : Type ℓ} (v w : V) → ok v ≡ ok w → v ≡ w
ok-inj v w h = cc
