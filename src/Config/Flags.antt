-- ===== src/Config/Flags.antt =====
-- config_service.py (packages/foundation-application): feature flags and limits, read from the entry
-- that `get_config` resolves. `digest` gives the first four bytes of the SHA-256 of a text as a number.
use praecepta.Prelude.{
  ℕ, ◌%◌, ◌*◌, ◌/◌, ◌^◌, ◌-◌, String, ◌≡◌, refl, Bool, true, false, not, ◌||◌, Option, none, some,
  arith, str_eq, ltb, ◌==◌, if◌then◌else◌,
}
use praecepta.Prelude.Int.{ℤ, pos, negsuc, ltb_ℤ, pos_part, neg_part, sub_ℕ, ◌≤ℤ◌}
use praecepta.Text.{append, truthy}
use praecepta.Dict
use praecepta.Dict.{Dict}
use praecepta.Errors.{Result, ok, err, type_error}
use praecepta.Config.{
  Json, null, text, array, object, no_item, no_member, Value, ConfigValue, model_dump,
}
use praecepta.Config.Service.{
  Entry, ConfigCache, Config, get_config, set_config, resolve, of_default,
}
use praecepta.Config.Coherence.{IsCoherent, get_config-resolve, get_config-set_config}
use praecepta.Config.Table

-- `bool(x)`
unfoldable pub bool : Json → Bool
bool null = false
bool (Json.boolean b) = b
bool (Json.integer (pos n)) = not (n == 0)
bool (Json.integer (negsuc n)) = true
bool (Json.float (pos n) k) = not (n == 0)
bool (Json.float (negsuc n) k) = true
bool (text s) = truthy s
bool (array no_item) = false
bool (array _) = true
bool (object no_member) = false
bool (object _) = true

-- `bucket < x`, for a bucket that is a number
unfoldable pub above : ℕ → Json → Result Bool
above bucket (Json.boolean b) = ok (ltb bucket (if b then 1 else 0))
above bucket (Json.integer n) = ok (ltb_ℤ (pos bucket) n)
above bucket (Json.float n k) = ok (ltb_ℤ (pos (bucket * 2 ^ k)) n)
above bucket _ = err type_error

-- `config_value.get("type") == t`
abbrev pub is_type : Value → String → Bool
is_type value t = elim (Dict.get value "type") [ some (text s) ↦ str_eq s t | _ ↦ false ]

abbrev pub or_default : Option Json → Json → Json
or_default none d = d
or_default (some j) d = j

module _ (digest : String → ℕ) where
  unfoldable pub bucket : (tenant_id feature_key : String) → ℕ
  bucket tenant_id feature_key = digest (append (append feature_key ":") tenant_id) % 100

  -- `_evaluate_percentage_flag`, for a percentage of any type
  unfoldable pub evaluate_percentage_flag :
      (tenant_id feature_key : String) → (rollout_percentage : Json) → Result Bool
  evaluate_percentage_flag tenant_id feature_key rollout_percentage =
      above (bucket tenant_id feature_key) rollout_percentage

  unfoldable pub flag_of : (tenant_id feature_key : String) → Option Entry → Result Bool
  flag_of tenant_id feature_key none = ok false
  flag_of tenant_id feature_key (some entry) =
      if is_type entry.value "boolean"
      then ok (bool (or_default (Dict.get entry.value "value") (Json.boolean false)))
      else if is_type entry.value "percentage"
      then evaluate_percentage_flag tenant_id feature_key
          (or_default (Dict.get entry.value "value") (Json.integer (pos 0)))
      else ok false

  unfoldable pub is_feature_enabled :
      {C : Type 0}
      → ConfigCache C
      → Dict ConfigValue
      → (tenant_id feature_key : String) → Config C
      → Result Bool × Config C
  is_feature_enabled cache defaults tenant_id feature_key s =
      let (entry, s') = get_config cache defaults tenant_id feature_key s in
      (flag_of tenant_id feature_key entry, s')

  -- Raising the percentage disables a flag for no tenant; at 0 it is enabled for none, at 100 for all.
  pub evaluate-monotone :
      (t k : String) (p q : ℤ)
      → p ≤ℤ q
      → evaluate_percentage_flag t k (Json.integer p) ≡ ok true
      → (evaluate_percentage_flag t k (Json.integer q) ≡ ok true)
        × (evaluate_percentage_flag t k (Json.integer (pos 0)) ≡ ok false)
        × (evaluate_percentage_flag t k (Json.integer (pos 100)) ≡ ok true)
  unfolding evaluate_percentage_flag above bucket
  evaluate-monotone t k p q le e = (ground arith, ground arith, ground arith)

  -- Once an operator sets a flag to a percentage, the flag is enabled exactly for a tenant whose
  -- bucket lies below it, if the cache was coherent with the table.
  pub rollout :
      {C : Type 0} (cache : ConfigCache C) (defaults : Dict ConfigValue) (t k : String) (p : ℕ)
      (by : String) (s : Config C)
      → IsCoherent cache s
      → (is_feature_enabled cache defaults t k
          (set_config cache t k (model_dump (ConfigValue.percentage (pos p))) by s)).0
        ≡ ok (ltb (bucket t k) p)
  unfolding is_feature_enabled flag_of model_dump evaluate_percentage_flag above Dict.get
  rollout cache defaults t k p by s co =
      rw
        (get_config-set_config cache defaults t k (model_dump (ConfigValue.percentage (pos p))) by s
          co)
        (ground arith)

  -- A flag is enabled only by a value of type boolean or percentage: where the resolved value has
  -- another type, or nothing is configured, the call answers false.
  pub fail_closed :
      (t k : String) (e : Option Entry)
      → flag_of t k e ≡ ok true
      → (entry : Entry) × (e ≡ some entry)
        × ((is_type entry.value "boolean" || is_type entry.value "percentage") ≡ true)
  unfolding flag_of
  fail_closed t k none h = ground arith
  fail_closed t k (some entry) h = (entry, refl, ground arith)

-- `int(x)`: `parse` reads a text. A float is cut off towards zero.
unfoldable pub int : (parse : String → Result ℤ) → Json → Result ℤ
int parse (Json.boolean b) = ok (pos (if b then 1 else 0))
int parse (Json.integer n) = ok n
int parse (Json.float n k) =
    ok (if neg_part n == 0 then pos (pos_part n / 2 ^ k) else sub_ℕ 0 (neg_part n / 2 ^ k))
int parse (text s) = parse s
int parse _ = err type_error

abbrev int_max : ℤ
int_max = pos (2 ^ 31 - 1)

unfoldable pub limit_of : (parse : String → Result ℤ) → Option Entry → Result ℤ
limit_of parse none = ok int_max
limit_of parse (some entry) =
    if is_type entry.value "integer"
    then int parse (or_default (Dict.get entry.value "value") (Json.integer int_max))
    else ok int_max

unfoldable pub resolve_limit :
    (parse : String → Result ℤ)
    → {C : Type 0} → ConfigCache C
    → Dict ConfigValue
    → (tenant_id resource_key : String) → Config C
    → Result ℤ × Config C
resolve_limit parse cache defaults tenant_id resource_key s =
    let (entry, s') = get_config cache defaults tenant_id resource_key s in
    (limit_of parse entry, s')

-- Once a limit is set it is the one resolved, if the cache was coherent with the table.
pub resolve_limit-set_config :
    (parse : String → Result ℤ)
    → {C : Type 0} (cache : ConfigCache C) (defaults : Dict ConfigValue) (t k : String) (n : ℤ)
      (lo hi : Option ℤ) (by : String) (s : Config C)
    → IsCoherent cache s
    → (resolve_limit parse cache defaults t k
        (set_config cache t k (model_dump (ConfigValue.integer n lo hi)) by s)).0
      ≡ ok n
unfolding resolve_limit limit_of model_dump int Dict.get
resolve_limit-set_config parse cache defaults t k n lo hi by s co =
    rw (get_config-set_config cache defaults t k (model_dump (ConfigValue.integer n lo hi)) by s co)
      refl

-- Where neither the table nor the defaults know a key, its limit is 2^31 - 1.
pub resolve_limit-unset :
    (parse : String → Result ℤ)
    → {C : Type 0} (cache : ConfigCache C) (defaults : Dict ConfigValue) (t k : String)
      (s : Config C)
    → IsCoherent cache s
    → Table.get s.table t k ≡ none
    → Dict.get defaults k ≡ none
    → (resolve_limit parse cache defaults t k s).0 ≡ ok (pos 2147483647)
unfolding resolve_limit limit_of resolve of_default
resolve_limit-unset parse cache defaults t k s co unset undefined =
    rw (get_config-resolve cache defaults t k s co, unset, undefined) refl
