-- ===== src/Config/Limits.antt =====
-- resource_limits.py (packages/foundation-application): `ResourceLimitService`.
use praecepta.Prelude.{◌^◌, ◌-◌, String, ◌≡◌, refl, Option, none, some, if◌then◌else◌}
use praecepta.Prelude.Int.{ℤ, pos, ltb_ℤ, ◌+ℤ◌, ◌-ℤ◌, -ℤ-sum, -ℤ_cancel}
use praecepta.Dict
use praecepta.Dict.{Dict}
use praecepta.Errors.{Result, ok, err, resource_limit_exceeded}
use praecepta.Config.{ConfigValue, model_dump}
use praecepta.Config.Service.{ConfigCache, Config, set_config}
use praecepta.Config.Flags.{resolve_limit, resolve_limit-set_config}
use praecepta.Config.Coherence.{IsCoherent}

pub record ResourceLimitResult : Type 0 where
  pub limit : ℤ
  pub remaining : ℤ

abbrev int_max : ℤ
int_max = pos (2 ^ 31 - 1)

-- the comparison with a resolved limit
unfoldable pub within :
    (resource : String) (current_count increment : ℤ) → Result ℤ → Result ResourceLimitResult
within resource current_count increment (err e) = err e
within resource current_count increment (ok limit) =
    if ltb_ℤ limit (current_count +ℤ increment)
    then err (resource_limit_exceeded resource limit current_count)
    else ok (record { limit = limit; remaining = limit -ℤ current_count -ℤ increment })

module _ (parse : String → Result ℤ) {C : Type 0} (cache : ConfigCache C)
    (defaults : Dict ConfigValue) where
  unfoldable pub check_key :
      Option String
      → (tenant_id resource : String) (current_count increment : ℤ) → Config C
      → Result ResourceLimitResult × Config C
  check_key none tenant_id resource current_count increment s =
      (ok (record { limit = int_max; remaining = int_max -ℤ current_count }), s)
  check_key (some config_key) tenant_id resource current_count increment s =
      let (limit, s') = resolve_limit parse cache defaults tenant_id config_key s in
      (within resource current_count increment limit, s')

  unfoldable pub check_limit :
      (resource_key_map : Dict String)
      → (tenant_id resource : String) (current_count increment : ℤ) → Config C
      → Result ResourceLimitResult × Config C
  check_limit resource_key_map tenant_id resource current_count increment s =
      check_key (Dict.get resource_key_map resource) tenant_id resource current_count increment s

  -- With a limit set for the key of a resource and a cache coherent with the table, the check refuses
  -- exactly the increments that take the count above the limit, and says otherwise how far the new
  -- count is below it.
  pub check_limit-set :
      (keys : Dict String) (t resource key : String) (n lo hi current increment : ℤ) (by : String)
      (s : Config C)
      → IsCoherent cache s
      → Dict.get keys resource ≡ some key
      → (check_limit keys t resource current increment
          (set_config cache t key (model_dump (ConfigValue.integer n (some lo) (some hi))) by s)).0
        ≡ (if ltb_ℤ n (current +ℤ increment)
            then err (resource_limit_exceeded resource n current)
            else ok (record { limit = n; remaining = n -ℤ (current +ℤ increment) }))
  unfolding check_limit check_key within
  check_limit-set keys t resource key n lo hi current increment by s co e =
      rw
        (
          e,
          resolve_limit-set_config parse cache defaults t key n (some lo) (some hi) by s co,
          -ℤ-sum n current increment,
        )
        refl

  -- A resource that the map does not name passes with any increment, and what it says remains is
  -- more by the increment than the documented limit - current - increment.
  pub check_limit-unknown :
      (keys : Dict String) (t resource : String) (current increment : ℤ) (s : Config C)
      → Dict.get keys resource ≡ none
      → (check_limit keys t resource current increment s).0
        ≡ ok (record { limit = int_max; remaining = int_max -ℤ current -ℤ increment +ℤ increment })
  unfolding check_limit check_key
  check_limit-unknown keys t resource current increment s e =
      rw (e, -ℤ_cancel (int_max -ℤ current) increment) refl
