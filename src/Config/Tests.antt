-- ===== src/Config/Tests.antt =====
-- The configuration at concrete inputs, with a cache that keeps what it is given.
use praecepta.Prelude.{ℕ, String, ◌≡◌, refl, true, false, List, [], ◌∷◌, none, some}
use praecepta.Prelude.Int.{ℤ, pos}
use praecepta.Text.{len}
use praecepta.Dict
use praecepta.Dict.{Dict, get-put, get-remove}
use praecepta.Errors.{Result, ok, err, value_error}
use praecepta.Config.{Json, text, Value, ConfigValue, model_dump}
use praecepta.Config.Table
use praecepta.Config.Service.{
  Call, read, set_config, resolve, of_tenant, get_all_config, of_default, Source,
}
use praecepta.Config.Kept.{kept, fresh, fresh-IsCoherent}
use praecepta.Config.Coherence.{run, plain, run-plain}
use praecepta.Config.Flags.{is_feature_enabled, rollout, bucket}
use praecepta.Config.Listing.{find_entry, find_entry-get_all_config}

abbrev flag : ℕ → Value
flag p = model_dump (ConfigValue.percentage (pos p))

abbrev limits : ℤ → Value
limits n = model_dump (ConfigValue.integer n (some (pos 0)) (some (pos 100)))

abbrev defaults : Dict ConfigValue
defaults =
    ("feature.dark_mode", ConfigValue.boolean true)
    ∷ ("limits.max_items", ConfigValue.integer (pos 5) none none)
    ∷ []

abbrev calls : List Call
calls =
    read "acme" "feature.dark_mode"
    ∷ Call.set "acme" "feature.dark_mode" (flag 20) "ann"
    ∷ read "acme" "feature.dark_mode"
    ∷ Call.set "acme" "feature.dark_mode" (flag 30) "bob"
    ∷ read "acme" "feature.dark_mode"
    ∷ []

answers :
    plain defaults calls []
    ≡ some (record {
      key = "feature.dark_mode";
      value = model_dump (ConfigValue.boolean true);
      source = Source.system_default;
    })
      ∷ some (of_tenant "feature.dark_mode" (flag 20))
      ∷ some (of_tenant "feature.dark_mode" (flag 30))
      ∷ []
unfolding plain resolve of_default Table.get Table.upsert Dict.get
answers = refl

run-plain_example : run kept defaults calls fresh ≡ plain defaults calls []
run-plain_example = run-plain kept defaults calls fresh fresh-IsCoherent

rollout_example :
    (is_feature_enabled len kept defaults "acme" "feature.dark_mode"
      (set_config kept "acme" "feature.dark_mode" (flag 20) "ann" fresh)).0
    ≡ ok false
unfolding bucket
rollout_example =
    rollout len kept defaults "acme" "feature.dark_mode" 20 "ann" fresh fresh-IsCoherent

abbrev no_number : String → Result ℤ
no_number s = err (value_error "invalid literal for int()")

find_entry-get_all_config_example :
    find_entry (get_all_config defaults [] "acme") "limits.max_items"
    ≡ resolve defaults "limits.max_items" none
unfolding Table.get
find_entry-get_all_config_example = find_entry-get_all_config defaults [] "acme" "limits.max_items"

abbrev resources : Dict String
resources = ("items", "limits.max_items") ∷ []

-- `str` of the values that the tests have
abbrev str : Json → String
str (text s) = s
str _ = ""

abbrev mapping : Dict String
mapping = ("decay_strategy", "policy.decay") ∷ ("retention", "policy.retention") ∷ []
