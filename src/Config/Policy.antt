-- ===== src/Config/Policy.antt =====
-- policy_binding.py (packages/foundation-application): `PolicyBindingService`, and the call that
-- `TenantConfigService` makes of it. `str` is Python's `str` of a JSON value.
use praecepta.Prelude.{String, ◌≡◌, refl, List, [], ◌∷◌, Option, none, some, arith, eq_refl, eq_iff}
use praecepta.Dict
use praecepta.Dict.{Dict}
use praecepta.Errors.{Result, ok, err, validation, ◌>>=◌}
use praecepta.Registry.{Keyed}
use praecepta.Config.{Json, text, ConfigValue, default_value}
use praecepta.Config.Table
use praecepta.Config.Table.{Table}
use praecepta.Config.Service.{ConfigCache, Config, Entry, Source, get_config, resolve}
use praecepta.Config.Flags.{or_default}
use praecepta.Config.Coherence.{
  IsCoherent, get_config-resolve, get_config-IsCoherent, get_config-table,
}

pub data PolicySource : Type 0 where
  explicit tenant_default system_default : PolicySource

pub record PolicyResolution : Type 0 where
  pub value : String
  pub source : PolicySource
  pub policy_type : String

-- `_get_block_policy`, a stub
abbrev get_block_policy : (block_id policy_type : String) → Option String
get_block_policy block_id policy_type = none

abbrev block_policy : Option String → (policy_type : String) → Option String
block_policy none policy_type = none
block_policy (some block_id) policy_type = get_block_policy block_id policy_type

module _ (str : Json → String) {C : Type 0} (cache : ConfigCache C)
    (defaults : Dict ConfigValue) where
  abbrev default_of : Option ConfigValue → String
  default_of none = ""
  default_of (some d) = str (default_value d)

  -- levels 2 and 3
  unfoldable pub from_config : (policy_type config_key : String) → Option Entry → PolicyResolution
  from_config policy_type config_key none = record {
    value = default_of (Dict.get defaults config_key);
    source = PolicySource.system_default;
    policy_type = policy_type;
  }
  from_config policy_type config_key (some entry) = elim entry.source [
    | Source.tenant ↦ (record {
      value = str (or_default (Dict.get entry.value "value") (text ""));
      source = tenant_default;
      policy_type = policy_type;
    })
    | Source.system_default ↦ (record {
      value = default_of (Dict.get defaults config_key);
      source = PolicySource.system_default;
      policy_type = policy_type;
    })
  ]

  -- the levels of a policy type that the mapping has
  unfoldable pub resolve_levels :
      Option String
      → (tenant_id policy_type config_key : String) → Config C
      → PolicyResolution × Config C
  resolve_levels (some value) tenant_id policy_type config_key s =
      (record { value = value; source = explicit; policy_type = policy_type }, s)
  resolve_levels none tenant_id policy_type config_key s =
      let (entry, s') = get_config cache defaults tenant_id config_key s in
      (from_config policy_type config_key entry, s')

  -- The end of the message, which lists the policy types, is left out.
  unfoldable pub resolve_key :
      (config_key : Option String)
      → (tenant_id policy_type : String) (block_id : Option String) → Config C
      → Result PolicyResolution × Config C
  resolve_key none tenant_id policy_type block_id s =
      (err (validation "policy_type" "Unsupported policy type"), s)
  resolve_key (some config_key) tenant_id policy_type block_id s =
      let (r, s') =
        resolve_levels (block_policy block_id policy_type) tenant_id policy_type config_key s in
      (ok r, s')

  -- `mapping` takes the value of a policy type to the value of its key.
  unfoldable pub resolve_policy :
      (mapping : Dict String)
      → (tenant_id policy_type : String) (block_id : Option String) → Config C
      → Result PolicyResolution × Config C
  resolve_policy mapping tenant_id policy_type block_id s =
      resolve_key (Dict.get mapping policy_type) tenant_id policy_type block_id s

  -- an item of a list, and the items after it: one that raises ends the list
  abbrev pub prepend :
      Result PolicyResolution
      → Config C
      → Result (List PolicyResolution) × Config C
      → Result (List PolicyResolution) × Config C
  prepend (err e) s rest = (err e, s)
  prepend (ok x) s (rs, s') = (rs >>= λ xs. ok (x ∷ xs), s')

  -- the comprehension of `get_all_bindings`, over the policy types still to resolve
  unfoldable pub bindings :
      (mapping types : Dict String)
      → (tenant_id : String) → Config C
      → Result (List PolicyResolution) × Config C
  bindings mapping [] tenant_id s = (ok [], s)
  bindings mapping ((policy_type, _) ∷ types) tenant_id s =
      let (r, s') = resolve_policy mapping tenant_id policy_type none s in
      let rest = bindings mapping types tenant_id s' in prepend r s' rest

  unfoldable pub get_all_bindings :
      (mapping : Dict String)
      → (tenant_id : String) → Config C
      → Result (List PolicyResolution) × Config C
  get_all_bindings mapping tenant_id s = bindings mapping mapping tenant_id s

  -- `TenantConfigService.resolve_policy`, which gives the resolver no mapping
  unfoldable pub service_resolve_policy :
      (tenant_id policy_type : String) (block_id : Option String)
      → Config C
      → Result String × Config C
  service_resolve_policy tenant_id policy_type block_id s =
      let (r, s') = resolve_policy [] tenant_id policy_type block_id s in
      (r >>= (λ x. ok x.value), s')

  -- what the chain says of a policy type, read from the table and the defaults
  abbrev pub by_chain : Table → (tenant_id policy_type config_key : String) → PolicyResolution
  by_chain table t policy_type key =
      from_config policy_type key (resolve defaults key (Table.get table t key))

  block_policy-none : (block : Option String) (pt : String) → block_policy block pt ≡ none
  block_policy-none none pt = refl
  block_policy-none (some b) pt = refl

  -- With a cache coherent with the table a registered policy type resolves to the value that the
  -- tenant set for its key, or else to the default, whatever block is named.
  pub resolve_policy-chain :
      (mapping : Dict String) (t pt key : String) (block : Option String) (s : Config C)
      → IsCoherent cache s
      → Dict.get mapping pt ≡ some key
      → (resolve_policy mapping t pt block s).0 ≡ ok (by_chain s.table t pt key)
  unfolding resolve_policy resolve_key resolve_levels
  resolve_policy-chain mapping t pt key block s co e =
      rw (e, block_policy-none block pt, get_config-resolve cache defaults t key s co) refl

  resolve_policy-IsCoherent :
      (mapping : Dict String) (t pt key : String) (s : Config C)
      → IsCoherent cache s
      → Dict.get mapping pt ≡ some key
      → IsCoherent cache (resolve_policy mapping t pt none s).1
        × ((resolve_policy mapping t pt none s).1.table ≡ s.table)
  unfolding resolve_policy resolve_key resolve_levels
  resolve_policy-IsCoherent mapping t pt key s co e =
      rw e
        (get_config-IsCoherent cache defaults t key s co, get_config-table cache defaults t key s)

  abbrev Registered : (mapping types : Dict String) → Type 0
  Registered mapping [] = Unit {0}
  Registered mapping ((pt, key) ∷ types) =
      (Dict.get mapping pt ≡ some key) × Registered mapping types

  abbrev pub all_by_chain : Table → (tenant_id : String) → Dict String → List PolicyResolution
  all_by_chain table t [] = []
  all_by_chain table t ((pt, key) ∷ types) = by_chain table t pt key ∷ all_by_chain table t types

  bindings-chain :
      (mapping types : Dict String) (t : String) (s : Config C)
      → IsCoherent cache s
      → Registered mapping types
      → (bindings mapping types t s).0 ≡ ok (all_by_chain s.table t types)
  unfolding bindings
  bindings-chain mapping [] t s co all = refl
  bindings-chain mapping ((pt, key) ∷ types) t s co (e, all) =
      let (co', same) = resolve_policy-IsCoherent mapping t pt key s co e in
      let rest = bindings-chain mapping types t (resolve_policy mapping t pt none s).1 co' all in
      rw (resolve_policy-chain mapping t pt key none s co e, rest, same) refl

  Registered-suffix :
      (mapping : Dict String) (pt key : String) (types : Dict String)
      → Registered mapping types
      → Dict.get types pt ≡ none
      → Registered ((pt, key) ∷ mapping) types
  unfolding Dict.get
  Registered-suffix mapping pt key [] all free = tt
  Registered-suffix mapping pt key ((qt, k) ∷ types) (e, all) free = (
    ground (arith, e, eq_iff pt qt, eq_iff qt pt),
    Registered-suffix mapping pt key types all (ground arith),
  )

  Registered-Keyed : (mapping : Dict String) → Keyed mapping → Registered mapping mapping
  unfolding Dict.get
  Registered-Keyed [] keyed = tt
  Registered-Keyed ((pt, key) ∷ mapping) (free, keyed) = (
    rw (eq_refl pt) refl,
    Registered-suffix mapping pt key mapping (Registered-Keyed mapping keyed) free,
  )

  -- With a cache coherent with the table, listing the bindings of a mapping without repeated types
  -- does not raise, and gives for each type, in order, what the table or else the defaults say.
  pub get_all_bindings-chain :
      (mapping : Dict String) (t : String) (s : Config C)
      → IsCoherent cache s
      → Keyed mapping
      → (get_all_bindings mapping t s).0 ≡ ok (all_by_chain s.table t mapping)
  unfolding get_all_bindings
  get_all_bindings-chain mapping t s co keyed =
      bindings-chain mapping mapping t s co (Registered-Keyed mapping keyed)

  -- `TenantConfigService.resolve_policy` refuses every call as an unsupported policy type.
  pub service_resolve_policy-refused :
      (t pt : String) (block : Option String) (s : Config C)
      → service_resolve_policy t pt block s
        ≡ (err (validation "policy_type" "Unsupported policy type"), s)
  unfolding service_resolve_policy resolve_policy resolve_key Dict.get
  service_resolve_policy-refused t pt block s = refl
