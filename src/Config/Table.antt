-- ===== src/Config/Table.antt =====
-- config_repository.py (packages/domain-tenancy): `ConfigRepository`, each SQL statement as a
-- function of the table. No statement reads `updated_at`, which is left out.
use praecepta.Prelude.{
  String, ◌≡◌, refl, Bool, true, false, ◌&&◌, List, [], ◌∷◌, Option, none, some, arith, str_eq,
  eq_iff, if◌then◌else◌,
}
use praecepta.Dict.{Dict}
use praecepta.Config.{Value}

-- A row of `tenant_configuration`, whose key is (tenant_id, config_key).
pub record ConfigRow : Type 0 where
  pub tenant_id : String
  pub config_key : String
  pub config_value : Value
  pub updated_by : String

abbrev pub Table : Type 0
Table = List ConfigRow

abbrev pub has_key : ConfigRow → (tenant_id key : String) → Bool
has_key r tenant_id key = str_eq r.tenant_id tenant_id && str_eq r.config_key key

unfoldable pub get : Table → (tenant_id key : String) → Option Value
get [] tenant_id key = none
get (r ∷ rs) tenant_id key =
    if has_key r tenant_id key then some r.config_value else get rs tenant_id key

unfoldable pub get_all : Table → (tenant_id : String) → Dict Value
get_all [] tenant_id = []
get_all (r ∷ rs) tenant_id =
    let rest = get_all rs tenant_id in
    if str_eq r.tenant_id tenant_id then (r.config_key, r.config_value) ∷ rest else rest

-- INSERT … ON CONFLICT (tenant_id, config_key) DO UPDATE
unfoldable pub upsert : Table → (tenant_id key : String) → Value → (updated_by : String) → Table
upsert [] tenant_id key value updated_by =
    (record {
      tenant_id = tenant_id;
      config_key = key;
      config_value = value;
      updated_by = updated_by;
    })
    ∷ []
upsert (r ∷ rs) tenant_id key value updated_by =
    let rest = upsert rs tenant_id key value updated_by in
    if has_key r tenant_id key
    then (record r { config_value = value; updated_by = updated_by }) ∷ rs
    else r ∷ rest

unfoldable pub delete : Table → (tenant_id key : String) → Table × Bool
delete [] tenant_id key = ([], false)
delete (r ∷ rs) tenant_id key =
    let (rest, deleted) = delete rs tenant_id key in
    if has_key r tenant_id key then (rest, true) else (r ∷ rest, deleted)

-- What a read finds after a write: the new value under its two keys, the old ones elsewhere.
pub get-upsert :
    (rs : Table) (t k : String) (v : Value) (by u j : String)
    → get (upsert rs t k v by) u j ≡ (if str_eq t u && str_eq k j then some v else get rs u j)
unfolding get upsert
get-upsert [] t k v by u j = refl
get-upsert (r ∷ rs) t k v by u j = ground (
  arith,
  get-upsert rs t k v by u j,
  eq_iff r.tenant_id t,
  eq_iff r.config_key k,
  eq_iff r.tenant_id u,
  eq_iff r.config_key j,
  eq_iff t u,
  eq_iff k j,
)

pub get-delete :
    (rs : Table) (t k u j : String)
    → get (delete rs t k).0 u j ≡ (if str_eq t u && str_eq k j then none else get rs u j)
unfolding get delete
get-delete [] t k u j = ground arith
get-delete (r ∷ rs) t k u j = ground (
  arith,
  get-delete rs t k u j,
  eq_iff r.tenant_id t,
  eq_iff r.config_key k,
  eq_iff r.tenant_id u,
  eq_iff r.config_key j,
  eq_iff t u,
  eq_iff k j,
)
