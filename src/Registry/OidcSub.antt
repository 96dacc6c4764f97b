-- ===== src/Registry/OidcSub.antt =====
-- oidc_sub_registry.py: `OidcSubRegistry`. No statement reads the column `reserved_at`, which is
-- left out.
use praecepta.Prelude.{
  String, ◌≡◌, Bool, true, false, ◌||◌, [], ◌∷◌, ◌++◌, Option, none, some, arith, ltb, str_eq,
  eq_iff, if◌then◌else◌,
}
use praecepta.Text.{len}
use praecepta.Dict
use praecepta.Dict.{Dict}
use praecepta.Errors.{Result, ok, err, data_error}
use praecepta.Registry.{inserted, Keyed, append-Keyed, get-append}

-- A row of `user_oidc_sub_registry`.
pub record SubRow : Type 0 where
  pub user_id : Option String
  pub tenant_id : String
  pub confirmed : Bool

abbrev pub reserved_row : String → SubRow
reserved_row tenant_id = record { user_id = none; tenant_id = tenant_id; confirmed = false }

-- VARCHAR(255) and VARCHAR(63): the database refuses a longer value.
unfoldable pub reserve : Dict SubRow → (oidc_sub tenant_id : String) → Result (Dict SubRow)
reserve d oidc_sub tenant_id =
    if ltb 255 (len oidc_sub) || ltb 63 (len tenant_id)
    then err data_error
    else inserted (Dict.get d oidc_sub) "OIDC sub is already provisioned" d oidc_sub
        (reserved_row tenant_id)

unfoldable pub confirm : Dict SubRow → (oidc_sub user_id : String) → Dict SubRow
confirm [] oidc_sub user_id = []
confirm ((k, r) ∷ d) oidc_sub user_id =
    (k, if str_eq k oidc_sub then record r { user_id = some user_id; confirmed = true } else r)
    ∷ confirm d oidc_sub user_id

unfoldable pub release : Dict SubRow → (oidc_sub : String) → Dict SubRow
release [] oidc_sub = []
release ((k, r) ∷ d) oidc_sub =
    let rest = release d oidc_sub in
    if str_eq k oidc_sub then (if r.confirmed then (k, r) ∷ rest else rest) else (k, r) ∷ rest

-- what the statement of `lookup` selects from the row of its key
abbrev pub confirmed_user : Option SubRow → Option String
confirmed_user none = none
confirmed_user (some r) = if r.confirmed then r.user_id else none

unfoldable pub lookup : Dict SubRow → (oidc_sub : String) → Option String
lookup d oidc_sub = confirmed_user (Dict.get d oidc_sub)

abbrev pub confirmed_row : String → Option SubRow → Option SubRow
confirmed_row user_id none = none
confirmed_row user_id (some r) = some (record r { user_id = some user_id; confirmed = true })

abbrev pub kept_row : Option SubRow → Option SubRow
kept_row none = none
kept_row (some r) = if r.confirmed then some r else none

pub get-confirm :
    (d : Dict SubRow) (k u j : String)
    → Dict.get (confirm d k u) j
      ≡ (if str_eq k j then confirmed_row u (Dict.get d j) else Dict.get d j)
unfolding confirm Dict.get
get-confirm [] k u j = ground arith
get-confirm ((i, r) ∷ d) k u j =
    ground (arith, get-confirm d k u j, eq_iff i k, eq_iff i j, eq_iff k j)

pub get-release :
    (d : Dict SubRow) (k j : String)
    → Keyed d
    → Dict.get (release d k) j ≡ (if str_eq k j then kept_row (Dict.get d j) else Dict.get d j)
unfolding release Dict.get
get-release [] k j keyed = ground arith
get-release ((i, r) ∷ d) k j keyed =
    ground (arith, get-release d k j keyed.1, eq_iff i k, eq_iff i j, eq_iff k j)

pub confirm-Keyed : (d : Dict SubRow) (k u : String) → Keyed d → Keyed (confirm d k u)
unfolding confirm
confirm-Keyed [] k u keyed = tt
confirm-Keyed ((i, r) ∷ d) k u keyed =
    (ground (arith, get-confirm d k u i, keyed.0), confirm-Keyed d k u keyed.1)

pub release-Keyed : (d : Dict SubRow) (k : String) → Keyed d → Keyed (release d k)
unfolding release
release-Keyed [] k keyed = tt
release-Keyed ((i, r) ∷ d) k keyed =
    ground (arith, get-release d k i keyed.1, release-Keyed d k keyed.1)

-- A reservation is granted only where the key has no row, and adds an unconfirmed one.
pub reserve-ok :
    (d : Dict SubRow) (k t : String) {e : Dict SubRow}
    → reserve d k t ≡ ok e
    → (Dict.get d k ≡ none) × (e ≡ d ++ (k, reserved_row t) ∷ [])
unfolding reserve
reserve-ok d k t h = (ground arith, ground arith)

pub reserve-Keyed :
    (d : Dict SubRow) (k t : String) {e : Dict SubRow} → Keyed d → reserve d k t ≡ ok e → Keyed e
reserve-Keyed d k t keyed h =
    let (free, same) = reserve-ok d k t h in rw same (append-Keyed d k (reserved_row t) free keyed)

pub get-reserve :
    (d : Dict SubRow) (k t : String) {e : Dict SubRow} (j : String)
    → reserve d k t ≡ ok e
    → Dict.get e j ≡ (if str_eq k j then some (reserved_row t) else Dict.get d j)
get-reserve d k t j h =
    let (free, same) = reserve-ok d k t h in
    rw same (ground (arith, get-append d k (reserved_row t) j, eq_iff k j))
