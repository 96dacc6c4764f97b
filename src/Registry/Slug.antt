-- ===== src/Registry/Slug.antt =====
-- slug_registry.py: `SlugRegistry`. No statement reads the column `reserved_at`, which is left out.
use praecepta.Prelude.{
  String, ◌≡◌, Bool, true, false, [], ◌∷◌, Option, none, some, arith, ltb, str_eq, eq_iff,
  if◌then◌else◌,
}
use praecepta.Text.{len}
use praecepta.Dict
use praecepta.Dict.{Dict, get-remove}
use praecepta.Errors.{Result, ok, err, data_error}
use praecepta.Registry.{inserted, Keyed, append-Keyed, get-append}

-- A row of `tenant_slug_registry`.
pub record SlugRow : Type 0 where
  pub tenant_id : Option String
  pub confirmed : Bool

abbrev reserved_row : SlugRow
reserved_row = record { tenant_id = none; confirmed = false }

abbrev taken_row : String → SlugRow
taken_row tenant_id = record { tenant_id = some tenant_id; confirmed = true }

-- VARCHAR(63): the database refuses a longer value.
unfoldable pub reserve : Dict SlugRow → (slug : String) → Result (Dict SlugRow)
reserve d slug =
    if ltb 63 (len slug)
    then err data_error
    else inserted (Dict.get d slug) "Slug is already taken" d slug reserved_row

unfoldable pub confirm : Dict SlugRow → (slug tenant_id : String) → Dict SlugRow
confirm [] slug tenant_id = []
confirm ((k, r) ∷ d) slug tenant_id =
    (k, if str_eq k slug then taken_row tenant_id else r) ∷ confirm d slug tenant_id

unfoldable pub release : Dict SlugRow → (slug : String) → Dict SlugRow
release [] slug = []
release ((k, r) ∷ d) slug =
    let rest = release d slug in
    if str_eq k slug then (if r.confirmed then (k, r) ∷ rest else rest) else (k, r) ∷ rest

unfoldable pub decommission : Dict SlugRow → (slug : String) → Dict SlugRow
decommission d slug = Dict.remove d slug

abbrev confirmed_row : String → Option SlugRow → Option SlugRow
confirmed_row tenant_id none = none
confirmed_row tenant_id (some r) = some (taken_row tenant_id)

abbrev kept_row : Option SlugRow → Option SlugRow
kept_row none = none
kept_row (some r) = if r.confirmed then some r else none

get-confirm :
    (d : Dict SlugRow) (k t j : String)
    → Dict.get (confirm d k t) j
      ≡ (if str_eq k j then confirmed_row t (Dict.get d j) else Dict.get d j)
unfolding confirm Dict.get
get-confirm [] k t j = ground arith
get-confirm ((i, r) ∷ d) k t j =
    ground (arith, get-confirm d k t j, eq_iff i k, eq_iff i j, eq_iff k j)

get-release :
    (d : Dict SlugRow) (k j : String)
    → Keyed d
    → Dict.get (release d k) j ≡ (if str_eq k j then kept_row (Dict.get d j) else Dict.get d j)
unfolding release Dict.get
get-release [] k j keyed = ground arith
get-release ((i, r) ∷ d) k j keyed =
    ground (arith, get-release d k j keyed.1, eq_iff i k, eq_iff i j, eq_iff k j)

-- One call of the registry.
pub data SlugCall : Type 0 where
  reserving releasing decommissioning : (slug : String) → SlugCall
  confirming : (slug tenant_id : String) → SlugCall

abbrev or_same : Dict SlugRow → Result (Dict SlugRow) → Dict SlugRow
or_same d (ok e) = e
or_same d (err x) = d

-- The table after a call; an exception leaves it alone.
pub apply : SlugCall → Dict SlugRow → Dict SlugRow
unfolding reserve confirm release decommission
apply (reserving slug) d = or_same d (reserve d slug)
apply (releasing slug) d = release d slug
apply (decommissioning slug) d = decommission d slug
apply (confirming slug tenant_id) d = confirm d slug tenant_id

-- What a call does to the row of its slug, as the lifecycle documents it: free → reserved →
-- confirmed, back to free by a release before the confirmation, or by decommissioning at any time.
pub row_after : SlugCall → Option SlugRow → Option SlugRow
row_after (reserving slug) none = if ltb 63 (len slug) then none else some reserved_row
row_after (reserving slug) (some r) = some r
row_after (releasing slug) o = kept_row o
row_after (decommissioning slug) o = none
row_after (confirming slug tenant_id) o = confirmed_row tenant_id o

abbrev pub slug_of : SlugCall → String
slug_of (reserving slug) = slug
slug_of (releasing slug) = slug
slug_of (decommissioning slug) = slug
slug_of (confirming slug tenant_id) = slug

reserve-row :
    (d : Dict SlugRow) (k j : String)
    → Dict.get (or_same d (reserve d k)) j
      ≡ (if str_eq k j then row_after (reserving k) (Dict.get d j) else Dict.get d j)
unfolding reserve row_after
reserve-row d k j = ground (arith, get-append d k reserved_row j, eq_iff k j)

confirm-Keyed : (d : Dict SlugRow) (k t : String) → Keyed d → Keyed (confirm d k t)
unfolding confirm
confirm-Keyed [] k t keyed = tt
confirm-Keyed ((i, r) ∷ d) k t keyed =
    (ground (arith, get-confirm d k t i, keyed.0), confirm-Keyed d k t keyed.1)

release-Keyed : (d : Dict SlugRow) (k : String) → Keyed d → Keyed (release d k)
unfolding release
release-Keyed [] k keyed = tt
release-Keyed ((i, r) ∷ d) k keyed =
    ground (arith, get-release d k i keyed.1, release-Keyed d k keyed.1)

remove-Keyed : (d : Dict SlugRow) (k : String) → Keyed d → Keyed (Dict.remove d k)
unfolding Dict.remove
remove-Keyed [] k keyed = tt
remove-Keyed ((i, r) ∷ d) k keyed = ground (arith, get-remove d k i, remove-Keyed d k keyed.1)

reserve-Keyed : (d : Dict SlugRow) (k : String) → Keyed d → Keyed (or_same d (reserve d k))
unfolding reserve
reserve-Keyed d k keyed = ground (arith, append-Keyed d k reserved_row)

apply-Keyed : (c : SlugCall) (d : Dict SlugRow) → Keyed d → Keyed (apply c d)
unfolding apply
apply-Keyed (reserving k) d keyed = reserve-Keyed d k keyed
apply-Keyed (releasing k) d keyed = release-Keyed d k keyed
apply-Keyed (decommissioning k) d keyed = remove-Keyed d k keyed
apply-Keyed (confirming k t) d keyed = confirm-Keyed d k t keyed

apply-get :
    (c : SlugCall) (d : Dict SlugRow) (j : String)
    → Keyed d
    → Dict.get (apply c d) j
      ≡ (if str_eq (slug_of c) j then row_after c (Dict.get d j) else Dict.get d j)
apply-get (reserving k) d j keyed = unfold apply in reserve-row d k j
apply-get (releasing k) d j keyed = unfold apply row_after in get-release d k j keyed
apply-get (decommissioning k) d j keyed = unfold apply row_after in get-remove d k j
apply-get (confirming k t) d j keyed = unfold apply row_after in get-confirm d k t j

-- On a table with one row for each primary key, every call changes the row of its own slug as the
-- lifecycle documents and no other row, and the table keeps one row for each key.
pub apply-row :
    (c : SlugCall) (d : Dict SlugRow)
    → Keyed d
    → ((j : String)
        → Dict.get (apply c d) j
          ≡ (if str_eq (slug_of c) j then row_after c (Dict.get d j) else Dict.get d j))
      × Keyed (apply c d)
apply-row c d keyed = (λ j. apply-get c d j keyed, apply-Keyed c d keyed)
