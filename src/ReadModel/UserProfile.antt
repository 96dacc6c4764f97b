-- ===== src/ReadModel/UserProfile.antt =====
-- user_profile_repository.py and projections/user_profile.py (packages/domain-identity): the table of user
-- profiles and the projection that fills it, for a role of the database that row-level security does not bind.
pub mod Profiled
mod Tests
use praecepta.Prelude.{
  ◌⊎◌, and→both, ℕ, zero, suc, ◌+◌, ◌-◌, ◌≤◌, ◌<◌, String, ◌≡◌, ◌≢◌, refl, sym, ap, subst, ◌∙◌,
  Bool, true, false, not, ◌&&◌, ◌||◌, List, [], ◌∷◌, ◌++◌, Option, none, some, arith, str_eq,
  eq_iff, eq_refl, if◌then◌else◌, Option-cases, Bool-cases, inl, inr, length, length-append, map,
  ltb, leb, ◌==◌, get_elem?, take,
}
use praecepta.Text.{truthy, len}
use praecepta.Dict
use praecepta.Dict.{Dict}
use praecepta.Errors.{Result, ok, err, ◌>>=◌, data_error, conflict}
use praecepta.ValueObjects.{display_name}
use praecepta.ValueObjects.Emails.{before_at}
use praecepta.User.{User, or_empty, UserCommand, rename, prefer, update_display_name}

-- A row of `user_profile`; its key is the identifier of the user. `V` is the type of the values in the
-- preferences, which are stored as JSON.
pub record UserRow (V : Type 0) : Type 0 where
  pub oidc_sub : String
  pub email : String
  pub display_name : String
  pub tenant_id : String
  pub preferences : Dict V

-- the events of the aggregate; a claim that is missing is none
pub data UserEvent (V : Type 0) : Type 0 where
  provisioned : (oidc_sub tenant_id : String) (email name : Option String) → UserEvent V
  profile_updated : (display_name : String) → UserEvent V
  preferences_updated : (preferences : Dict V) → UserEvent V

-- the fallback of `_handle_provisioned`
unfoldable pub profile_name : (name email : String) → String
profile_name name email =
    if truthy name then name else if truthy email then before_at email else "User"

module _ {V : Type 0} where
  -- `oidc_sub … UNIQUE`
  unfoldable pub has_sub : String → Dict (UserRow V) → Bool
  has_sub sub [] = false
  has_sub sub ((k, r) ∷ d) = str_eq r.oidc_sub sub || has_sub sub d

  -- VARCHAR(255), and VARCHAR(63) for the tenant
  unfoldable pub fits_columns : UserRow V → Bool
  fits_columns r =
      leb (len r.oidc_sub) 255
      && leb (len r.email) 255
      && leb (len r.display_name) 255
      && leb (len r.tenant_id) 63

  -- INSERT … ON CONFLICT (user_id) DO UPDATE, with the row that the identifier has
  unfoldable pub upsert_row :
      (user_id : String) → UserRow V → Option (UserRow V) → Dict (UserRow V) → Dict (UserRow V)
  upsert_row user_id r none d = Dict.put d user_id r
  upsert_row user_id r (some old) d =
      Dict.put d user_id
        (record old { email = r.email; display_name = r.display_name; preferences = r.preferences })

  -- Whether the insertion meets a row of another user with the subject.
  unfoldable pub sub_taken : UserRow V → Option (UserRow V) → Dict (UserRow V) → Bool
  sub_taken r none d = has_sub r.oidc_sub d
  sub_taken r (some old) d = false

  unfoldable pub upsert_full :
      (user_id : String) → UserRow V → Dict (UserRow V) → Result (Dict (UserRow V))
  upsert_full user_id r d =
      let old = Dict.get d user_id in
      if not (fits_columns r)
      then err data_error
      else if sub_taken r old d
      then err (conflict "user_profile_oidc_sub_key")
      else ok (upsert_row user_id r old d)

  -- UPDATE … WHERE user_id = …, on the row that is found
  unfoldable pub update_row :
      (user_id : String)
      → (UserRow V → UserRow V)
      → Option (UserRow V)
      → Dict (UserRow V)
      → Dict (UserRow V)
  update_row user_id f none d = d
  update_row user_id f (some r) d = Dict.put d user_id (f r)

  unfoldable pub set_display_name :
      (user_id name : String) → Dict (UserRow V) → Result (Dict (UserRow V))
  set_display_name user_id name d =
      if ltb 255 (len name)
      then err data_error
      else ok (update_row user_id (λ r. record r { display_name = name }) (Dict.get d user_id) d)

  unfoldable pub set_preferences :
      (user_id : String) → (preferences : Dict V) → Dict (UserRow V) → Dict (UserRow V)
  set_preferences user_id preferences d =
      update_row user_id (λ r. record r { preferences = preferences }) (Dict.get d user_id) d

  -- SELECT … WHERE user_id = … AND tenant_id = …
  unfoldable pub of_tenant : (tenant_id : String) → Option (UserRow V) → Option (UserRow V)
  of_tenant tenant_id none = none
  of_tenant tenant_id (some r) = if str_eq r.tenant_id tenant_id then some r else none

  unfoldable pub get_by_user_id :
      Dict (UserRow V) → (user_id tenant_id : String) → Option (UserRow V)
  get_by_user_id d user_id tenant_id = of_tenant tenant_id (Dict.get d user_id)

  -- `process_event` without the record of the position
  unfoldable pub process_event :
      (user_id : String) → UserEvent V → Dict (UserRow V) → Result (Dict (UserRow V))
  process_event user_id (provisioned oidc_sub tenant_id email name) d =
      upsert_full user_id
        (record {
          oidc_sub = oidc_sub;
          email = or_empty email;
          display_name = profile_name (or_empty name) (or_empty email);
          tenant_id = tenant_id;
          preferences = [];
        })
        d
  process_event user_id (profile_updated name) d = set_display_name user_id name d
  process_event user_id (preferences_updated preferences) d =
      ok (set_preferences user_id preferences d)

  unfoldable pub process_all :
      (user_id : String) → List (UserEvent V) → Dict (UserRow V) → Result (Dict (UserRow V))
  process_all user_id [] d = ok d
  process_all user_id (e ∷ es) d = do d' ← process_event user_id e d; process_all user_id es d'

  -- TRUNCATE TABLE
  pub truncate : Dict (UserRow V) → Dict (UserRow V)
  truncate d = []

  -- the event of a call, if it was accepted
  unfoldable pub renamed_event : Result String → List (UserEvent V)
  renamed_event (err e) = []
  renamed_event (ok name) = profile_updated name ∷ []

  -- the events that calls record; whether a call is accepted does not depend on the state
  unfoldable pub recorded : List (UserCommand V) → List (UserEvent V)
  recorded [] = []
  recorded (rename name ∷ cs) = renamed_event (display_name name) ++ recorded cs
  recorded (prefer preferences ∷ cs) = preferences_updated preferences ∷ recorded cs
