-- ===== src/ReadModel/UserProfile/Tests.antt =====
-- Runs of the projection of user profiles.
use praecepta.Prelude.{ℕ, ◌≡◌, ◌≤◌, refl, List, [], ◌∷◌, none, some, arith}
use praecepta.Dict
use praecepta.Dict.{Dict}
use praecepta.Errors.{ok}
use praecepta.Text.{is_space, len}
use praecepta.ValueObjects.{email, oidc_sub, email_pattern}
use praecepta.ValueObjects.Emails.{before_at}
use praecepta.User.{User, UserCommand, rename, prefer, derived_name, provision, run}
use praecepta.ReadModel.UserProfile.{
  UserRow, has_sub, provisioned, recorded, process_all, get_by_user_id,
}
use praecepta.ReadModel.UserProfile.Profiled.{provision-run-profile, row_of}

abbrev calls : List (UserCommand ℕ)
calls = rename "Ada L." ∷ rename " " ∷ prefer (("theme", 1) ∷ []) ∷ []

abbrev ada : User ℕ
ada = record {
  oidc_sub = "s1";
  email = "ada@x.org";
  tenant_id = "acme";
  display_name = "ada";
  preferences = [];
}

abbrev bob : UserRow ℕ
bob = record {
  oidc_sub = "s0";
  email = "";
  display_name = "User";
  tenant_id = "acme";
  preferences = [];
}

made : provision "s1" "acme" (some "ada@x.org") none ≡ ok ada
unfolding provision oidc_sub email email_pattern is_space before_at derived_name
made = refl

fits : len ada.display_name ≤ 255
fits = ground arith

fits_tenant : len "acme" ≤ 63
fits_tenant = ground arith

provision-run-profile_example :
    (d' : Dict (UserRow ℕ)) × (process_all "u1"
        (provisioned "s1" "acme" (some "ada@x.org") none ∷ recorded calls)
        (("u0", bob) ∷ [])
      ≡ ok d')
    × (get_by_user_id d' "u1" "acme" ≡ some (row_of (run calls ada)))
unfolding Dict.get has_sub
provision-run-profile_example =
    provision-run-profile "u1" "s1" "acme" (some "ada@x.org") none ada calls (("u0", bob) ∷ []) made
      refl refl fits fits_tenant
