-- ===== src/User/Tests.antt =====
-- The user at concrete inputs.
use praecepta.Prelude.{ℕ, ◌≡◌, refl, [], ◌∷◌, none, some}
use praecepta.Text.{is_space, strip}
use praecepta.Errors.{ok}
use praecepta.ValueObjects.{oidc_sub, email, email_pattern, display_name}
use praecepta.ValueObjects.Emails.{before_at}
use praecepta.User.{User, rename, derived_name, provision, run}

abbrev ann : User ℕ
ann = record {
  oidc_sub = "sub-1";
  email = "ann@example.org";
  tenant_id = "acme";
  display_name = "ann";
  preferences = [];
}

ann_provisioned : provision {V = ℕ} "sub-1" "acme" (some "ann@example.org") none ≡ ok ann
unfolding provision oidc_sub email email_pattern is_space before_at
ann_provisioned = refl

-- A name from the claims is stored as it is, also one that `DisplayName` refuses.
blank_name : derived_name (some "  ") none ≡ "  "
unfolding derived_name
blank_name = refl

renamed : (run (rename " Ann B. " ∷ rename "  " ∷ []) ann).display_name ≡ "Ann B."
unfolding run display_name strip
renamed = refl
