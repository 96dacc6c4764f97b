-- ===== src/User.antt =====
-- user.py (packages/domain-identity): the User aggregate, made from OIDC claims.
pub mod Names
mod Tests
use praecepta.Prelude.{String, List, [], ◌∷◌, Option, none, some, if◌then◌else◌}
use praecepta.Text.{truthy}
use praecepta.Dict.{Dict}
use praecepta.Errors.{Result, ok, err, ◌>>=◌}
use praecepta.ValueObjects.{oidc_sub, email, display_name}
use praecepta.ValueObjects.Emails.{before_at}

-- `V` is the type of the values in the preferences.
pub record User (V : Type 0) : Type 0 where
  pub oidc_sub : String
  pub email : String
  pub tenant_id : String
  pub display_name : String
  pub preferences : Dict V

abbrev pub or_empty : Option String → String
or_empty none = ""
or_empty (some s) = s

-- `if name: … elif email: … else: …`, where `None` and "" are both false
unfoldable pub derived_name : (name email : Option String) → String
derived_name name email =
    if truthy (or_empty name)
    then or_empty name
    else if truthy (or_empty email)
    then before_at (or_empty email)
    else "User"

module _ {V : Type 0} where
  -- `__init__`
  unfoldable pub provision : (sub tenant_id : String) (mail name : Option String) → Result (User V)
  unfolding derived_name
  provision sub tenant_id mail name = do
    validated_sub ← oidc_sub sub
    validated_email ← email (or_empty mail)
    ok (record {
      oidc_sub = validated_sub;
      email = validated_email;
      tenant_id = tenant_id;
      display_name = derived_name name mail;
      preferences = [];
    })

  -- `request_update_display_name` with the body of its event
  unfoldable pub update_display_name : User V → String → Result (User V)
  update_display_name u name = do
    validated ← display_name name
    ok (record u { display_name = validated })

  -- `request_update_preferences` with the body of its event
  unfoldable pub update_preferences : User V → Dict V → User V
  update_preferences u preferences = record u { preferences = preferences }

pub data UserCommand (V : Type 0) : Type 0 where
  rename : String → UserCommand V
  prefer : Dict V → UserCommand V

abbrev pub or_unchanged : {V : Type 0} → User V → Result (User V) → User V
or_unchanged u (ok u') = u'
or_unchanged u (err e) = u

-- The calls of a client that goes on after an exception.
unfoldable pub run : {V : Type 0} → List (UserCommand V) → User V → User V
unfolding update_display_name update_preferences
run [] u = u
run (rename name ∷ cs) u = run cs (or_unchanged u (update_display_name u name))
run (prefer preferences ∷ cs) u = run cs (update_preferences u preferences)
