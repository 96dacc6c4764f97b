-- ===== src/User/Names.antt =====
-- The claims and the display name of a user.
use praecepta.Prelude.{
  String, ◌≤◌, ◌≡◌, refl, ◌∙◌, true, List, [], ◌∷◌, Option, arith, inl, inr, Bool-cases,
}
use praecepta.Text.{len, truthy}
use praecepta.Errors.{Result, ok, err, both_returned}
use praecepta.ValueObjects.{oidc_sub, email, display_name}
use praecepta.ValueObjects.Names.{display_name-IsName}
use praecepta.ValueObjects.Emails.{truthy-before_at, email-count_at}
use praecepta.User.{
  User, UserCommand, rename, prefer, or_empty, derived_name, provision, update_display_name, run,
  or_unchanged,
}

oidc_sub-bounds :
    (s : String) {v : String} → oidc_sub s ≡ ok v → (v ≡ s) × (truthy s ≡ true) × (len s ≤ 255)
unfolding oidc_sub
oidc_sub-bounds s h = ground arith

truthy-derived_name :
    (name mail : Option String) {v : String}
    → email (or_empty mail) ≡ ok v
    → truthy (derived_name name mail) ≡ true
unfolding derived_name
truthy-derived_name name mail h = elim (Bool-cases (truthy (or_empty name))) [
  | inl e ↦ rw e e
  | inr e ↦ elim (Bool-cases (truthy (or_empty mail))) [
    | inl f ↦ rw (e, f) (truthy-before_at (or_empty mail) h f)
    | inr f ↦ rw (e, f) refl
  ]
]

module _ {V : Type 0} where
  -- A user that is provisioned keeps the given subject, tenant and address, has a subject of 1 to 255
  -- characters, and a display name that is not empty: the name, or else the local part of the
  -- address, or else "User".
  pub provision-claims :
      (sub tenant_id : String) (mail name : Option String) {u : User V}
      → provision sub tenant_id mail name ≡ ok u
      → (u.oidc_sub ≡ sub)
        × (truthy sub ≡ true)
        × (len sub ≤ 255)
        × (u.tenant_id ≡ tenant_id)
        × (u.email ≡ or_empty mail)
        × (u.display_name ≡ derived_name name mail)
        × (truthy u.display_name ≡ true)
  unfolding provision
  provision-claims sub tenant_id mail name h =
      let (s, es, rest) = both_returned (oidc_sub sub) _ h in
      let (m, em, last) = both_returned (email (or_empty mail)) _ rest in
      let (se, filled, short) = oidc_sub-bounds sub es in
      let me = (email-count_at (or_empty mail) em).0 in
      let named = truthy-derived_name name mail em in
      (
        ground (arith, last, se),
        filled,
        short,
        ground (arith, last),
        ground (arith, last, me),
        ground (arith, last),
        ground (arith, last, named),
      )

  -- What no command may touch, and what every command keeps.
  pub record SameClaims (u w : User V) : Type 0 where
    pub oidc_sub : w.oidc_sub ≡ u.oidc_sub
    pub email : w.email ≡ u.email
    pub tenant_id : w.tenant_id ≡ u.tenant_id
    pub named : truthy u.display_name ≡ true → truthy w.display_name ≡ true

  rename-SameClaims :
      (u : User V) (name : String) {w : User V} → update_display_name u name ≡ ok w → SameClaims u w
  unfolding update_display_name
  rename-SameClaims u name h =
      let (n, en, last) = both_returned (display_name name) _ h in
      let filled = (display_name-IsName name en).filled in
      record {
        oidc_sub = ground (arith, last);
        email = ground (arith, last);
        tenant_id = ground (arith, last);
        named = λ t. ground (arith, last, filled);
      }

  SameClaims-trans : {u v w : User V} → SameClaims u v → SameClaims v w → SameClaims u w
  SameClaims-trans h k = record {
    oidc_sub = k.oidc_sub ∙ h.oidc_sub;
    email = k.email ∙ h.email;
    tenant_id = k.tenant_id ∙ h.tenant_id;
    named = λ t. k.named (h.named t);
  }

  renamed_run :
      (cs : List (UserCommand V)) (u : User V) (r : Result (User V))
      → ((w : User V) → r ≡ ok w → SameClaims u w)
      → ((w : User V) → SameClaims w (run cs w))
      → SameClaims u (run cs (or_unchanged u r))
  renamed_run cs u (ok w) step rest = SameClaims-trans (step w refl) (rest w)
  renamed_run cs u (err e) step rest = rest u

  -- No command changes the claims, and a display name that is not empty never becomes empty.
  pub run-SameClaims : (cs : List (UserCommand V)) (u : User V) → SameClaims u (run cs u)
  unfolding run
  run-SameClaims [] u = record { oidc_sub = refl; email = refl; tenant_id = refl; named = λ t. t }
  run-SameClaims (rename name ∷ cs) u =
      renamed_run cs u (update_display_name u name) (λ w. rename-SameClaims u name)
        (run-SameClaims cs)
  run-SameClaims (prefer preferences ∷ cs) u =
      let rest = run-SameClaims cs (record u { preferences = preferences }) in
      record {
        oidc_sub = rest.oidc_sub;
        email = rest.email;
        tenant_id = rest.tenant_id;
        named = rest.named;
      }
