-- ===== src/Provisioning/Race.antt =====
-- A provisioning call that loses the race for the reservation to a whole call of another process.
use praecepta.Prelude.{
  ℕ, zero, suc, ◌≤◌, String, ◌≡◌, ◌≢◌, refl, ap, ◌∙◌, Option, none, some, arith, eq_iff, eq_refl,
}
use praecepta.Text.{len}
use praecepta.Dict
use praecepta.Dict.{Dict}
use praecepta.Errors.{ok, err, conflict, is_conflict}
use praecepta.Registry.OidcSub
use praecepta.Registry.OidcSub.{SubRow, confirmed_user}
use praecepta.User
use praecepta.User.{User}
use praecepta.User.Names.{provision-claims}
use praecepta.Provisioning.{Store, Faults, retry, provision_new, found_or_new, ensure_user_exists}
use praecepta.Provisioning.Outcomes.{alone, no_faults, ensure-confirmed, ensure-new}

-- what is done between the lookup of a call and its reservation, and nothing later
abbrev pub before_reserve : {V : Type 0} → (Store V → Store V) → ℕ → Store V → Store V
before_reserve f (suc zero) s = f s
before_reserve f zero s = s
before_reserve f (suc (suc n)) s = s

-- A subject that has a row is not reserved again.
reserve-taken :
    (d : Dict SubRow) (k t id : String)
    → OidcSub.lookup d k ≡ some id
    → len k ≤ 255
    → len t ≤ 63
    → OidcSub.reserve d k t ≡ err (conflict "OIDC sub is already provisioned")
unfolding OidcSub.lookup OidcSub.reserve
reserve-taken d k t id h hk ht = ground arith

module _ {V : Type 0} (f : Store V → Store V) (faults : Faults) (k t : String)
    (mail name : Option String) (new_id : String) (s : Store V) where
  ensure-lost :
      (id : String)
      → OidcSub.lookup s.registry k ≡ none
      → OidcSub.lookup (f s).registry k ≡ some id
      → len k ≤ 255
      → len t ≤ 63
      → ensure_user_exists (before_reserve f) faults k t mail name new_id s ≡ (ok id, f s)
  unfolding ensure_user_exists found_or_new provision_new retry is_conflict
  ensure-lost id h hl hk ht =
      rw (h, found_or_new)
        (rw (reserve-taken (f s).registry k t id hl hk ht, provision_new) (rw (hl, retry) refl))

module _ {V : Type 0} (k t t' : String) (mail name mail' name' : Option String)
    (new_id new_id' : String) (faults : Faults) (s : Store V) where
  -- the store after the call of the other process, for its tenant
  abbrev pub after_rival : Store V → Store V
  after_rival w = (ensure_user_exists alone no_faults k t' mail' name' new_id' w).1

  -- Two calls for one subject that has no row, with two tenants, where all fit their columns and the claims
  -- of the second call are valid: if the second call runs whole between the lookup and the reservation of
  -- the first, both return the same new user, who is of the second tenant; the first call made again, alone,
  -- raises a ConflictError for the tenant.
  pub race_ignores_tenant :
      (u : User V)
      → Dict.get s.registry k ≡ none
      → len k ≤ 255
      → len t ≤ 63
      → len t' ≤ 63
      → User.provision k t' mail' name' ≡ ok u
      → t' ≢ t
      → ((ensure_user_exists alone no_faults k t' mail' name' new_id' s).0 ≡ ok new_id')
        × (ensure_user_exists (before_reserve after_rival) faults k t mail name new_id s
            ≡ (ok new_id', after_rival s))
        × (Dict.get (after_rival s).users new_id' ≡ some u)
        × (u.tenant_id ≡ t')
        × ((ensure_user_exists alone faults k t mail name new_id (after_rival s)).0
            ≡ err (conflict "OIDC sub is already provisioned for a different tenant"))
  race_ignores_tenant u free hk ht ht' hu other =
      let (returned, named, _, users) = ensure-new k t' mail' name' new_id' s free hk ht' hu in
      let none_yet : OidcSub.lookup s.registry k ≡ none =
        unfold OidcSub.lookup in ap confirmed_user free in
      let saved : Dict.get (after_rival s).users new_id' ≡ some u =
        users new_id' ∙ rw (eq_refl new_id') refl in
      let tenant : u.tenant_id ≡ t' = (provision-claims k t' mail' name' hu).3 in
      (
        returned,
        ensure-lost after_rival faults k t mail name new_id s new_id' none_yet named hk ht,
        saved,
        tenant,
        rw (ensure-confirmed faults k t mail name new_id (after_rival s) named saved)
            (ground (arith, eq_iff u.tenant_id t, tenant)),
      )
