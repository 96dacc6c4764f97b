-- ===== src/Tenant/Invariant.antt =====
-- The well-formedness of a tenant: what `__init__` establishes and every command keeps.
use praecepta.Prelude.{
  String, ◌≡◌, refl, ◌≢◌, sym, ◌∙◌, true, List, [], ◌∷◌, Option, none, some, arith, eq_iff,
}
use praecepta.Text.{truthy}
use praecepta.Dict.{Dict}
use praecepta.Errors.{ok, both_returned}
use praecepta.ValueObjects.{TenantStatus, tenant_slug, tenant_name}
use praecepta.ValueObjects.Slug.{tenant_slug-eq-ok}
use praecepta.ValueObjects.Names.{IsName, tenant_name-IsName}
use praecepta.Tenant.{
  Tenant, TenantCommand, activate, request, after, run, provision, or_no_entries, initial,
}

-- A reason that is there is not empty.
abbrev pub Filled : Option String → Type 0
Filled none = Unit
Filled (some s) = truthy s ≡ true

-- Suspension data only while suspended or after, a decommission reason only at the end.
pub record IsConsistent {V : Type 0} (t : Tenant V) : Type 0 where
  pub same_slug : t.tenant_id ≡ t.slug
  pub reason_filled : Filled t.suspension_reason
  pub category_filled : Filled t.suspension_category
  pub decommission_filled : Filled t.decommission_reason
  pub waiting :
      t.status ≡ TenantStatus.provisioning
      → (t.suspension_reason ≡ none) × (t.suspension_category ≡ none)
  pub running :
      t.status ≡ TenantStatus.active → (t.suspension_reason ≡ none) × (t.suspension_category ≡ none)
  pub undecided : t.status ≢ TenantStatus.decommissioned → t.decommission_reason ≡ none

module _ {V : Type 0} where
  -- A command on a provisioned tenant keeps it consistent.
  step-IsConsistent :
      (c : TenantCommand V) (t : Tenant V) → IsConsistent t → IsConsistent (after t (request c t)).0
  unfolding after request
  step-IsConsistent (activate by corr) t h = ground arith
  step-IsConsistent _ t h = ground arith

  -- Whatever commands follow, a consistent tenant stays consistent.
  pub run-IsConsistent :
      (cs : List (TenantCommand V)) (t : Tenant V) → IsConsistent t → IsConsistent (run cs t).0
  unfolding run
  run-IsConsistent [] t h = h
  run-IsConsistent (c ∷ cs) t h =
      run-IsConsistent cs (after t (request c t)).0 (step-IsConsistent c t h)

  -- The fields that no command may touch.
  pub record SameIdentity (t u : Tenant V) : Type 0 where
    pub id : u.id ≡ t.id
    pub tenant_id : u.tenant_id ≡ t.tenant_id
    pub slug : u.slug ≡ t.slug
    pub name : u.name ≡ t.name

  pub step-SameIdentity :
      (c : TenantCommand V) (t : Tenant V) → SameIdentity t (after t (request c t)).0
  unfolding after request
  step-SameIdentity (activate by corr) t = ground arith
  step-SameIdentity _ t = ground arith

  -- No sequence of commands changes the identifier, the tenant id, the slug or the name.
  pub run-SameIdentity : (cs : List (TenantCommand V)) (t : Tenant V) → SameIdentity t (run cs t).0
  unfolding run
  run-SameIdentity [] t = record { id = refl; tenant_id = refl; slug = refl; name = refl }
  run-SameIdentity (c ∷ cs) t =
      let first = step-SameIdentity c t in
      let rest = run-SameIdentity cs (after t (request c t)).0 in
      record {
        id = rest.id ∙ first.id;
        tenant_id = rest.tenant_id ∙ first.tenant_id;
        slug = rest.slug ∙ first.slug;
        name = rest.name ∙ first.name;
      }

  -- The three checks of `__init__` with what they found.
  provision-parts :
      (id tenant_id name slug : String) (config metadata : Option (Dict V)) {t : Tenant V}
      → provision id tenant_id name slug config metadata ≡ ok t
      → (s : String) × (n : String) × (tenant_slug slug ≡ ok s)
        × (tenant_name name ≡ ok n)
        × (tenant_id ≡ s)
        × (t ≡ initial id n s (or_no_entries config) (or_no_entries metadata))
  unfolding provision
  provision-parts id tenant_id name slug config metadata {t} h =
      let (s, es, rest) = both_returned (tenant_slug slug) _ h in
      let (n, en, last) = both_returned (tenant_name name) _ rest in
      (s, n, es, en, ground (arith, last, eq_iff tenant_id s), ground (arith, last))

  -- A tenant that `__init__` accepts waits in PROVISIONING under the given slug, which is its tenant
  -- id too, with a proper name that is stored stripped, and is consistent.
  pub provision-IsConsistent :
      (id tenant_id name slug : String) (config metadata : Option (Dict V)) {t : Tenant V}
      → provision id tenant_id name slug config metadata ≡ ok t
      → (t.status ≡ TenantStatus.provisioning)
        × (t.slug ≡ slug)
        × (t.tenant_id ≡ tenant_id)
        × IsName t.name
        × IsConsistent t
  provision-IsConsistent id tenant_id name slug config metadata {t} h =
      let (s, n, es, en, same, e) = provision-parts id tenant_id name slug config metadata h in
      let slug_same = tenant_slug-eq-ok slug es in
      let named = (tenant_name-IsName name en).0 in
      rw e (
        refl,
        slug_same,
        sym same,
        named,
        record {
          same_slug = refl;
          reason_filled = tt;
          category_filled = tt;
          decommission_filled = tt;
          waiting = λ w. (refl, refl);
          running = λ w. (refl, refl);
          undecided = λ w. refl;
        },
      )
