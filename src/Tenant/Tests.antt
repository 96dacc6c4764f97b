-- ===== src/Tenant/Tests.antt =====
-- The tenant at concrete inputs.
use praecepta.Prelude.{ℕ, ◌≡◌, refl, List, [], ◌∷◌, none, some}
use praecepta.Errors.{ok, err}
use praecepta.ValueObjects.{TenantStatus, tenant_slug, slug_pattern, is_slug_char, tenant_name}
use praecepta.ValueObjects.Names.{IsName}
use praecepta.Text.{strip}
use praecepta.Tenant.{
  Tenant, TenantEvent, TenantCommand, activate, suspend, reactivate, decommission, initial, request,
  after, run, provision, activated, suspended, decommissioned, refusal,
}
use praecepta.Tenant.Lifecycle.{effect, lifecycle, kind, request-lifecycle}
use praecepta.Tenant.Invariant.{IsConsistent, run-IsConsistent, provision-IsConsistent}

abbrev acme : Tenant ℕ
acme = initial "id-1" "Acme" "acme" [] []

abbrev acme_active : Tenant ℕ
acme_active = record acme { status = TenantStatus.active }

abbrev acme_gone : Tenant ℕ
acme_gone = record acme {
  status = TenantStatus.decommissioned;
  decommission_reason = some "closed";
}

abbrev script : List (TenantCommand ℕ)
script =
    suspend "ann" none none none
    ∷ activate "ann" (some "c-1")
    ∷ suspend "ann" (some "unpaid") (some "billing_hold") none
    ∷ reactivate "ann" none
    ∷ decommission "ann" (some "closed") none
    ∷ activate "ann" none
    ∷ TenantCommand.data_deleted "slug_reservation" 1 "system"
    ∷ []

-- The first and the sixth command are refused and record nothing.
script-events :
    (run script acme).1
    ≡ activated "ann" "c-1"
      ∷ suspended "unpaid" "billing_hold" "ann" ""
      ∷ TenantEvent.reactivated "ann" ""
      ∷ decommissioned "closed" "ann" ""
      ∷ TenantEvent.data_deleted "slug_reservation" 1 "system"
      ∷ []
unfolding run request after
script-events = refl

refused_code :
    request (suspend "ann" none none none) acme
    ≡ err (refusal "Cannot suspend tenant " acme "ACTIVE")
unfolding request
refused_code = refl

acme-IsConsistent : IsConsistent acme
acme-IsConsistent = record {
  same_slug = refl;
  reason_filled = tt;
  category_filled = tt;
  decommission_filled = tt;
  waiting = λ w. (refl, refl);
  running = λ w. (refl, refl);
  undecided = λ w. refl;
}

acme_provisioned : provision {V = ℕ} "id-1" "acme" " Acme " "acme" none none ≡ ok acme
unfolding provision tenant_slug slug_pattern is_slug_char tenant_name strip
acme_provisioned = refl

request-lifecycle_example :
    effect acme (request (activate "ann" none) acme)
    ≡ some (lifecycle (kind {V = ℕ} (activate "ann" none)) TenantStatus.provisioning)
request-lifecycle_example = request-lifecycle (activate "ann" none) acme

run-IsConsistent_example : IsConsistent (run script acme).0
run-IsConsistent_example = run-IsConsistent script acme acme-IsConsistent

provision-IsConsistent_example :
    (acme.status ≡ TenantStatus.provisioning)
    × (acme.slug ≡ "acme")
    × (acme.tenant_id ≡ "acme")
    × IsName acme.name
    × IsConsistent acme
provision-IsConsistent_example =
    provision-IsConsistent "id-1" "acme" " Acme " "acme" none none acme_provisioned
