-- ===== src/Tenant/Own.antt =====
-- The tenant that the recorded changes of the configuration name.
use praecepta.Prelude.{String, ◌≡◌, subst, List, [], ◌∷◌, ◌++◌, arith}
use praecepta.Tenant.{
  Tenant, TenantEvent, TenantCommand, activate, config_updated, request, after, run,
}
use praecepta.Tenant.Invariant.{step-SameIdentity}

module _ {V : Type 0} where
  -- A change of the configuration names the tenant itself.
  abbrev pub IsOwn : String → TenantEvent V → Type 0
  IsOwn tenant_id (config_updated tenant key value by) = tenant ≡ tenant_id
  IsOwn tenant_id _ = Unit {0}

  abbrev pub AllOwn : String → List (TenantEvent V) → Type 0
  AllOwn tenant_id [] = Unit {0}
  AllOwn tenant_id (e ∷ es) = IsOwn tenant_id e × AllOwn tenant_id es

  AllOwn-append :
      (tenant_id : String) (es fs : List (TenantEvent V))
      → AllOwn tenant_id es
      → AllOwn tenant_id fs
      → AllOwn tenant_id (es ++ fs)
  AllOwn-append tenant_id [] fs own more = more
  AllOwn-append tenant_id (e ∷ es) fs (first, own) more =
      (first, AllOwn-append tenant_id es fs own more)

  step-AllOwn : (c : TenantCommand V) (t : Tenant V) → AllOwn t.tenant_id (after t (request c t)).1
  unfolding after request
  step-AllOwn (activate by corr) t = ground arith
  step-AllOwn _ t = ground arith

  pub run-AllOwn : (cs : List (TenantCommand V)) (t : Tenant V) → AllOwn t.tenant_id (run cs t).1
  unfolding run
  run-AllOwn [] t = tt
  run-AllOwn (c ∷ cs) t =
      let t' = (after t (request c t)).0 in
      let same = (step-SameIdentity c t).tenant_id in
      AllOwn-append t.tenant_id (after t (request c t)).1 (run cs t').1 (step-AllOwn c t)
        (subst (λ i. AllOwn i (run cs t').1) same (run-AllOwn cs t'))
