-- ===== src/Tenant/Lifecycle.antt =====
-- The aggregate against the state machine that it documents.
use praecepta.Prelude.{◌≡◌, refl, ap, ◌∙◌, List, [], ◌∷◌, Option, none, some, arith, if◌then◌else◌}
use praecepta.Errors.{Result, ok, err, is_conflict}
use praecepta.ValueObjects.{TenantStatus}
use praecepta.Tenant.{
  Tenant, TenantEvent, TenantCommand, activate, suspend, reactivate, decommission, update_config,
  update_metadata, request, after, run, mutate, refusal,
}

-- The kinds of command.
pub data Kind : Type 0 where
  activation suspension reactivation decommissioning edit deletion_record : Kind

-- What the state machine says of a command: move to a status, do nothing, or refuse.
pub data Effect : Type 0 where
  move : TenantStatus → Effect
  stay refuse : Effect

-- The documented state machine: PROVISIONING → ACTIVE ⇄ SUSPENDED, and from the last two to
-- DECOMMISSIONED. A command whose target status holds already does nothing; edits are for ACTIVE
-- tenants, deletion records for DECOMMISSIONED ones.
pub lifecycle : Kind → TenantStatus → Effect
lifecycle activation TenantStatus.provisioning = move TenantStatus.active
lifecycle activation TenantStatus.active = stay
lifecycle suspension TenantStatus.active = move TenantStatus.suspended
lifecycle suspension TenantStatus.suspended = stay
lifecycle reactivation TenantStatus.suspended = move TenantStatus.active
lifecycle reactivation TenantStatus.active = stay
lifecycle decommissioning TenantStatus.active = move TenantStatus.decommissioned
lifecycle decommissioning TenantStatus.suspended = move TenantStatus.decommissioned
lifecycle decommissioning TenantStatus.decommissioned = stay
lifecycle edit TenantStatus.active = move TenantStatus.active
lifecycle deletion_record TenantStatus.decommissioned = move TenantStatus.decommissioned
lifecycle _ _ = refuse

abbrev pub kind : {V : Type 0} → TenantCommand V → Kind
kind (activate by corr) = activation
kind (suspend by reason category corr) = suspension
kind (reactivate by corr) = reactivation
kind (decommission by reason corr) = decommissioning
kind (update_config key value by) = edit
kind (update_metadata metadata by) = edit
kind (TenantCommand.data_deleted category count by) = deletion_record

module _ {V : Type 0} where
  -- What a call did to the status; only a refusal of the transition counts as one.
  pub effect : Tenant V → Result (Option (TenantEvent V)) → Option Effect
  unfolding mutate is_conflict
  effect t (err e) = if is_conflict e then some refuse else none
  effect t (ok none) = some stay
  effect t (ok (some e)) = some (move (mutate e t).status)

  on_status :
      (s : TenantStatus) (c : TenantCommand V) (t : Tenant V)
      → t.status ≡ s
      → effect t (request c t) ≡ some (lifecycle (kind c) s)
  unfolding effect lifecycle request refusal
  on_status TenantStatus.provisioning (activate by corr) t e = ground arith
  on_status _ (activate by corr) t e = ground arith
  on_status TenantStatus.provisioning (suspend by reason category corr) t e = ground arith
  on_status _ (suspend by reason category corr) t e = ground arith
  on_status TenantStatus.provisioning (reactivate by corr) t e = ground arith
  on_status _ (reactivate by corr) t e = ground arith
  on_status TenantStatus.provisioning (decommission by reason corr) t e = ground arith
  on_status _ (decommission by reason corr) t e = ground arith
  on_status TenantStatus.provisioning (update_config key value by) t e = ground arith
  on_status _ (update_config key value by) t e = ground arith
  on_status TenantStatus.provisioning (update_metadata metadata by) t e = ground arith
  on_status _ (update_metadata metadata by) t e = ground arith
  on_status TenantStatus.provisioning (TenantCommand.data_deleted category count by) t e =
      ground arith
  on_status _ (TenantCommand.data_deleted category count by) t e = ground arith

  -- Every command moves, keeps or refuses to change the status exactly as the state machine says,
  -- and a refusal is an InvalidStateTransitionError or another conflict.
  pub request-lifecycle :
      (c : TenantCommand V) (t : Tenant V)
      → effect t (request c t) ≡ some (lifecycle (kind c) t.status)
  request-lifecycle c t = on_status t.status c t refl

  terminal_step :
      (c : TenantCommand V) (t : Tenant V)
      → t.status ≡ TenantStatus.decommissioned
      → (after t (request c t)).0 ≡ t
  unfolding after request
  terminal_step (activate by corr) t e = ground arith
  terminal_step _ t e = ground arith

  -- Whatever commands follow, a decommissioned tenant stays as it is, in every field.
  pub run-decommissioned :
      (cs : List (TenantCommand V)) (t : Tenant V)
      → t.status ≡ TenantStatus.decommissioned
      → (run cs t).0 ≡ t
  unfolding run
  run-decommissioned [] t e = refl
  run-decommissioned (c ∷ cs) t e =
      let same = terminal_step c t e in
      run-decommissioned cs (after t (request c t)).0 (ap (λ (u : Tenant V). u.status) same ∙ e)
      ∙ same
