-- ===== src/Tenant/History.antt =====
-- The event history of a tenant: replaying it, and what it must hold.
use praecepta.Prelude.{ℕ, ◌+◌, ◌≡◌, refl, ap, ◌∙◌, List, [], ◌∷◌, ◌++◌, Option, none, some, arith}
use praecepta.Errors.{Result, ok, err}
use praecepta.ValueObjects.{TenantStatus}
use praecepta.Tenant.{
  Tenant, TenantEvent, TenantCommand, activated, activate, request, after, run, replay, mutate,
}

module _ {V : Type 0} where
  pub replay-append :
      (t : Tenant V) (es fs : List (TenantEvent V)) → replay t (es ++ fs) ≡ replay (replay t es) fs
  unfolding replay
  replay-append t [] fs = refl
  replay-append t (e ∷ es) fs = replay-append (mutate e t) es fs

  replay-after :
      (t : Tenant V) (r : Result (Option (TenantEvent V))) → replay t (after t r).1 ≡ (after t r).0
  unfolding replay after
  replay-after t (err e) = refl
  replay-after t (ok none) = refl
  replay-after t (ok (some e)) = refl

  -- Whatever commands a client gives, refused ones among them, replaying the recorded events on the
  -- first state rebuilds the last one.
  pub replay-run :
      (cs : List (TenantCommand V)) (t : Tenant V) → replay t (run cs t).1 ≡ (run cs t).0
  unfolding run replay
  replay-run [] t = refl
  replay-run (c ∷ cs) t =
      let r = request c t in
      let rest = run cs (after t r).0 in
      replay-append t (after t r).1 rest.1
      ∙ ap (λ (u : Tenant V). replay u rest.1) (replay-after t r)
      ∙ replay-run cs (after t r).0

  -- How many activations a history records.
  unfoldable pub activations : List (TenantEvent V) → ℕ
  activations [] = 0
  activations (activated by corr ∷ es) = 1 + activations es
  activations (_ ∷ es) = activations es

  activations-append :
      (es fs : List (TenantEvent V)) → activations (es ++ fs) ≡ activations es + activations fs
  unfolding activations
  activations-append [] fs = omega arith
  activations-append (activated by corr ∷ es) fs = omega (arith, activations-append es fs)
  activations-append (_ ∷ es) fs = activations-append es fs

  waiting_step :
      (c : TenantCommand V) (t : Tenant V)
      → t.status ≡ TenantStatus.provisioning
      → activations (after t (request c t)).1 ≡ 0
      → ((after t (request c t)).0 ≡ t) × ((after t (request c t)).1 ≡ [])
  unfolding after request activations
  waiting_step (activate by corr) t e h = ground arith
  waiting_step _ t e h = ground arith

  -- A new tenant whose history records no activation has not changed, and its history is empty.
  pub run-not_activated :
      (cs : List (TenantCommand V)) (t : Tenant V)
      → t.status ≡ TenantStatus.provisioning
      → activations (run cs t).1 ≡ 0
      → ((run cs t).0 ≡ t) × ((run cs t).1 ≡ [])
  unfolding run
  run-not_activated [] t e h = (refl, refl)
  run-not_activated (c ∷ cs) t e h =
      let r = request c t in
      let rest = run cs (after t r).0 in
      let none_now : activations (after t r).1 ≡ 0 =
        omega (arith, activations-append (after t r).1 rest.1) in
      let none_later : activations rest.1 ≡ 0 =
        omega (arith, activations-append (after t r).1 rest.1) in
      let (same, quiet) = waiting_step c t e none_now in
      let (same', quiet') =
        run-not_activated cs (after t r).0 (ap (λ (u : Tenant V). u.status) same ∙ e) none_later in
      (same' ∙ same, rw (quiet, quiet') refl)
