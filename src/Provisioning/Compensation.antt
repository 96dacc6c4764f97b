-- ===== src/Provisioning/Compensation.antt =====
-- A provisioning call that fails, and one that is made again.
use praecepta.Prelude.{
  String, ◌≡◌, ◌∙◌, Option, none, some, arith, eq_iff, eq_refl, Option-cases, inl, inr,
}
use praecepta.Dict
use praecepta.Dict.{Dict, get-put}
use praecepta.Errors.{Result, ok, err, Error, Result-cases}
use praecepta.Registry.OidcSub
use praecepta.Registry.OidcSub.{
  SubRow, get-release, get-reserve, get-confirm, confirm-Keyed, reserve-Keyed, reserve-ok,
}
use praecepta.User
use praecepta.User.{User}
use praecepta.User.Names.{provision-claims}
use praecepta.Provisioning.{
  Store, Faults, check_tenant, compensate, confirm_user, save_user, provision_new, found_or_new,
  ensure_user_exists,
}
use praecepta.Provisioning.Outcomes.{alone, retry-alone, ensure-confirmed}
use praecepta.Provisioning.RowLeft.{RowLeft}

module _ {V : Type 0} (faults : Faults) (k t : String) (mail name : Option String) (new_id : String)
    (s : Store V) where
  abbrev call : Result String × Store V
  call = ensure_user_exists alone faults k t mail name new_id s

  -- The call once the reservation is granted.
  abbrev after_reserve : Dict SubRow → Result String × Store V
  after_reserve e =
      save_user alone faults k new_id (User.provision k t mail name) faults.save
        (record s { registry = e })

  call-granted :
      (e : Dict SubRow)
      → OidcSub.lookup s.registry k ≡ none
      → OidcSub.reserve s.registry k t ≡ ok e
      → call ≡ after_reserve e
  unfolding ensure_user_exists found_or_new provision_new
  call-granted e h hr = rw (h, found_or_new) (rw (hr, provision_new))

  call-refused :
      (x : Error)
      → OidcSub.lookup s.registry k ≡ none
      → OidcSub.reserve s.registry k t ≡ err x
      → (y : Error) × (call ≡ (err y, s))
  unfolding ensure_user_exists found_or_new provision_new
  call-refused x h hr = (x, ground (arith, retry-alone faults 5 2 x k s h))

  -- The registry names a saved user of the tenant.
  abbrev Known : String → Store V → Type 0
  Known id w =
      (OidcSub.lookup w.registry k ≡ some id)
      × ((u : User V) × (Dict.get w.users id ≡ some u) × (u.tenant_id ≡ t))

  found-Known :
      (i id : String) → OidcSub.lookup s.registry k ≡ some i → call.0 ≡ ok id → Known id call.1
  unfolding ensure_user_exists found_or_new check_tenant
  found-Known i id h finished = elim (Option-cases (Dict.get s.users i)) [
    | inl e ↦ ground arith
    | inr (u, e) ↦ (
      ground (arith, eq_iff u.tenant_id t),
      (u, ground (arith, eq_iff u.tenant_id t), ground (arith, eq_iff u.tenant_id t)),
    )
  ]

  lookup-confirm :
      (e : Dict SubRow)
      → OidcSub.reserve s.registry k t ≡ ok e
      → OidcSub.lookup (OidcSub.confirm e k new_id) k ≡ some new_id
  unfolding OidcSub.lookup
  lookup-confirm e hr =
      rw (get-confirm e k new_id k, eq_refl k, get-reserve s.registry k t k hr) (rw (eq_refl k))

  granted-Known :
      (e : Dict SubRow) (id : String)
      → OidcSub.reserve s.registry k t ≡ ok e
      → (after_reserve e).0 ≡ ok id
      → Known id (after_reserve e).1
  unfolding save_user confirm_user compensate
  granted-Known e id hr finished = elim (Result-cases (User.provision {V = V} k t mail name)) [
    | inr (x, hu) ↦ ground arith
    | inl (u, hu) ↦
        let tenant = (provision-claims k t mail name hu).3 in
        (
          ground (arith, lookup-confirm e hr),
          (u, ground (arith, get-put s.users new_id u new_id, eq_refl new_id), tenant),
        )
  ]

  call-Known : (id : String) → call.0 ≡ ok id → Known id call.1
  call-Known id finished = elim (Option-cases (OidcSub.lookup s.registry k)) [
    | inr (i, h) ↦ found-Known i id h finished
    | inl h ↦ elim (Result-cases (OidcSub.reserve s.registry k t)) [
      | inl (e, hr) ↦
          let same = call-granted e h hr in rw same (granted-Known e id hr (rw same at finished))
      | inr (y, hr) ↦ absurd (let r = (call-refused y h hr) in cc (r.1, finished))
    ]
  ]

-- Of two calls for one subject and tenant, made one after the other with no other process between,
-- the second returns the identifier that the first returned, whatever claims, faults and new
-- identifier it has, and changes nothing.
pub ensure-again :
    {V : Type 0} (faults faults' : Faults) (k t : String) (mail name mail' name' : Option String)
    (new_id new_id' : String) (s : Store V) (id : String)
    → (ensure_user_exists alone faults k t mail name new_id s).0 ≡ ok id
    → let s' = (ensure_user_exists alone faults k t mail name new_id s).1 in
      ensure_user_exists alone faults' k t mail' name' new_id' s' ≡ (ok id, s')
ensure-again faults faults' k t mail name mail' name' new_id new_id' s id finished =
    let s' = (ensure_user_exists alone faults k t mail name new_id s).1 in
    let (named, (u, saved, tenant)) = call-Known faults k t mail name new_id s id finished in
    ensure-confirmed faults' k t mail' name' new_id' s' named saved ∙ rw (tenant, eq_refl t)
