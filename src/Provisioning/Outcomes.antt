-- ===== src/Provisioning/Outcomes.antt =====
-- The outcomes of a provisioning call that no other process disturbs.
use praecepta.Prelude.{
  ℕ, zero, suc, ◌≤◌, String, ◌≡◌, refl, ◌≢◌, false, [], ◌∷◌, ◌++◌, Option, none, some, arith,
  str_eq, eq_iff, eq_refl, if◌then◌else◌,
}
use praecepta.Text.{len}
use praecepta.Dict
use praecepta.Dict.{Dict, get-put, get-put_self}
use praecepta.Errors.{ok, err, Error, conflict, is_conflict}
use praecepta.Registry.OidcSub
use praecepta.Registry.OidcSub.{
  SubRow, get-confirm, get-release, get-reserve, reserve-Keyed, kept_row, confirmed_user,
}
use praecepta.User
use praecepta.User.{User}
use praecepta.Provisioning.{
  Store, Faults, done, retry, check_tenant, confirm_user, save_user, provision_new, found_or_new,
  ensure_user_exists,
}

-- No other process touches the store.
abbrev pub alone : {V : Type 0} → ℕ → Store V → Store V
alone n s = s

module _ {V : Type 0} (faults : Faults) where
  -- Retries that nobody answers end in the conflict.
  pub retry-alone :
      (attempts n : ℕ) (e : Error) (k : String) (s : Store V)
      → OidcSub.lookup s.registry k ≡ none
      → retry alone faults attempts n e k s ≡ (err e, s)
  unfolding retry
  retry-alone zero n e k s h = refl
  retry-alone (suc attempts) n e k s h = rw (h, retry) (retry-alone attempts (suc n) e k s h)

  -- For a subject that is confirmed for a saved user, the call returns that user if the tenant is the
  -- user's, raises a ConflictError otherwise, and changes nothing.
  pub ensure-confirmed :
      (k t : String) (mail name : Option String) (new_id : String) (s : Store V) {id : String}
      {u : User V}
      → OidcSub.lookup s.registry k ≡ some id
      → Dict.get s.users id ≡ some u
      → ensure_user_exists alone faults k t mail name new_id s ≡ (
          if str_eq u.tenant_id t
          then (ok id, s)
          else (err (conflict "OIDC sub is already provisioned for a different tenant"), s))
  unfolding ensure_user_exists found_or_new check_tenant
  ensure-confirmed k t mail name new_id s h hu = ground arith

  -- A reservation that is not confirmed blocks its subject: a call made alone, with a subject and a
  -- tenant that fit their columns, raises a conflict and changes nothing.
  pub ensure-unconfirmed :
      (k t : String) (mail name : Option String) (new_id : String) (s : Store V) {r : SubRow}
      → Dict.get s.registry k ≡ some r
      → r.confirmed ≡ false
      → len k ≤ 255
      → len t ≤ 63
      → ensure_user_exists alone faults k t mail name new_id s
        ≡ (err (conflict "OIDC sub is already provisioned"), s)
  unfolding ensure_user_exists found_or_new provision_new OidcSub.reserve OidcSub.lookup is_conflict
  ensure-unconfirmed k t mail name new_id s h u hk ht = ground (
    arith,
    retry-alone 5 2 (conflict "OIDC sub is already provisioned") k s
        (unfold OidcSub.lookup in ground arith),
  )

abbrev pub no_faults : Faults
no_faults = record { save = done; confirm = done; release = done }

module _ {V : Type 0} (k t : String) (mail name : Option String) (new_id : String)
    (s : Store V) where
  granted :
      Dict.get s.registry k ≡ none
      → len k ≤ 255
      → len t ≤ 63
      → (e : Dict SubRow) × (OidcSub.reserve s.registry k t ≡ ok e)
  unfolding OidcSub.reserve
  granted free hk ht = (s.registry ++ (k, OidcSub.reserved_row t) ∷ [], ground arith)

  -- What the call leaves when every step succeeds.
  abbrev stored : Dict SubRow → User V → Store V
  stored e u = record s { registry = OidcSub.confirm e k new_id; users = Dict.put s.users new_id u }

  ensure-stored :
      (e : Dict SubRow) (u : User V)
      → OidcSub.lookup s.registry k ≡ none
      → OidcSub.reserve s.registry k t ≡ ok e
      → User.provision k t mail name ≡ ok u
      → ensure_user_exists alone no_faults k t mail name new_id s ≡ (ok new_id, stored e u)
  unfolding ensure_user_exists found_or_new provision_new save_user confirm_user
  ensure-stored e u h hr hu = ground arith

  lookup-stored :
      (e : Dict SubRow) (u : User V)
      → OidcSub.reserve s.registry k t ≡ ok e
      → OidcSub.lookup (stored e u).registry k ≡ some new_id
  unfolding OidcSub.lookup
  lookup-stored e u hr =
      rw (get-confirm e k new_id k, eq_refl k, get-reserve s.registry k t k hr) (rw (eq_refl k))

  rows-stored :
      (e : Dict SubRow) (u : User V) (j : String)
      → OidcSub.reserve s.registry k t ≡ ok e
      → k ≢ j
      → Dict.get (stored e u).registry j ≡ Dict.get s.registry j
  rows-stored e u j hr ne =
      ground (arith, get-confirm e k new_id j, get-reserve s.registry k t j hr, eq_iff k j)

  lookup-free : Dict.get s.registry k ≡ none → OidcSub.lookup s.registry k ≡ none
  unfolding OidcSub.lookup
  lookup-free free = rw free

  -- For a subject without a row and valid claims, where subject and tenant fit their columns, a call
  -- made alone and without fault returns the new identifier, confirms the subject for it, saves the
  -- user under it, and touches no other row and no other user.
  pub ensure-new :
      {u : User V}
      → Dict.get s.registry k ≡ none
      → len k ≤ 255
      → len t ≤ 63
      → User.provision k t mail name ≡ ok u
      → let (r, s') = ensure_user_exists alone no_faults k t mail name new_id s in
        (r ≡ ok new_id)
        × (OidcSub.lookup s'.registry k ≡ some new_id)
        × ((j : String) → k ≢ j → Dict.get s'.registry j ≡ Dict.get s.registry j)
        × ((j : String)
            → Dict.get s'.users j ≡ (if str_eq new_id j then some u else Dict.get s.users j))
  ensure-new {u} free hk ht hu =
      let (e, hr) = granted free hk ht in
      rw (ensure-stored e u (lookup-free free) hr hu) (
        refl,
        lookup-stored e u hr,
        λ j ne. rows-stored e u j hr ne,
        λ j. get-put s.users new_id u j,
      )
