-- ===== src/Provisioning.antt =====
-- user_provisioning.py (packages/domain-identity): `UserProvisioningService.ensure_user_exists`. Each
-- statement of the database and each access of the event store is one step; `others` says what the
-- other processes do to the shared store before the n-th step, and `faults` which accesses raise.
pub mod Outcomes
pub mod RowLeft
pub mod Compensation
pub mod Race
pub mod Interleaving
mod Tests
use praecepta.Prelude.{
  ℕ, zero, suc, ◌+◌, String, Bool, true, false, not, List, [], ◌∷◌, ◌++◌, Option, none, some,
  str_eq, if◌then◌else◌,
}
use praecepta.Dict
use praecepta.Dict.{Dict}
use praecepta.Errors.{Result, ok, err, Error, conflict, not_found, is_conflict}
use praecepta.Registry.OidcSub
use praecepta.Registry.OidcSub.{SubRow}
use praecepta.User
use praecepta.User.{User}

-- `V` is the type of the values in the users' preferences.
pub record Store (V : Type 0) : Type 0 where
  pub registry : Dict SubRow
  pub users : Dict (User V)

-- What becomes of a write: it succeeds, it raises and nothing is written, or it raises after the database
-- has committed it.
pub data Write : Type 0 where
  done : Write
  lost late : (raised : Error) → Write

-- The three writes after the reservation.
pub record Faults : Type 0 where
  pub save : Write
  pub confirm : Write
  pub release : Write

-- `self._registry.release(oidc_sub)` and `raise`, where an exception of the first goes out instead
abbrev pub released :
    {V : Type 0} (oidc_sub : String) → Write → Error → Store V → Result String × Store V
released oidc_sub done e s = (err e, record s { registry = OidcSub.release s.registry oidc_sub })
released oidc_sub (lost raised) e s = (err raised, s)
released oidc_sub (late raised) e s =
    (err raised, record s { registry = OidcSub.release s.registry oidc_sub })

module _ {V : Type 0} (others : ℕ → Store V → Store V) (faults : Faults) where
  abbrev Outcome : Type 0
  Outcome = Result String × Store V

  -- `for attempt in range(5)`, from step `n` on, with the conflict that is raised again at the end
  pub retry : (attempts n : ℕ) → Error → (oidc_sub : String) → Store V → Outcome
  retry zero n e oidc_sub s = (err e, s)
  retry (suc attempts) n e oidc_sub s =
      let s' = others n s in
      let again = retry attempts (suc n) e oidc_sub s' in
      elim (OidcSub.lookup s'.registry oidc_sub) [ some user_id ↦ (ok user_id, s') | none ↦ again ]

  -- the check of the fast path on the user that the registry names
  pub check_tenant : (user_id tenant_id : String) → Store V → Outcome
  check_tenant user_id tenant_id s = elim (Dict.get s.users user_id) [
    | none ↦ (err (not_found "User" user_id), s)
    | some u ↦
        if not (str_eq u.tenant_id tenant_id)
        then (err (conflict "OIDC sub is already provisioned for a different tenant"), s)
        else (ok user_id, s)
  ]

  -- the handler of any exception after the reservation
  pub compensate : (oidc_sub : String) → Error → Store V → Outcome
  compensate oidc_sub e s = released oidc_sub faults.release e (others 5 s)

  pub confirm_user : (oidc_sub new_id : String) → Write → Store V → Outcome
  unfolding compensate
  confirm_user oidc_sub new_id done s =
      let s' = others 4 s in
      (ok new_id, record s' { registry = OidcSub.confirm s'.registry oidc_sub new_id })
  confirm_user oidc_sub new_id (lost raised) s = compensate oidc_sub raised (others 4 s)
  confirm_user oidc_sub new_id (late raised) s =
      let s' = others 4 s in
      compensate oidc_sub raised
        (record s' { registry = OidcSub.confirm s'.registry oidc_sub new_id })

  pub save_user : (oidc_sub new_id : String) → Result (User V) → Write → Store V → Outcome
  unfolding compensate confirm_user
  save_user oidc_sub new_id (err e) write s = compensate oidc_sub e s
  save_user oidc_sub new_id (ok u) done s =
      let s' = others 3 s in
      confirm_user oidc_sub new_id faults.confirm (record s' { users = Dict.put s'.users new_id u })
  save_user oidc_sub new_id (ok u) (lost raised) s = compensate oidc_sub raised (others 3 s)
  save_user oidc_sub new_id (ok u) (late raised) s =
      let s' = others 3 s in
      compensate oidc_sub raised (record s' { users = Dict.put s'.users new_id u })

  -- what follows the reservation, by whether it was granted
  pub provision_new :
      (oidc_sub tenant_id : String) (email name : Option String) (new_id : String)
      → Result (Dict SubRow)
      → Store V
      → Outcome
  unfolding save_user retry
  provision_new oidc_sub tenant_id email name new_id (ok registry) s =
      save_user oidc_sub new_id (User.provision oidc_sub tenant_id email name) faults.save
        (record s { registry = registry })
  provision_new oidc_sub tenant_id email name new_id (err e) s =
      if is_conflict e then retry 5 2 e oidc_sub s else (err e, s)

  pub found_or_new :
      (oidc_sub tenant_id : String) (email name : Option String) (new_id : String)
      → Option String
      → Store V
      → Outcome
  unfolding provision_new check_tenant
  found_or_new oidc_sub tenant_id email name new_id (some user_id) s =
      check_tenant user_id tenant_id (others 1 s)
  found_or_new oidc_sub tenant_id email name new_id none s =
      let s' = others 1 s in
      provision_new oidc_sub tenant_id email name new_id
        (OidcSub.reserve s'.registry oidc_sub tenant_id) s'

  -- `new_id` is the identifier that the library draws for a new user.
  pub ensure_user_exists :
      (oidc_sub tenant_id : String) (email name : Option String) (new_id : String)
      → Store V
      → Outcome
  unfolding found_or_new
  ensure_user_exists oidc_sub tenant_id email name new_id s =
      let s' = others 0 s in
      found_or_new oidc_sub tenant_id email name new_id (OidcSub.lookup s'.registry oidc_sub) s'
