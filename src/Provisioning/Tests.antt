-- ===== src/Provisioning/Tests.antt =====
-- Provisioning at concrete inputs.
use praecepta.Prelude.{
  ℕ, String, ◌≡◌, ◌≢◌, refl, ap, true, [], ◌∷◌, none, some, arith, str_eq, eq_iff, if◌then◌else◌,
}
use praecepta.Dict
use praecepta.Dict.{Dict}
use praecepta.Errors.{Result, ok, err, conflict, value_error}
use praecepta.Registry.OidcSub
use praecepta.Registry.OidcSub.{SubRow}
use praecepta.ValueObjects.{oidc_sub, email}
use praecepta.User
use praecepta.User.{User, derived_name}
use praecepta.Provisioning.{Store, Faults, Write, ensure_user_exists}
use praecepta.Provisioning.Outcomes.{alone, no_faults, ensure-confirmed, ensure-new}
use praecepta.Provisioning.Compensation.{ensure-again}
use praecepta.Provisioning.RowLeft.{RowLeft}
use praecepta.Provisioning.Race.{before_reserve, race_ignores_tenant}
use praecepta.Provisioning.Interleaving.{
  World, trying, holding, returned, set_phase, Reach, here, next, reserve, confirm, find, IsSafe,
}
use praecepta.Provisioning.Interleaving.Uniqueness.{one_user}

abbrev ann : String → User ℕ
ann tenant = record {
  oidc_sub = "sub-1";
  email = "";
  tenant_id = tenant;
  display_name = "Ann";
  preferences = [];
}

abbrev empty_store : Store ℕ
empty_store = record { registry = []; users = [] }

abbrev confirmed : String → Store ℕ
confirmed tenant = record {
  registry = ("sub-1", record { user_id = some "u-1"; tenant_id = tenant; confirmed = true }) ∷ [];
  users = ("u-1", ann tenant) ∷ [];
}

abbrev stale : Store ℕ
stale = record { registry = ("sub-1", OidcSub.reserved_row "acme") ∷ []; users = [] }

ann_provisioned : User.provision {V = ℕ} "sub-1" "acme" none (some "Ann") ≡ ok (ann "acme")
unfolding User.provision oidc_sub email
ann_provisioned = refl

first_call :
    ensure_user_exists alone no_faults "sub-1" "acme" none (some "Ann") "u-1" empty_store
    ≡ (ok "u-1", confirmed "acme")
unfolding ensure_user_exists OidcSub.lookup OidcSub.reserve OidcSub.confirm Dict.get Dict.put
    User.provision oidc_sub email
first_call = refl

ensure-confirmed_example :
    ensure_user_exists alone no_faults "sub-1" "acme" none none "u-2" (confirmed "acme")
    ≡ (ok "u-1", confirmed "acme")
unfolding OidcSub.lookup Dict.get
ensure-confirmed_example =
    ensure-confirmed no_faults "sub-1" "acme" none none "u-2" (confirmed "acme") {u = ann "acme"}
      refl refl

ensure-new_example :
    let (r, s') =
      ensure_user_exists alone no_faults "sub-1" "acme" none (some "Ann") "u-1" empty_store in
    (r ≡ ok "u-1")
    × (OidcSub.lookup s'.registry "sub-1" ≡ some "u-1")
    × ((j : String)
        → ◌≢◌ {A = String} "sub-1" j
        → Dict.get s'.registry j ≡ Dict.get {V = SubRow} [] j)
    × ((j : String)
        → Dict.get s'.users j ≡ (if str_eq "u-1" j then some (ann "acme") else Dict.get [] j))
unfolding Dict.get
ensure-new_example =
    ensure-new "sub-1" "acme" none (some "Ann") "u-1" empty_store refl (omega arith) (omega arith)
      ann_provisioned

abbrev lost_save : Faults
lost_save = record {
  save = Write.lost (value_error "the event store is down");
  confirm = Write.done;
  release = Write.done;
}

-- The release goes down with the save.
abbrev all_lost : Faults
all_lost = record lost_save { release = Write.lost (value_error "the database is down") }

ensure-again_example :
    let s' =
      (ensure_user_exists alone no_faults "sub-1" "acme" none (some "Ann") "u-1" empty_store).1 in
    ensure_user_exists alone lost_save "sub-1" "acme" none none "u-2" s' ≡ (ok "u-1", s')
ensure-again_example =
    ensure-again no_faults lost_save "sub-1" "acme" none (some "Ann") none none "u-1" "u-2"
      empty_store "u-1" (ap (λ (o : Result String × Store ℕ). o.0) first_call)

abbrev ann_of_globex : User ℕ
ann_of_globex = record (ann "globex") { display_name = "User" }

globex_provisioned : User.provision {V = ℕ} "sub-1" "globex" none none ≡ ok ann_of_globex
unfolding User.provision oidc_sub email derived_name
globex_provisioned = refl

race_ignores_tenant_example :
    let rival =
      λ (w : Store ℕ). (ensure_user_exists alone no_faults "sub-1" "globex" none none "u-2" w).1 in
    ((ensure_user_exists alone no_faults "sub-1" "globex" none none "u-2" empty_store).0 ≡ ok "u-2")
    × (ensure_user_exists
          (before_reserve rival)
          no_faults
          "sub-1"
          "acme"
          none
          none
          "u-1"
          empty_store
        ≡ (ok "u-2", rival empty_store))
    × (Dict.get (rival empty_store).users "u-2" ≡ some ann_of_globex)
    × (ann_of_globex.tenant_id ≡ "globex")
    × ((ensure_user_exists alone no_faults "sub-1" "acme" none none "u-1" (rival empty_store)).0
        ≡ err (conflict "OIDC sub is already provisioned for a different tenant"))
unfolding Dict.get
race_ignores_tenant_example =
    race_ignores_tenant "sub-1" "acme" "globex" none none none none "u-1" "u-2" no_faults
      empty_store ann_of_globex refl (omega arith) (omega arith) (omega arith) globex_provisioned
      (ground (arith, eq_iff "globex" "acme"))

-- Two processes with one subject: the first reserves and confirms, the second finds the user.
abbrev start : World
start = record { registry = []; phase = λ p. trying }

start-IsSafe : IsSafe (λ p. "sub-1") (λ p. "acme") start
start-IsSafe = record { keyed = tt; held = λ p h. cc; alone = λ p q h k e. cc; named = λ p u h. cc }

abbrev reserved : World
reserved = record {
  registry = ("sub-1", OidcSub.reserved_row "acme") ∷ [];
  phase = set_phase (λ p. trying) 0 holding;
}

abbrev done : World
done = record {
  registry = OidcSub.confirm reserved.registry "sub-1" "u-1";
  phase = set_phase reserved.phase 0 (returned "u-1");
}

abbrev both : World
both = record done { phase = set_phase done.phase 1 (returned "u-1") }

two_calls : Reach (λ p. "sub-1") (λ p. "acme") start both
unfolding OidcSub.lookup OidcSub.reserve OidcSub.confirm Dict.get
two_calls =
    next (next (next here (reserve 0 reserved.registry refl refl)) (confirm 0 "u-1" refl))
      (find 1 "u-1" refl refl)

one_user_example : ◌≡◌ {A = String} "u-1" "u-1"
one_user_example =
    one_user (λ p. "sub-1") (λ p. "acme") 0 1 "u-1" "u-1" start-IsSafe two_calls refl refl refl
