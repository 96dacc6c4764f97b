-- ===== src/ReadModel/Gate.antt =====
-- middleware/tenant_state.py (packages/infra-fastapi): `TenantStateMiddleware`. The application gives
-- the checker that says the status of a tenant, if it gives one.
use praecepta.Prelude.{
  ℕ, String, ◌≡◌, refl, ap, ◌∙◌, Bool, true, false, not, ◌&&◌, ◌||◌, List, [], ◌∷◌, map, Option,
  none, some, arith, str_eq, eq_iff, subst, Bool-cases, inl, inr, if◌then◌else◌,
}
use praecepta.Text.{append, truthy, lower_eq}
use praecepta.ValueObjects.{TenantStatus, status_value}
use praecepta.Errors.{ok, both_returned}
use praecepta.Dict
use praecepta.Auth.{is_excluded}
use praecepta.Tenant.{
  Tenant, TenantEvent, TenantCommand, activated, suspended, decommissioned, config_updated,
  metadata_updated, run,
}
use praecepta.Tenant.Invariant.{run-SameIdentity}
use praecepta.ReadModel.TenantList
use praecepta.ReadModel.TenantList.{Tenants, TenantRow, process_all, set_status, process_event}
use praecepta.ReadModel.TenantList.Status.{Listed, run-Listed}

-- What the middleware reads of the scope; a header is a name and a value.
pub record Scope : Type 0 where
  pub type : String
  pub path : String
  pub headers : List (String × String)

-- The application runs, or a response says that the tenant is blocked.
pub data Passage : Type 0 where
  through : Passage
  blocked : (status_code : ℕ) (error_code detail : String) → Passage

-- `_extract_header`: the first with the name
unfoldable pub extract_header : List (String × String) → (name : String) → String
extract_header [] name = ""
extract_header ((key, value) ∷ headers) name =
    if lower_eq key name then value else extract_header headers name

-- `lower` of the two statuses that are blocked
abbrev lowered : String → String
lowered status = if str_eq status "SUSPENDED" then "suspended" else "decommissioned"

-- steps 5 to 7
unfoldable pub by_status : (tenant_slug : String) → (status : Option String) → Passage
by_status tenant_slug none = through
by_status tenant_slug (some status) =
    if str_eq status "SUSPENDED" || str_eq status "DECOMMISSIONED"
    then blocked 403 "TENANT_SUSPENDED" (
        append (append (append (append "Tenant '" tenant_slug) "' is ") (lowered status))
          ". Contact your platform administrator.")
    else through

unfoldable pub by_checker :
    (check_status : Option (String → Option String)) → (tenant_slug : String) → Passage
by_checker none tenant_slug = through
by_checker (some check_status) tenant_slug = by_status tenant_slug (check_status tenant_slug)

unfoldable pub call :
    (check_status : Option (String → Option String)) → (excluded : List String) → Scope → Passage
call check_status excluded scope =
    let tenant_slug = extract_header scope.headers "x-tenant-id" in
    if not (str_eq scope.type "http" || str_eq scope.type "websocket")
    then through
    else if is_excluded excluded scope.path
    then through
    else if not (truthy tenant_slug)
    then through
    else by_checker check_status tenant_slug

abbrev pub is_blocked : Passage → Bool
is_blocked through = false
is_blocked (blocked status_code error_code detail) = true

-- The statuses in which a tenant may not be served.
abbrev pub is_closed : TenantStatus → Bool
is_closed TenantStatus.provisioning = false
is_closed TenantStatus.active = false
is_closed TenantStatus.suspended = true
is_closed TenantStatus.decommissioned = true

-- `TenantRepository.get(slug)["status"]`
abbrev pub row_status : Option TenantRow → Option String
row_status none = none
row_status (some r) = some r.status

abbrev pub repository_status : Tenants → String → Option String
repository_status d slug = row_status (TenantList.get d slug)

by_status-closed :
    (slug : String) (s : TenantStatus)
    → is_blocked (by_status slug (some (status_value s))) ≡ is_closed s
unfolding by_status status_value
by_status-closed slug TenantStatus.provisioning = refl
by_status-closed slug TenantStatus.active = refl
by_status-closed slug TenantStatus.suspended = refl
by_status-closed slug TenantStatus.decommissioned = refl

-- With a checker that reads the table, a request for a slug is blocked exactly when the status in the
-- row of the slug is closed.
call-closed :
    (d : Tenants) (excluded : List String) (path slug : String) (status : TenantStatus)
    (r : TenantRow)
    → is_excluded excluded path ≡ false
    → truthy slug ≡ true
    → TenantList.get d slug ≡ some r
    → r.status ≡ status_value status
    → is_blocked (
        call
          (some (repository_status d))
          excluded
          (record { type = "http"; path = path; headers = ("X-Tenant-ID", slug) ∷ [] }))
      ≡ is_closed status
unfolding call extract_header by_checker
call-closed d excluded path slug status r inside some_slug found same =
    rw (inside, some_slug, found, same) (by_status-closed slug status)

-- No other row than that of `id` has the slug.
abbrev pub OnlySlug : (id slug : String) → Tenants → Type 0
OnlySlug id slug [] = Unit {0}
OnlySlug id slug ((k, r) ∷ d) =
    ((str_eq r.slug slug && not (str_eq k id)) ≡ false) × OnlySlug id slug d

get-OnlySlug :
    (id slug : String) (d : Tenants) (r : TenantRow)
    → OnlySlug id slug d
    → Dict.get d id ≡ some r
    → r.slug ≡ slug
    → TenantList.get d slug ≡ some r
unfolding TenantList.get Dict.get
get-OnlySlug id slug [] r only found same = cc found
get-OnlySlug id slug ((k, q) ∷ d) r (first, only) found same = elim (Bool-cases (str_eq k id)) [
  | inl e ↦
      let row : q ≡ r = cc (rw e at found) in
      rw ((eq_iff q.slug slug).1 (ap (λ x. x.slug) row ∙ same)) (ap some row)
  | inr e ↦
      let other : str_eq q.slug slug ≡ false = ground (arith, first, e) in
      rw other (get-OnlySlug id slug d r only (rw e at found) same)
]

set_status-OnlySlug :
    (id slug : String) (d : Tenants) (status column at : String)
    → OnlySlug id slug d
    → OnlySlug id slug (set_status d id status column at)
unfolding set_status
set_status-OnlySlug id slug [] status column at only = tt
set_status-OnlySlug id slug ((k, q) ∷ d) status column at (first, only) =
    (ground (arith, first), set_status-OnlySlug id slug d status column at only)

ok_eq : {A : Type 0} {a b : A} → ok a ≡ ok b → a ≡ b
ok_eq h = cc h

module _ {V : Type 0} where
  process_event-OnlySlug :
      (id slug at : String) (e : TenantEvent V) (d d' : Tenants)
      → OnlySlug id slug d
      → process_event id at e d ≡ ok d'
      → OnlySlug id slug d'
  unfolding process_event TenantList.update_status
  process_event-OnlySlug id slug at (activated by corr) d d' only h =
      subst (OnlySlug id slug) (ok_eq h)
        (set_status-OnlySlug id slug d "ACTIVE" "activated_at" at only)
  process_event-OnlySlug id slug at (suspended reason category by corr) d d' only h =
      subst (OnlySlug id slug) (ok_eq h)
        (set_status-OnlySlug id slug d "SUSPENDED" "suspended_at" at only)
  process_event-OnlySlug id slug at (TenantEvent.reactivated by corr) d d' only h =
      subst (OnlySlug id slug) (ok_eq h)
        (set_status-OnlySlug id slug d "ACTIVE" "activated_at" at only)
  process_event-OnlySlug id slug at (decommissioned reason by corr) d d' only h =
      subst (OnlySlug id slug) (ok_eq h)
        (set_status-OnlySlug id slug d "DECOMMISSIONED" "decommissioned_at" at only)
  process_event-OnlySlug id slug at (config_updated i k v by) d d' only h =
      subst (OnlySlug id slug) (ok_eq h) only
  process_event-OnlySlug id slug at (metadata_updated m by) d d' only h =
      subst (OnlySlug id slug) (ok_eq h) only
  process_event-OnlySlug id slug at (TenantEvent.data_deleted category count by) d d' only h =
      subst (OnlySlug id slug) (ok_eq h) only

  process_all-OnlySlug :
      (id slug : String) (es : List (String × TenantEvent V)) (d d' : Tenants)
      → OnlySlug id slug d
      → process_all id es d ≡ ok d'
      → OnlySlug id slug d'
  unfolding process_all
  process_all-OnlySlug id slug [] d d' only h = subst (OnlySlug id slug) (ok_eq h) only
  process_all-OnlySlug id slug ((at, e) ∷ es) d d' only h =
      let (m, first, rest) = both_returned (process_event id at e d) (process_all id es) h in
      process_all-OnlySlug id slug es m d' (process_event-OnlySlug id slug at e d m only first) rest

  -- Whatever commands a tenant gets, once the projection has processed the events that they record, a
  -- request that names the tenant on a path that is not excluded is blocked exactly when the aggregate
  -- is suspended or decommissioned, if the checker reads the table, the tenant was listed before, and
  -- no other row has its slug.
  pub run-closed :
      (id path : String) (excluded : List String) (cs : List (TenantCommand V))
      (es : List (String × TenantEvent V)) (d : Tenants) (t : Tenant V)
      → Listed id d t
      → OnlySlug id t.slug d
      → map (λ e. e.1) es ≡ (run cs t).1
      → is_excluded excluded path ≡ false
      → truthy t.slug ≡ true
      → (d' : Tenants) × (process_all id es d ≡ ok d')
        × (is_blocked (
              call
                (some (repository_status d'))
                excluded
                (record { type = "http"; path = path; headers = ("X-Tenant-ID", t.slug) ∷ [] }))
            ≡ is_closed (run cs t).0.status)
  run-closed id path excluded cs es d t listed only same inside slug =
      let (d', done, (r, found, row)) = run-Listed id cs es d t listed same in
      let kept = (run-SameIdentity cs t).slug in
      let found_slug =
        get-OnlySlug id t.slug d' r (process_all-OnlySlug id t.slug es d d' only done) found
          (row.slug ∙ kept) in
      (
        d',
        done,
        call-closed d' excluded path t.slug (run cs t).0.status r inside slug found_slug row.status,
      )
