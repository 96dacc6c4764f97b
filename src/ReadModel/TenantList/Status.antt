-- ===== src/ReadModel/TenantList/Status.antt =====
-- The rows of the table of tenants against the aggregates.
use praecepta.Prelude.{
  String, ◌≡◌, refl, sym, subst, ap, ◌∙◌, List, [], ◌∷◌, map, none, some, arith, str_eq, eq_refl,
  Bool-cases, inl, inr,
}
use praecepta.Dict
use praecepta.Dict.{Dict}
use praecepta.Errors.{ok}
use praecepta.ValueObjects.{TenantStatus, status_value}
use praecepta.Tenant.{
  Tenant, TenantEvent, TenantCommand, activated, suspended, decommissioned, config_updated,
  metadata_updated, mutate, run, replay,
}
use praecepta.Tenant.History.{replay-run}
use praecepta.ReadModel.TenantList.{
  TenantRow, Tenants, upsert, put_row, set_column, set_status, update_status, provisioned,
  process_event, process_all,
}

get-set_status :
    (d : Tenants) (k status column timestamp : String) (r : TenantRow)
    → Dict.get d k ≡ some r
    → Dict.get (set_status d k status column timestamp) k
      ≡ some (record (set_column column timestamp r) { status = status })
unfolding set_status Dict.get
get-set_status [] k status column timestamp r h = cc h
get-set_status ((i, q) ∷ d) k status column timestamp r h = elim (Bool-cases (str_eq i k)) [
  | inl e ↦ rw e (
      ap some
        (ap (λ x. record (set_column column timestamp x) { status = status }) (q_is_r (rw e at h))))
  | inr e ↦ rw e (get-set_status d k status column timestamp r (rw e at h))
]
  where
    q_is_r : some q ≡ some r → q ≡ r
    q_is_r h = cc h

set_column-same :
    (column timestamp : String) (r : TenantRow)
    → ((set_column column timestamp r).slug ≡ r.slug)
      × ((set_column column timestamp r).name ≡ r.name)
set_column-same column timestamp r = (ground arith, ground arith)

get-put_row_new :
    (d : Tenants) (id slug name status at : String)
    → Dict.get d id ≡ none
    → Dict.get (put_row d id slug name status at) id
      ≡ some (record {
        slug = slug;
        name = name;
        status = status;
        created_at = at;
        activated_at = none;
        suspended_at = none;
        decommissioned_at = none;
      })
unfolding put_row Dict.get
get-put_row_new [] id slug name status at h = rw (eq_refl id) refl
get-put_row_new ((i, r) ∷ d) id slug name status at h =
    ground (arith, get-put_row_new d id slug name status at)

module _ {V : Type 0} where
  -- A row that says what the aggregate says.
  pub record IsRow (r : TenantRow) (t : Tenant V) : Type 0 where
    pub slug : r.slug ≡ t.slug
    pub name : r.name ≡ t.name
    pub status : r.status ≡ status_value t.status

  abbrev pub Listed : (id : String) → Tenants → Tenant V → Type 0
  Listed id d t = (r : TenantRow) × (Dict.get d id ≡ some r) × IsRow r t

  unmoved :
      (id : String) (d : Tenants) (t u : Tenant V)
      → Listed id d t
      → u.slug ≡ t.slug
      → u.name ≡ t.name
      → u.status ≡ t.status
      → Listed id d u
  unmoved id d t u (r, found, row) slug name same = (
    r,
    found,
    record {
      slug = row.slug ∙ sym slug;
      name = row.name ∙ sym name;
      status = row.status ∙ ap status_value (sym same);
    },
  )

  moved :
      (id : String) (d : Tenants) (t u : Tenant V) (status column timestamp : String)
      → Listed id d t
      → u.slug ≡ t.slug
      → u.name ≡ t.name
      → status_value u.status ≡ status
      → Listed id (set_status d id status column timestamp) u
  moved id d t u status column timestamp (r, found, row) slug name same =
      let (slug', name') = set_column-same column timestamp r in
      (
        record (set_column column timestamp r) { status = status },
        get-set_status d id status column timestamp r found,
        record {
          slug = slug' ∙ row.slug ∙ sym slug;
          name = name' ∙ row.name ∙ sym name;
          status = sym same;
        },
      )

  process_event-Listed :
      (id : String) (d : Tenants) (t : Tenant V) (at : String) (e : TenantEvent V)
      → Listed id d t
      → (d' : Tenants) × (process_event id at e d ≡ ok d') × Listed id d' (mutate e t)
  unfolding process_event update_status mutate status_value
  process_event-Listed id d t at (activated by corr) h =
      (_, refl, moved id d t _ "ACTIVE" "activated_at" at h refl refl refl)
  process_event-Listed id d t at (suspended reason category by corr) h =
      (_, refl, moved id d t _ "SUSPENDED" "suspended_at" at h refl refl refl)
  process_event-Listed id d t at (TenantEvent.reactivated by corr) h =
      (_, refl, moved id d t _ "ACTIVE" "activated_at" at h refl refl refl)
  process_event-Listed id d t at (decommissioned reason by corr) h =
      (_, refl, moved id d t _ "DECOMMISSIONED" "decommissioned_at" at h refl refl refl)
  process_event-Listed id d t at (config_updated tenant key value by) h =
      (d, refl, unmoved id d t _ h refl refl refl)
  process_event-Listed id d t at (metadata_updated metadata by) h =
      (d, refl, unmoved id d t _ h refl refl refl)
  process_event-Listed id d t at (TenantEvent.data_deleted category count by) h = (d, refl, h)

  process_all-Listed :
      (id : String) (es : List (String × TenantEvent V)) (d : Tenants) (t : Tenant V)
      → Listed id d t
      → (d' : Tenants) × (process_all id es d ≡ ok d') × Listed id d' (replay t (map (λ e. e.1) es))
  unfolding process_all replay
  process_all-Listed id [] d t h = (d, refl, h)
  process_all-Listed id ((at, e) ∷ es) d t h =
      let (d', done, row) = process_event-Listed id d t at e h in
      let (d'', all, last) = process_all-Listed id es d' (mutate e t) row in
      (d'', rw done all, last)

  -- For a tenant that the table lists, processing the events that any commands on it record, whatever
  -- their timestamps, does not raise and leaves a row with the slug, the name and the status that the
  -- aggregate then has.
  pub run-Listed :
      (id : String) (cs : List (TenantCommand V)) (es : List (String × TenantEvent V)) (d : Tenants)
      (t : Tenant V)
      → Listed id d t
      → map (λ e. e.1) es ≡ (run cs t).1
      → (d' : Tenants) × (process_all id es d ≡ ok d') × Listed id d' (run cs t).0
  run-Listed id cs es d t h same =
      let (d', all, last) = process_all-Listed id es d t h in
      (d', all, subst (Listed id d') (ap (replay t) same ∙ replay-run cs t) last)

  -- A new tenant whose row is written is listed.
  pub provisioned-Listed :
      (id slug name at : String) (d d' : Tenants) (t : Tenant V)
      → provisioned id slug name at d ≡ ok d'
      → Dict.get d id ≡ none
      → t.slug ≡ slug
      → t.name ≡ name
      → t.status ≡ TenantStatus.provisioning
      → Listed id d' t
  unfolding provisioned upsert status_value
  provisioned-Listed id slug name at d d' t written free same_slug same_name same =
      let put : put_row d id slug name "PROVISIONING" at ≡ d' = ground (arith, written) in
      (
        _,
        ap (λ w. Dict.get w id) (sym put) ∙ get-put_row_new d id slug name "PROVISIONING" at free,
        record { slug = sym same_slug; name = sym same_name; status = sym (ap status_value same) },
      )
