-- ===== src/ReadModel/UserProfile/Profiled.antt =====
-- The rows of the table of user profiles against the aggregates.
use praecepta.Prelude.{
  ◌≤◌, String, ◌≡◌, refl, sym, ap, subst, true, false, List, [], ◌∷◌, Option, none, some, arith,
  eq_refl, inl, inr,
}
use praecepta.Text.{len}
use praecepta.Dict
use praecepta.Dict.{Dict}
use praecepta.Errors.{Result-cases, ok, both_returned}
use praecepta.ValueObjects.{display_name, email, oidc_sub}
use praecepta.ValueObjects.Names.{display_name-IsName}
use praecepta.User.{
  User, UserCommand, rename, prefer, or_empty, derived_name, provision, update_display_name,
  update_preferences, or_unchanged, run,
}
use praecepta.User.Names.{provision-claims}
use praecepta.ReadModel.UserProfile.{
  UserRow, provisioned, has_sub, fits_columns, upsert_row, sub_taken, upsert_full, update_row,
  set_display_name, set_preferences, of_tenant, get_by_user_id, profile_name, process_event,
  process_all, renamed_event, recorded,
}

email-len : (s : String) {v : String} → email s ≡ ok v → len s ≤ 255
unfolding email
email-len String.[] h = ground arith
email-len (String.◌∷◌ c s) h = ground arith

module _ {V : Type 0} where
  -- the row that an aggregate stands for
  abbrev pub row_of : User V → UserRow V
  row_of u = record {
    oidc_sub = u.oidc_sub;
    email = u.email;
    display_name = u.display_name;
    tenant_id = u.tenant_id;
    preferences = u.preferences;
  }

  abbrev pub Profiled : (id : String) → Dict (UserRow V) → User V → Type 0
  Profiled id d u = Dict.get d id ≡ some (row_of u)

  rename-Profiled :
      (id name : String) (d : Dict (UserRow V)) (u : User V)
      → len name ≤ 255
      → Profiled id d u
      → (d' : Dict (UserRow V)) × (set_display_name id name d ≡ ok d')
        × Profiled id d' (record u { display_name = name })
  unfolding set_display_name update_row
  rename-Profiled id name d u short h = (
    Dict.put d id (record (row_of u) { display_name = name }),
    rw h (ground arith),
    Dict.get-put_self d id _,
  )

  prefer-Profiled :
      (id : String) (preferences : Dict V) (d : Dict (UserRow V)) (u : User V)
      → Profiled id d u
      → Profiled id (set_preferences id preferences d) (update_preferences u preferences)
  unfolding set_preferences update_row update_preferences
  prefer-Profiled id preferences d u h = rw h (Dict.get-put_self d id _)

  recorded-Profiled :
      (id : String) (cs : List (UserCommand V)) (d : Dict (UserRow V)) (u : User V)
      → Profiled id d u
      → (d' : Dict (UserRow V)) × (process_all id (recorded cs) d ≡ ok d')
        × Profiled id d' (run cs u)
  unfolding recorded process_all process_event run update_display_name renamed_event
  recorded-Profiled id [] d u h = (d, refl, h)
  recorded-Profiled id (prefer preferences ∷ cs) d u h =
      recorded-Profiled id cs (set_preferences id preferences d) (update_preferences u preferences)
        (prefer-Profiled id preferences d u h)
  recorded-Profiled id (rename name ∷ cs) d u h = elim (Result-cases (display_name name)) [
    | inr (e, refused) ↦
        let (d', all, last) = recorded-Profiled id cs d u h in
        (d', rw refused all, rw (run, update_display_name, refused) last)
    | inl (v, taken) ↦
        let (d', done, row) = rename-Profiled id v d u (display_name-IsName name taken).short h in
        let (d'', all, last) = recorded-Profiled id cs d' (record u { display_name = v }) row in
        (d'', rw (taken, done) all, rw (run, update_display_name, taken) last)
  ]

  run-tenant : (cs : List (UserCommand V)) (u : User V) → (run cs u).tenant_id ≡ u.tenant_id
  unfolding run update_display_name update_preferences
  run-tenant [] u = refl
  run-tenant (prefer preferences ∷ cs) u = run-tenant cs (record u { preferences = preferences })
  run-tenant (rename name ∷ cs) u = elim (Result-cases (display_name name)) [
    | inl (v, e) ↦ rw (run, update_display_name, e) (run-tenant cs (record u { display_name = v }))
    | inr (_, e) ↦ rw (run, update_display_name, e) (run-tenant cs u)
  ]

  -- the row of a user that was just provisioned
  abbrev first_row : (sub tenant_id : String) (mail name : Option String) → UserRow V
  first_row sub tenant_id mail name = record {
    oidc_sub = sub;
    email = or_empty mail;
    display_name = derived_name name mail;
    tenant_id = tenant_id;
    preferences = [];
  }

  provision-row :
      (sub tenant_id : String) (mail name : Option String) (u : User V)
      → provision sub tenant_id mail name ≡ ok u
      → (row_of u ≡ first_row sub tenant_id mail name) × (len (or_empty mail) ≤ 255)
  unfolding provision
  provision-row sub tenant_id mail name u made =
      let (s, es, rest) = both_returned (oidc_sub sub) _ made in
      let (m, em, last) = both_returned (email (or_empty mail)) _ rest in
      let same = (provision-claims sub tenant_id mail name made).0 in
      let mails = (provision-claims sub tenant_id mail name made).4 in
      (
        ground (arith, ap (λ r. row_of (or_unchanged u r)) last, same, mails),
        email-len (or_empty mail) em,
      )

  within-fits :
      (r : UserRow V)
      → len r.oidc_sub ≤ 255
      → len r.email ≤ 255
      → len r.display_name ≤ 255
      → len r.tenant_id ≤ 63
      → fits_columns r ≡ true
  unfolding fits_columns
  within-fits r subs mails names tenants = ground arith

  provisioned-Profiled :
      (id sub tenant_id : String) (mail name : Option String) (d : Dict (UserRow V))
      → Dict.get d id ≡ none
      → has_sub sub d ≡ false
      → fits_columns (first_row sub tenant_id mail name) ≡ true
      → process_event id (provisioned sub tenant_id mail name) d
        ≡ ok (Dict.put d id (first_row sub tenant_id mail name))
  unfolding process_event upsert_full sub_taken upsert_row derived_name profile_name
  provisioned-Profiled id sub tenant_id mail name d free new fit = rw (free, new, fit) refl

  -- A user that is provisioned under an identifier and a subject that the table does not have, with a
  -- display name that fits the column and a tenant that does: processing the event of its creation and
  -- those of any later calls does not raise, and the row, read back for the user's tenant, has the
  -- subject, address, display name and preferences of the aggregate.
  pub provision-run-profile :
      (id sub tenant_id : String) (mail name : Option String) (u : User V)
      (cs : List (UserCommand V)) (d : Dict (UserRow V))
      → provision sub tenant_id mail name ≡ ok u
      → Dict.get d id ≡ none
      → has_sub sub d ≡ false
      → len u.display_name ≤ 255
      → len tenant_id ≤ 63
      → (d' : Dict (UserRow V)) × (process_all id
            (provisioned sub tenant_id mail name ∷ recorded cs)
            d
          ≡ ok d')
        × (get_by_user_id d' id tenant_id ≡ some (row_of (run cs u)))
  unfolding process_all get_by_user_id of_tenant
  provision-run-profile id sub tenant_id mail name u cs d made free new short narrow =
      let (same, mails) = provision-row sub tenant_id mail name u made in
      let (es, _, subs, et, em, en, _) = provision-claims sub tenant_id mail name made in
      let fit =
        within-fits (first_row sub tenant_id mail name) subs mails
          (subst (λ n. len n ≤ 255) en short) narrow in
      let first = provisioned-Profiled id sub tenant_id mail name d free new fit in
      let (d', done, row) =
        recorded-Profiled id cs (Dict.put d id (first_row sub tenant_id mail name)) u
          (rw (sym same) (Dict.get-put_self d id (row_of u))) in
      (d', rw first done, rw row (ground (arith, run-tenant cs u, et, eq_refl tenant_id)))
