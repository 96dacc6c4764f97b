-- ===== src/Auth/KeyTable/Rotated.antt =====
-- agent_api_key.py: the rows after a rotation, whether its event has a tenant or not.
use praecepta.Prelude.{
  String, ◌≡◌, refl, ap, ◌∙◌, false, Option, none, some, arith, str_eq, eq_iff, if◌then◌else◌,
}
use praecepta.Dict
use praecepta.Dict.{Dict}
use praecepta.Errors.{Result, ok, err, attribute_error}
use praecepta.Auth.KeyTable.{
  KeyRow, KeyTable, DomainEvent, attribute, insert_key, revoke_and_insert, handle_rotated,
  process_event, update_status, with_status, get-update_status, get-upsert_new, get-upsert_other,
  lookup_by_key_id, left_by,
}

-- what the processing of an event that needs a tenant comes to
abbrev pub with_tenant : Option String → Result (Unit {0})
with_tenant none = err (attribute_error "tenant_id")
with_tenant (some tenant_id) = ok tt

abbrev pub new_row : (agent_id key_hash : String) → (tenant_id : Option String) → Option KeyRow
new_row agent_id key_hash none = none
new_row agent_id key_hash (some tenant_id) =
    some (record {
      agent_id = agent_id;
      tenant_id = tenant_id;
      key_hash = key_hash;
      status = "active";
    })

module _ (e : DomainEvent) (d : KeyTable) (new_key_id new_key_hash : String) where
  inserted-rows :
      (id_name hash_name : String) (d' : KeyTable) (tenant_id : Option String) (j : String)
      → Dict.get e.attributes "tenant_id" ≡ tenant_id
      → Dict.get e.attributes id_name ≡ some new_key_id
      → Dict.get e.attributes hash_name ≡ some new_key_hash
      → Dict.get d' new_key_id ≡ none
      → ((left_by d' (insert_key e id_name hash_name d')).0 ≡ with_tenant tenant_id)
        × (Dict.get (left_by d' (insert_key e id_name hash_name d')).1 j ≡ (
            if str_eq new_key_id j
            then new_row e.originator_id new_key_hash tenant_id
            else Dict.get d' j))
  unfolding insert_key attribute
  inserted-rows id_name hash_name d' none j ht hk hh free =
      rw (hk, ht) (refl, ground (arith, eq_iff new_key_id j, free))
  inserted-rows id_name hash_name d' (some t) j ht hk hh free =
      rw (hk, ht, hh)
        (
          refl,
          ground (
            arith,
            eq_iff new_key_id j,
            get-upsert_new d' new_key_id e.originator_id t new_key_hash "active" free,
            get-upsert_other d' new_key_id e.originator_id t new_key_hash "active" j,
          ),
        )

  -- For an event of a rotation with the three attributes that the agent gives it, and a new key without a
  -- row that is not the revoked one: the old key becomes revoked in any case. If the event has a tenant
  -- too, the new key gets an active row with it, and if not, an AttributeError is raised after the
  -- revocation and the new key gets no row. No other row changes.
  pub process_event-rotated :
      (revoked_key_id : String)
      → e.class_name ≡ "APIKeyRotated"
      → Dict.get e.attributes "revoked_key_id" ≡ some revoked_key_id
      → Dict.get e.attributes "new_key_id" ≡ some new_key_id
      → Dict.get e.attributes "new_key_hash" ≡ some new_key_hash
      → lookup_by_key_id d new_key_id ≡ none
      → str_eq new_key_id revoked_key_id ≡ false
      → ((process_event e d).0 ≡ with_tenant (Dict.get e.attributes "tenant_id"))
        × ((j : String)
            → lookup_by_key_id (process_event e d).1 j ≡ (
                if str_eq new_key_id j
                then new_row e.originator_id new_key_hash (Dict.get e.attributes "tenant_id")
                else if str_eq revoked_key_id j
                then with_status "revoked" (lookup_by_key_id d j)
                else lookup_by_key_id d j))
  unfolding process_event handle_rotated revoke_and_insert attribute lookup_by_key_id insert_key
  process_event-rotated old class ho hk hh free differ =
      let after = update_status d old "revoked" in
      let still : Dict.get after new_key_id ≡ none = ground (
        arith,
        get-update_status d old "revoked" new_key_id,
        eq_iff new_key_id old,
        eq_iff old new_key_id,
        free,
      ) in
      rw (class, ho)
        (
          (inserted-rows "new_key_id" "new_key_hash" after _ "" refl hk hh still).0,
          λ j.
              (inserted-rows "new_key_id" "new_key_hash" after _ j refl hk hh still).1
              ∙ ap
                  (λ r.
                    if str_eq new_key_id j
                    then new_row e.originator_id new_key_hash (Dict.get e.attributes "tenant_id")
                    else r)
                  (get-update_status d old "revoked" j),
        )
