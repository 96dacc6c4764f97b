-- ===== src/Agent/Keys.antt =====
-- The status of each key, and how the updates of the key list change it.
use praecepta.Prelude.{
  ℕ, ◌+◌, String, ◌≡◌, refl, ◌≢◌, List, [], ◌∷◌, ◌++◌, Option, none, some, arith, str_eq, eq_iff,
  eq_refl, subst, Bool-cases, inl, inr, if◌then◌else◌,
}
use praecepta.Agent.{ApiKey, revoke, first_active}

-- The status under which a key stands in the list.
unfoldable pub key_status : List ApiKey → String → Option String
key_status [] j = none
key_status (k ∷ ks) j = if str_eq k.key_id j then some k.status else key_status ks j

-- How many keys are active.
pub count_active : List ApiKey → ℕ
count_active [] = 0
count_active (k ∷ ks) = (if str_eq k.status "active" then 1 else 0) + count_active ks

-- No two keys have the same id.
pub Distinct : List ApiKey → Type 0
Distinct [] = Unit
Distinct (k ∷ ks) = (key_status ks k.key_id ≡ none) × Distinct ks

abbrev pub or_else : Option String → Option String → Option String
or_else none o = o
or_else (some s) o = some s

pub key_status-append :
    (ks : List ApiKey) (k : ApiKey) (j : String)
    → key_status (ks ++ k ∷ []) j
      ≡ or_else (key_status ks j) (if str_eq k.key_id j then some k.status else none)
unfolding key_status
key_status-append [] k j = ground arith
key_status-append (x ∷ ks) k j = ground (arith, key_status-append ks k j)

abbrev pub revoked_if : Option String → Option String
revoked_if none = none
revoked_if (some s) = some "revoked"

pub key_status-revoke :
    (old : String) (ks : List ApiKey) (j : String)
    → key_status (revoke old ks) j
      ≡ (if str_eq old j then revoked_if (key_status ks j) else key_status ks j)
unfolding key_status revoke
key_status-revoke old [] j = ground arith
key_status-revoke old (k ∷ ks) j =
    ground (arith, key_status-revoke old ks j, eq_iff k.key_id old, eq_iff k.key_id j, eq_iff old j)

-- The first active key has an id, and its status in the list is a status.
pub first_active-key_status :
    (ks : List ApiKey) {k : ApiKey} → first_active ks ≡ some k → key_status ks k.key_id ≢ none
unfolding first_active key_status
first_active-key_status [] h = cc
first_active-key_status (x ∷ ks) {k} h =
    ground (arith, first_active-key_status ks {k = k}, eq_iff x.key_id k.key_id)

pub count_active-append :
    (ks : List ApiKey) (k : ApiKey)
    → count_active (ks ++ k ∷ []) ≡ count_active ks + (if str_eq k.status "active" then 1 else 0)
unfolding count_active
count_active-append [] k = omega arith
count_active-append (x ∷ ks) k = omega (arith, count_active-append ks k)

count_active-revoke_absent :
    (old : String) (ks : List ApiKey)
    → key_status ks old ≡ none
    → count_active (revoke old ks) ≡ count_active ks
unfolding count_active revoke key_status
count_active-revoke_absent old [] h = refl
count_active-revoke_absent old (k ∷ ks) h = ground (arith, count_active-revoke_absent old ks)

some_eq : {x y : ApiKey} → some x ≡ some y → x ≡ y
some_eq h = ground arith

-- With distinct ids, revoking the first active key takes one active key away.
pub count_active-revoke :
    (ks : List ApiKey) {k : ApiKey}
    → Distinct ks
    → first_active ks ≡ some k
    → count_active (revoke k.key_id ks) + 1 ≡ count_active ks
unfolding count_active revoke first_active Distinct
count_active-revoke [] d h = cc
count_active-revoke (x ∷ ks) {k} d h = elim (Bool-cases (str_eq x.status "active")) [
  | inl e ↦
      let found : x ≡ k = some_eq (rw e at h) in
      subst (λ (y : ApiKey). count_active (revoke y.key_id (x ∷ ks)) + 1 ≡ count_active (x ∷ ks))
        found (rw (eq_refl x.key_id, e, count_active-revoke_absent x.key_id ks d.0) (omega arith))
  | inr e ↦
      let later : first_active ks ≡ some k = (rw e at h) in
      elim (Bool-cases (str_eq x.key_id k.key_id)) [
        | inl same ↦ rw (same, e) (omega (arith, count_active-revoke ks d.1 later))
        | inr other ↦ rw (other, e) (omega (arith, count_active-revoke ks d.1 later))
      ]
]
