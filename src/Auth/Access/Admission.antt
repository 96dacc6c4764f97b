-- ===== src/Auth/Access/Admission.antt =====
-- Which requests the two middlewares let through, and which they refuse.
use praecepta.Prelude.{
  String, ◌≡◌, ◌⊎◌, inl, inr, refl, Bool, true, false, not, ◌&&◌, Option, none, some, arith, str_eq,
  eq_iff, eq_refl, Bool-cases,
}
use praecepta.Text.{truthy, drop}
use praecepta.Errors.{Result, ok, err}
use praecepta.Config.{Value}
use praecepta.Auth.{Principal, Request, Outcome, next, refuse, raise, is_excluded}
use praecepta.Auth.KeyTable.{KeyTable, KeyRow, lookup_by_key_id, update_status, get-update_status}
use praecepta.Auth.ApiKey
use praecepta.Auth.ApiKey.{
  Parsed, bad, parts, parse_header, key_principal, with_check, with_row, with_header,
}
use praecepta.Auth.Jwt
use praecepta.Auth.Jwt.{
  Decoded, decoded, failed, extract_principal, with_principal, with_claims, with_token,
  dev_bypass_claims,
}
use praecepta.Auth.Access.{Setup, then_jwt, authenticate, Admitted, by_key, by_token, by_bypass}

module _ (c : Setup) where
  -- What a step of the first middleware that goes on says.
  check-next :
      (r : KeyRow) (o : Option Bool) (context : Option Principal)
      → with_check r o ≡ next context
      → (o ≡ some true) × (context ≡ some (key_principal r))
  unfolding with_check
  check-next r none context h = ground arith
  check-next r (some false) context h = ground arith
  check-next r (some true) context h = (refl, ground arith)

  row-next :
      (secret : String) (o : Option KeyRow) (context : Option Principal)
      → with_row c.check secret o ≡ next context
      → (r : KeyRow) × (o ≡ some r)
        × (r.status ≡ "active")
        × (c.check secret r.key_hash ≡ some true)
        × (context ≡ some (key_principal r))
  unfolding with_row
  row-next secret none context h = cc h
  row-next secret (some r) context h = elim (Bool-cases (str_eq r.status "active")) [
    | inl e ↦
        let (good, same) = check-next r (c.check secret r.key_hash) context (rw e at h) in
        (r, refl, (eq_iff r.status "active").0 e, good, same)
    | inr e ↦ cc (h, e)
  ]

  header-next :
      (table : KeyTable) (request : Request) (context : Option Principal) (q : Parsed)
      → parse_header c.prefix request.api_key ≡ q
      → with_header c.check q table ≡ next context
      → (p : Principal) × (context ≡ some p) × Admitted c table request p
  unfolding with_header
  header-next table request context (bad message) e h = cc h
  header-next table request context (parts key_id secret) e h =
      let (r, found, status, good, same) =
        row-next secret (lookup_by_key_id table key_id) context h in
      (key_principal r, same, by_key key_id secret r e found status good)

  key-next :
      (table : KeyTable) (request : Request) (context : Option Principal)
      → ApiKey.unauthenticated c.check c.prefix table none request ≡ next context
      → (truthy request.api_key ≡ false) × (context ≡ none)
        ⊎ ((p : Principal) × (context ≡ some p) × Admitted c table request p)
  unfolding ApiKey.unauthenticated
  key-next table request context h = elim (Bool-cases (truthy request.api_key)) [
    | inl e ↦
        inr (
          header-next table request context (parse_header c.prefix request.api_key) refl
            (rw e at h))
    | inr e ↦ inl (e, ground (arith, h, e))
  ]

  principal-next :
      (o : Result Principal) (context : Option Principal)
      → with_principal c.uuid c.str o ≡ next context
      → (p : Principal) × (o ≡ ok p) × (context ≡ some p)
  principal-next (ok p) context h = (p, refl, ground arith)
  principal-next (err e) context h = ground arith

  decoded-next :
      (d : Decoded) (context : Option Principal)
      → with_claims c.uuid c.str d ≡ next context
      → (v : Value) × (p : Principal) × (d ≡ decoded v)
        × (extract_principal c.uuid c.str v ≡ ok p)
        × (context ≡ some p)
  unfolding with_claims Jwt.jwt_refusal
  decoded-next (failed e) context h = ground arith
  decoded-next (decoded v) context h =
      let (p, good, same) = principal-next (extract_principal c.uuid c.str v) context h in
      (v, p, refl, good, same)

  provider-next :
      (table : KeyTable) (request : Request) (context : Option Principal)
      (provider : Option (String → Decoded))
      → c.provider ≡ provider
      → truthy request.api_key ≡ false
      → with_token c.uuid c.str provider (drop 7 request.authorization) ≡ next context
      → (p : Principal) × (context ≡ some p) × Admitted c table request p
  unfolding with_token
  provider-next table request context none e no_key h = cc h
  provider-next table request context (some decode) e no_key h =
      let (v, p, d, good, same) = decoded-next (decode (drop 7 request.authorization)) context h in
      (p, same, by_token decode v p no_key e d good)

  token-next :
      (table : KeyTable) (request : Request) (context : Option Principal)
      → truthy request.api_key ≡ false
      → Jwt.unauthenticated c.uuid c.str c.bypass c.provider request.authorization ≡ next context
      → (p : Principal) × (context ≡ some p) × Admitted c table request p
  unfolding Jwt.unauthenticated
  token-next table request context no_key h =
      elim (Bool-cases (c.bypass && not (truthy request.authorization))) [
        | inl e ↦
            let (p, good, same) =
              principal-next (extract_principal c.uuid c.str dev_bypass_claims) context
                (rw e at h) in
            (p, same, by_bypass p no_key (ground (arith, e)) (ground (arith, e)) good)
        | inr e ↦ provider-next table request context c.provider refl no_key (ground (arith, h, e))
      ]

  jwt-next :
      (table : KeyTable) (request : Request) (context : Option Principal)
      → is_excluded c.excluded request.path ≡ false
      → truthy request.api_key ≡ false
      → Jwt.dispatch c.uuid c.str c.bypass c.provider c.excluded none request ≡ next context
      → (p : Principal) × (context ≡ some p) × Admitted c table request p
  unfolding Jwt.dispatch
  jwt-next table request context inside no_key h =
      token-next table request context no_key (rw inside at h)

  passed :
      (request : Request) (p : Principal) (context : Option Principal)
      → then_jwt c (next (some p)) request ≡ next context
      → context ≡ some p
  unfolding Jwt.dispatch
  passed request p context h = ground arith

  chain-next :
      (table : KeyTable) (request : Request) (context : Option Principal) (o : Outcome)
      → is_excluded c.excluded request.path ≡ false
      → ApiKey.unauthenticated c.check c.prefix table none request ≡ o
      → then_jwt c o request ≡ next context
      → (p : Principal) × (context ≡ some p) × Admitted c table request p
  chain-next table request context (refuse status code message) inside e h = cc h
  chain-next table request context (raise x) inside e h = cc h
  chain-next table request context (next first) inside e h = elim (key-next table request first e) [
    | inl (no_key, same) ↦ jwt-next table request context inside no_key (rw same at h)
    | inr (p, same, good) ↦ (p, passed request p context (rw same at h), good)
  ]

  -- A request on a path that is not excluded reaches its handler only with a principal, and that one
  -- was admitted: by a key whose row is active and whose hash accepts the secret, or, without an API
  -- key, by a token that the provider accepts, or by the bypass, where it is on and no header is sent.
  pub authenticate-Admitted :
      (table : KeyTable) (request : Request) (context : Option Principal)
      → is_excluded c.excluded request.path ≡ false
      → authenticate c table request ≡ next context
      → (p : Principal) × (context ≡ some p) × Admitted c table request p
  unfolding authenticate ApiKey.dispatch
  authenticate-Admitted table request context inside h =
      chain-next table request context (ApiKey.unauthenticated c.check c.prefix table none request)
        inside refl (rw inside at h)

  -- A key that is revoked in the table is refused with 401, whatever its secret, where the header has
  -- the form of a key and the path is not excluded.
  pub authenticate-revoked :
      (table : KeyTable) (request : Request) (key_id secret : String) (r : KeyRow)
      → is_excluded c.excluded request.path ≡ false
      → truthy request.api_key ≡ true
      → parse_header c.prefix request.api_key ≡ parts key_id secret
      → lookup_by_key_id table key_id ≡ some r
      → authenticate c (update_status table key_id "revoked") request
        ≡ refuse 401 "revoked_key" "API key has been revoked"
  unfolding authenticate ApiKey.dispatch ApiKey.unauthenticated with_header with_row
      lookup_by_key_id
  authenticate-revoked table request key_id secret r inside some_key e found =
      rw
        (
          inside,
          some_key,
          e,
          get-update_status table key_id "revoked" key_id,
          eq_refl key_id,
          found,
        )
        refl

  -- Where the variable ENVIRONMENT says production in any case of letters, a request without
  -- credentials on a path that is not excluded is refused with 401, even if the bypass was requested.
  pub authenticate-production :
      (requested : Bool) (environment path : String) (table : KeyTable)
      → c.bypass ≡ Jwt.resolve_dev_bypass requested (some environment)
      → Jwt.is_production environment ≡ true
      → is_excluded c.excluded path ≡ false
      → authenticate c table (record { path = path; api_key = ""; authorization = "" })
        ≡ refuse 401 "missing_token" "Authorization header is required"
  unfolding authenticate ApiKey.dispatch ApiKey.unauthenticated Jwt.dispatch Jwt.unauthenticated
      Jwt.resolve_dev_bypass
  authenticate-production requested environment path table set production inside =
      ground (arith, set, production, inside)
