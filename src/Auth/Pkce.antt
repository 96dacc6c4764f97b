-- ===== src/Auth/Pkce.antt =====
-- pkce.py (packages/infra-auth): `PKCEStore` over the keys of Redis. A value is the JSON text of the
-- fields, or a text that does not parse to them. `others` is what other processes do between the two
-- commands of `retrieve_and_delete`; a key that expires is one that they remove.
use praecepta.Prelude.{String, ◌≡◌, refl, Option, none, some, eq_refl}
use praecepta.Text.{append}
use praecepta.Dict
use praecepta.Dict.{Dict, get-put_self, get-remove}

pub record PkceData : Type 0 where
  pub code_verifier : String
  pub redirect_uri : String
  pub created_at : String

pub data Payload : Type 0 where
  fields : PkceData → Payload
  corrupt : Payload

abbrev pub Redis : Type 0
Redis = Dict Payload

abbrev pub state_key : (state : String) → String
state_key state = append "pkce:" state

unfoldable pub store : (state : String) → PkceData → Redis → Redis
store state data_of d = Dict.put d (state_key state) (fields data_of)

abbrev parsed : Payload → Option PkceData
parsed (fields x) = some x
parsed corrupt = none

-- what follows the GET
abbrev pub after_get :
    (others : Redis → Redis) (state : String) → Option Payload → Redis → Option PkceData × Redis
after_get others state none d = (none, d)
after_get others state (some raw) d = (parsed raw, Dict.remove (others d) (state_key state))

unfoldable pub retrieve_and_delete :
    (others : Redis → Redis) (state : String) → Redis → Option PkceData × Redis
retrieve_and_delete others state d = after_get others state (Dict.get d (state_key state)) d

-- no other process
abbrev pub quiet : Redis → Redis
quiet d = d

-- Alone, a stored entry is retrieved once: the first call gives it, and the next gives nothing.
pub retrieve_once :
    (state : String) (x : PkceData) (d : Redis)
    → let (first, d') = retrieve_and_delete quiet state (store state x d) in
      (first ≡ some x) × ((retrieve_and_delete quiet state d').0 ≡ none)
unfolding retrieve_and_delete store
retrieve_once state x d = rw (get-put_self d (state_key state) (fields x)) (
  refl,
  rw
      (
        get-remove (Dict.put d (state_key state) (fields x)) (state_key state) (state_key state),
        eq_refl (state_key state),
      )
      refl,
)

-- A call that another process makes between the two commands of a call for the same state gives the
-- same entry as that call: both retrieve it.
pub retrieve_twice :
    (state : String) (x : PkceData) (d : Redis)
    → let d' = store state x d in
      let others = λ (e : Redis). (retrieve_and_delete quiet state e).1 in
      ((retrieve_and_delete quiet state d').0 ≡ some x)
      × ((retrieve_and_delete others state d').0 ≡ some x)
unfolding retrieve_and_delete store
retrieve_twice state x d = rw (get-put_self d (state_key state) (fields x)) (refl, refl)
