-- ===== src/Config/Hybrid/Tests.antt =====
-- config_cache at concrete inputs, with dictionaries for both levels.
use praecepta.Prelude.{String, ◌≡◌, refl, true, List, [], ◌∷◌, some, arith}
use praecepta.Text.Membership.{mem}
use praecepta.Dict
use praecepta.Dict.{Dict}
use praecepta.Config.{Value, Json}
use praecepta.Config.Kept.{kept_set, kept_delete}
use praecepta.Config.Hybrid.{
  Store, IsStore, tenant_prefix, cache_key, get, Call, read_at, set_at, drop_tenant, after, call,
  set, invalidate, invalidate_tenant, from_l1, from_l2, pop_all, pop_batches, with_prefix, matching,
}
use praecepta.Config.Hybrid.Keys.{plain}
use praecepta.Config.Hybrid.Level.{last_set}
use praecepta.Config.Hybrid.Sound.{all_plain, read-last_set}

keys_of : Dict Value → List String
keys_of [] = []
keys_of ((k, v) ∷ d) = k ∷ keys_of d

mem-keys_of :
    (d : Dict Value) (k : String) (u : Value) → Dict.get d k ≡ some u → mem k (keys_of d) ≡ true
unfolding keys_of Dict.get mem
mem-keys_of [] k u h = cc h
mem-keys_of ((j, v) ∷ d) k u h = ground (arith, mem-keys_of d k u)

abbrev dicts : Store (Dict Value)
dicts = record {
  empty = [];
  get = Dict.get;
  set = Dict.put;
  pop = Dict.remove;
  batches = λ d. keys_of d ∷ [];
}

dicts-IsStore : IsStore dicts
dicts-IsStore = record {
  get-empty = λ k. Dict.get-nil k;
  get-set = kept_set;
  get-pop = kept_delete;
  listed = λ d k u h. ground (arith, mem-keys_of d k u);
}

abbrev one : Value
one = ("kind", Json.text "one") ∷ []

abbrev two : Value
two = ("kind", Json.text "two") ∷ []

-- Two writes under one key, a read that fills the first level, and another tenant invalidated.
abbrev history : List Call
history =
    drop_tenant "beta"
    ∷ read_at "acme" "limit"
    ∷ set_at "acme" "limit" two
    ∷ set_at "acme" "limit" one
    ∷ []

no_redis_new : (r : Dict Value) → some [] ≡ some r → r ≡ []
no_redis_new r h = cc h

history_plain : all_plain history ≡ true
unfolding all_plain plain
history_plain = refl

acme_plain : plain "acme" ≡ true
unfolding plain
acme_plain = refl

read_two :
    (get dicts dicts
      (after dicts dicts (record { l1 = []; l2 = some [] }) history)
      "acme"
      "limit").0
    ≡ some two
unfolding after call get set invalidate invalidate_tenant from_l1 from_l2 pop_all pop_batches
    with_prefix matching cache_key tenant_prefix keys_of Dict.get Dict.put Dict.remove
read_two = refl

read-last_set_example : last_set history "acme" "limit" ≡ some two
read-last_set_example =
    read-last_set dicts dicts dicts-IsStore dicts-IsStore (some []) history no_redis_new
      history_plain "acme" "limit" acme_plain two read_two
