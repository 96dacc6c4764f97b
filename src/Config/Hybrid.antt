-- ===== src/Config/Hybrid.antt =====
-- config_cache.py (packages/infra-eventsourcing): `HybridConfigCache`, a cache of the process in front of one
-- that processes share.
pub mod Keys
pub mod Level
pub mod Sound
mod Tests
use praecepta.Prelude.{
  ◌⊎◌, ℕ, zero, suc, ◌+◌, ◌-◌, ◌≤◌, ◌<◌, String, ◌≡◌, ◌≢◌, refl, sym, ap, subst, ◌∙◌, Bool, true,
  false, not, ◌&&◌, ◌||◌, List, [], ◌∷◌, ◌++◌, Option, none, some, arith, str_eq, eq_iff, eq_refl,
  if◌then◌else◌, Option-cases, Bool-cases, inl, inr, length, length-append, map, ltb, leb, ◌==◌,
  get_elem?, take,
}
use praecepta.Text.{append, starts_with}
use praecepta.Text.Membership.{mem}
use praecepta.Config.{Value}

-- cachetools' TTLCache and Redis: an entry may vanish with any call, and `batches` are the keys over which
-- the code iterates: all at once in the first, the answers to SCAN in Redis. Values go to Redis as JSON and come back the same.
pub record Store (W : Type 0) : Type 0 where
  pub empty : W
  pub get : W → String → Option Value
  pub set : W → String → Value → W
  pub pop : W → String → W
  pub batches : W → List (List String)

abbrev pub some_batch : String → List (List String) → Bool
some_batch k [] = false
some_batch k (b ∷ bs) = mem k b || some_batch k bs

pub record IsStore {W : Type 0} (L : Store W) : Type 0 where
  pub get-empty : (k : String) → L.get L.empty k ≡ none
  pub get-set :
      (w : W) (k j : String) (v u : Value)
      → L.get (L.set w k v) j ≡ some u
      → (str_eq k j ≡ true) × (u ≡ v) ⊎ (str_eq k j ≡ false) × (L.get w j ≡ some u)
  pub get-pop :
      (w : W) (k j : String) (u : Value)
      → L.get (L.pop w k) j ≡ some u
      → (str_eq k j ≡ false) × (L.get w j ≡ some u)
  pub listed :
      (w : W) (k : String) (u : Value) → L.get w k ≡ some u → some_batch k (L.batches w) ≡ true

-- `f"tenant:{tenant_id}:config:"`
unfoldable pub tenant_prefix : (tenant_id : String) → String
tenant_prefix tenant_id = append "tenant:" (append tenant_id ":config:")

unfoldable pub cache_key : (tenant_id key : String) → String
cache_key tenant_id key = append (tenant_prefix tenant_id) key

-- `l2` is none if there is no client of Redis.
pub record Hybrid (W R : Type 0) : Type 0 where
  pub l1 : W
  pub l2 : Option R

unfoldable pub pop_all : {W : Type 0} → Store W → List String → W → W
pop_all L [] w = w
pop_all L (k ∷ ks) w = pop_all L ks (L.pop w k)

unfoldable pub pop_batches : {W : Type 0} → Store W → List (List String) → W → W
pop_batches L [] w = w
pop_batches L (b ∷ bs) w = pop_batches L bs (pop_all L b w)

-- A call on the cache.
pub data Call : Type 0 where
  read_at : (tenant_id key : String) → Call
  set_at : (tenant_id key : String) → Value → Call
  drop_at : (tenant_id key : String) → Call
  drop_tenant : (tenant_id : String) → Call

-- `if self._redis is not None: ...`
abbrev pub on_some : {R : Type 0} → (R → R) → Option R → Option R
on_some f none = none
on_some f (some r) = some (f r)

-- `[k for k in keys if k.startswith(prefix)]`, and what MATCH leaves of each batch, for a prefix without a
-- wildcard
unfoldable pub with_prefix : (prefix : String) → List String → List String
with_prefix prefix [] = []
with_prefix prefix (k ∷ ks) =
    let rest = with_prefix prefix ks in if starts_with k prefix then k ∷ rest else rest

unfoldable pub matching : (prefix : String) → List (List String) → List (List String)
matching prefix [] = []
matching prefix (b ∷ bs) = with_prefix prefix b ∷ matching prefix bs

module _ {W R : Type 0} (L1 : Store W) (L2 : Store R) where
  -- the value, and the cache with what Redis had promoted
  unfoldable pub from_l2 :
      (key : String) → R → Option Value → Hybrid W R → Option Value × Hybrid W R
  from_l2 key r none c = (none, c)
  from_l2 key r (some v) c = (some v, record c { l1 = L1.set c.l1 key v })

  unfoldable pub from_l1 :
      (key : String) → Option Value → (redis : Option R) → Hybrid W R → Option Value × Hybrid W R
  from_l1 key (some v) redis c = (some v, c)
  from_l1 key none none c = (none, c)
  from_l1 key none (some r) c = from_l2 key r (L2.get r key) c

  unfoldable pub get : Hybrid W R → (tenant_id key : String) → Option Value × Hybrid W R
  get c tenant_id key =
      from_l1 (cache_key tenant_id key) (L1.get c.l1 (cache_key tenant_id key)) c.l2 c

  unfoldable pub set : Hybrid W R → (tenant_id key : String) → Value → Hybrid W R
  set c tenant_id key v =
      let k = cache_key tenant_id key in
      record { l1 = L1.set c.l1 k v; l2 = on_some (λ r. L2.set r k v) c.l2 }

  unfoldable pub invalidate : Hybrid W R → (tenant_id key : String) → Hybrid W R
  invalidate c tenant_id key =
      let k = cache_key tenant_id key in
      record { l1 = L1.pop c.l1 k; l2 = on_some (λ r. L2.pop r k) c.l2 }

  unfoldable pub invalidate_tenant : Hybrid W R → (tenant_id : String) → Hybrid W R
  invalidate_tenant c tenant_id =
      let p = tenant_prefix tenant_id in
      record {
        l1 = pop_batches L1 (matching p (L1.batches c.l1)) c.l1;
        l2 = on_some (λ r. pop_batches L2 (matching p (L2.batches r)) r) c.l2;
      }

  unfoldable pub call : Call → Hybrid W R → Hybrid W R
  call (read_at t k) c = (get c t k).1
  call (set_at t k v) c = set c t k v
  call (drop_at t k) c = invalidate c t k
  call (drop_tenant t) c = invalidate_tenant c t

  -- the calls of a history, the last one first
  unfoldable pub after : Hybrid W R → List Call → Hybrid W R
  after c [] = c
  after c (x ∷ history) = call x (after c history)
