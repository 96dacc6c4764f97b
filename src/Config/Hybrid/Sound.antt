-- ===== src/Config/Hybrid/Sound.antt =====
-- config_cache.py: what a read gives.
use praecepta.Prelude.{
  and→both, String, ◌≡◌, refl, subst, ◌∙◌, Bool, true, ◌&&◌, List, [], ◌∷◌, Option, none, some,
  Option-cases, inl, inr,
}
use praecepta.Config.{Value}
use praecepta.Config.Hybrid.{
  Store, IsStore, tenant_prefix, cache_key, Hybrid, pop_batches, matching, on_some, from_l2,
  from_l1, get, set, invalidate, invalidate_tenant, Call, read_at, set_at, drop_at, drop_tenant,
  call, after,
}
use praecepta.Config.Hybrid.Keys.{plain}
use praecepta.Config.Hybrid.Level.{
  last_set, Holds, set-Holds, promote-Holds, pop-Holds, pop_batches-Holds,
}

abbrev pub tenant_of : Call → String
tenant_of (read_at t k) = t
tenant_of (set_at t k v) = t
tenant_of (drop_at t k) = t
tenant_of (drop_tenant t) = t

-- No tenant of the history has a colon or a wildcard of Redis in its name.
unfoldable pub all_plain : List Call → Bool
all_plain [] = true
all_plain (x ∷ h) = plain (tenant_of x) && all_plain h

some-inj : {A : Type 0} (v w : A) → some v ≡ some w → v ≡ w
some-inj v w h = cc

module _ {W R : Type 0} (L1 : Store W) (L2 : Store R) (laws1 : IsStore L1)
    (laws2 : IsStore L2) where
  -- Both levels have only what was set last.
  record IsSound (c : Hybrid W R) (h : List Call) : Type 0 where
    front : Holds L1 c.l1 h
    behind : (r : R) → c.l2 ≡ some r → Holds L2 r h

  behind-map :
      (f : R → R) (h h' : List Call) (o : Option R)
      → ((r : R) → Holds L2 r h → Holds L2 (f r) h')
      → ((r : R) → o ≡ some r → Holds L2 r h)
      → (r : R) → on_some f o ≡ some r
      → Holds L2 r h'
  behind-map f h h' none step old r e = absurd (cc e)
  behind-map f h h' (some q) step old r e =
      subst (λ x. Holds L2 x h') (some-inj (f q) r e) (step q (old q refl))

  abbrev Reads : Hybrid W R → List Call → (t k : String) → Option Value × Hybrid W R → Type 0
  Reads c h t k (o, c') = ((v : Value) → o ≡ some v → last_set h t k ≡ some v) × IsSound c' h

  -- What a read gives after the first level missed, and that its promotion leaves the levels sound.
  behind-Reads :
      (c : Hybrid W R) (h : List Call) (t k : String) (redis : Option R)
      → plain t ≡ true
      → IsSound c h
      → c.l2 ≡ redis
      → Reads c h t k (from_l1 L1 L2 (cache_key t k) none redis c)
  unfolding from_l1 from_l2
  behind-Reads c h t k none p sound on = ((λ u e. absurd (cc e)), sound)
  behind-Reads c h t k (some r) p sound on = elim (Option-cases (L2.get r (cache_key t k))) [
    | inl gone ↦ rw gone ((λ u e. absurd (cc e)), sound)
    | inr (v, found) ↦
        let known = sound.behind r on t k v p found in
        rw found (
          (λ u e. known ∙ e),
          record {
            front = promote-Holds L1 laws1 c.l1 h t k v p known sound.front;
            behind = sound.behind;
          },
        )
  ]

  read-Reads :
      (c : Hybrid W R) (h : List Call) (t k : String)
      → plain t ≡ true
      → IsSound c h
      → Reads c h t k (get L1 L2 c t k)
  unfolding get from_l1
  read-Reads c h t k p sound = elim (Option-cases (L1.get c.l1 (cache_key t k))) [
    | inr (v, hit) ↦ rw hit ((λ u e. sound.front t k u p (hit ∙ e)), sound)
    | inl miss ↦ rw miss (behind-Reads c h t k c.l2 p sound refl)
  ]

  call-IsSound :
      (x : Call) (c : Hybrid W R) (h : List Call)
      → plain (tenant_of x) ≡ true
      → IsSound c h
      → IsSound (call L1 L2 x c) (x ∷ h)
  unfolding call set invalidate invalidate_tenant last_set
  call-IsSound (read_at t k) c h p sound =
      let after_read = (read-Reads c h t k p sound).1 in
      record { front = after_read.front; behind = after_read.behind }
  call-IsSound (set_at t k v) c h p sound = record {
    front = set-Holds L1 laws1 c.l1 h t k v p sound.front;
    behind =
        behind-map (λ r. L2.set r (cache_key t k) v) h (set_at t k v ∷ h) c.l2
          (λ r old. set-Holds L2 laws2 r h t k v p old) sound.behind;
  }
  call-IsSound (drop_at t k) c h p sound = record {
    front = pop-Holds L1 laws1 c.l1 h t k sound.front;
    behind =
        behind-map (λ r. L2.pop r (cache_key t k)) h (drop_at t k ∷ h) c.l2
          (λ r old. pop-Holds L2 laws2 r h t k old) sound.behind;
  }
  call-IsSound (drop_tenant t) c h p sound = record {
    front = pop_batches-Holds L1 laws1 c.l1 h t sound.front;
    behind =
        behind-map (λ r. pop_batches L2 (matching (tenant_prefix t) (L2.batches r)) r) h
          (drop_tenant t ∷ h) c.l2 (λ r old. pop_batches-Holds L2 laws2 r h t old) sound.behind;
  }

  after-IsSound :
      (c : Hybrid W R) (h : List Call)
      → all_plain h ≡ true
      → IsSound c []
      → IsSound (after L1 L2 c h) h
  unfolding after all_plain
  after-IsSound c [] p sound = sound
  after-IsSound c (x ∷ h) p sound =
      let (one, rest) = and→both _ _ p in
      call-IsSound x (after L1 L2 c h) h one (after-IsSound c h rest sound)

  -- After any calls by one process on a new cache, with Redis empty or switched off, and for tenants
  -- without a colon or a wildcard of Redis in their names: a read misses, or it gives the value that was
  -- last set under its tenant and key, where neither that key nor all of that tenant was invalidated since.
  pub read-last_set :
      (l2 : Option R) (h : List Call)
      → ((r : R) → l2 ≡ some r → r ≡ L2.empty)
      → all_plain h ≡ true
      → (t k : String) → plain t ≡ true
      → (v : Value) → (get L1 L2 (after L1 L2 (record { l1 = L1.empty; l2 = l2 }) h) t k).0 ≡ some v
      → last_set h t k ≡ some v
  read-last_set l2 h new p t k q v =
      let start : IsSound (record { l1 = L1.empty; l2 = l2 }) [] = record {
        front = λ s j u w e. absurd (cc (laws1.get-empty (cache_key s j), e));
        behind = λ r on s j u w e. absurd (
            cc (
              laws2.get-empty (cache_key s j),
              subst (λ x. L2.get x (cache_key s j) ≡ some u) (new r on) e,
            ));
      } in
      (read-Reads (after L1 L2 (record { l1 = L1.empty; l2 = l2 }) h) h t k q
          (after-IsSound (record { l1 = L1.empty; l2 = l2 }) h p start)).0
        v
