-- ===== src/Config/Hybrid/Level.antt =====
-- config_cache.py: what one level has after each change of it.
use praecepta.Prelude.{
  and→both, String, ◌≡◌, refl, sym, ap, subst, ◌∙◌, true, false, ◌&&◌, List, [], ◌∷◌, Option, none,
  some, arith, str_eq, eq_iff, if◌then◌else◌, Bool-cases, inl, inr,
}
use praecepta.Text.{starts_with}
use praecepta.Text.Membership.{mem}
use praecepta.Config.{Value}
use praecepta.Config.Hybrid.{
  Store, IsStore, some_batch, tenant_prefix, cache_key, pop_all, pop_batches, with_prefix, matching,
  Call, read_at, set_at, drop_at, drop_tenant,
}
use praecepta.Config.Hybrid.Keys.{plain, cache_key_injective, starts_with-cache_key}

-- The value last set under a key, if neither the key nor its tenant was invalidated since.
unfoldable pub last_set : List Call → (tenant_id key : String) → Option Value
last_set [] t k = none
last_set (read_at u j ∷ h) t k = last_set h t k
last_set (set_at u j v ∷ h) t k = if str_eq u t && str_eq j k then some v else last_set h t k
last_set (drop_at u j ∷ h) t k = if str_eq u t && str_eq j k then none else last_set h t k
last_set (drop_tenant u ∷ h) t k = if str_eq u t then none else last_set h t k

mem-with_prefix :
    (p : String) (ks : List String) (k : String)
    → starts_with k p ≡ true
    → mem k ks ≡ true
    → mem k (with_prefix p ks) ≡ true
unfolding with_prefix mem
mem-with_prefix p [] k start h = cc
mem-with_prefix p (j ∷ ks) k start h = elim (Bool-cases (str_eq j k)) [
  | inl e ↦
      let own = subst (λ x. starts_with x p ≡ true) (sym ((eq_iff j k).0 e)) start in
      rw own (rw e refl)
  | inr e ↦ ground (arith, mem-with_prefix p ks k start, e, h)
]

some_batch-matching :
    (p : String) (bs : List (List String)) (k : String)
    → starts_with k p ≡ true
    → some_batch k bs ≡ true
    → some_batch k (matching p bs) ≡ true
unfolding matching
some_batch-matching p [] k start h = cc
some_batch-matching p (b ∷ bs) k start h =
    ground (arith, some_batch-matching p bs k start, mem-with_prefix p b k start)

other_key :
    (t k s j : String)
    → str_eq (cache_key t k) (cache_key s j) ≡ false
    → (str_eq t s && str_eq k j) ≡ false
other_key t k s j h = elim (Bool-cases (str_eq t s && str_eq k j)) [
  | inr e ↦ e
  | inl e ↦
      let (a, b) = and→both _ _ e in
      let same : cache_key t k ≡ cache_key s j =
        ap (λ x. cache_key x k) ((eq_iff t s).0 a) ∙ ap (cache_key s) ((eq_iff k j).0 b) in
      cc (h, (eq_iff (cache_key t k) (cache_key s j)).1 same)
]

module _ {W : Type 0} (L : Store W) where
  -- What the store has is what the history set last.
  abbrev pub Holds : W → List Call → Type 0
  Holds w h =
      (t k : String) (u : Value)
      → plain t ≡ true
      → L.get w (cache_key t k) ≡ some u
      → last_set h t k ≡ some u

module _ {W : Type 0} (L : Store W) (laws : IsStore L) where
  pub set-Holds :
      (w : W) (h : List Call) (t k : String) (v : Value)
      → plain t ≡ true
      → Holds L w h
      → Holds L (L.set w (cache_key t k) v) (set_at t k v ∷ h)
  unfolding last_set
  set-Holds w h t k v p holds s j u q e =
      elim (laws.get-set w (cache_key t k) (cache_key s j) v u e) [
        | inl (same, value) ↦
            let (a, b) =
              cache_key_injective t k s j p q ((eq_iff (cache_key t k) (cache_key s j)).0 same) in
            ground (arith, a, b, eq_iff t s, eq_iff k j, value)
        | inr (other, old) ↦ rw (other_key t k s j other) (holds s j u q old)
      ]

  pub promote-Holds :
      (w : W) (h : List Call) (t k : String) (v : Value)
      → plain t ≡ true
      → last_set h t k ≡ some v
      → Holds L w h
      → Holds L (L.set w (cache_key t k) v) h
  promote-Holds w h t k v p known holds s j u q e =
      elim (laws.get-set w (cache_key t k) (cache_key s j) v u e) [
        | inl (same, value) ↦
            let (a, b) =
              cache_key_injective t k s j p q ((eq_iff (cache_key t k) (cache_key s j)).0 same) in
            ap (λ x. last_set h x j) (sym a)
            ∙ ap (last_set h t) (sym b)
            ∙ known
            ∙ ap some (sym value)
        | inr (other, old) ↦ holds s j u q old
      ]

  pub pop-Holds :
      (w : W) (h : List Call) (t k : String)
      → Holds L w h
      → Holds L (L.pop w (cache_key t k)) (drop_at t k ∷ h)
  unfolding last_set
  pop-Holds w h t k holds s j u q e =
      let (other, old) = laws.get-pop w (cache_key t k) (cache_key s j) u e in
      rw (other_key t k s j other) (holds s j u q old)

  get-pop_all :
      (ks : List String) (w : W) (j : String) (u : Value)
      → L.get (pop_all L ks w) j ≡ some u
      → (mem j ks ≡ false) × (L.get w j ≡ some u)
  unfolding pop_all mem
  get-pop_all [] w j u e = (refl, e)
  get-pop_all (k ∷ ks) w j u e =
      let (rest, old) = get-pop_all ks (L.pop w k) j u e in
      let (other, first) = laws.get-pop w k j u old in (ground (arith, rest, other), first)

  get-pop_batches :
      (bs : List (List String)) (w : W) (j : String) (u : Value)
      → L.get (pop_batches L bs w) j ≡ some u
      → (some_batch j bs ≡ false) × (L.get w j ≡ some u)
  unfolding pop_batches
  get-pop_batches [] w j u e = (refl, e)
  get-pop_batches (b ∷ bs) w j u e =
      let (rest, old) = get-pop_batches bs (pop_all L b w) j u e in
      let (other, first) = get-pop_all b w j u old in (ground (arith, rest, other), first)

  -- Everything under the prefix of a tenant goes.
  pub pop_batches-Holds :
      (w : W) (h : List Call) (t : String)
      → Holds L w h
      → Holds L (pop_batches L (matching (tenant_prefix t) (L.batches w)) w) (drop_tenant t ∷ h)
  unfolding last_set
  pop_batches-Holds w h t holds s j u q e =
      let (missed, old) =
        get-pop_batches (matching (tenant_prefix t) (L.batches w)) w (cache_key s j) u e in
      elim (Bool-cases (str_eq t s)) [
        | inr other ↦ rw other (holds s j u q old)
        | inl same ↦
            let start =
              subst (λ x. starts_with (cache_key s j) (tenant_prefix x) ≡ true)
                (sym ((eq_iff t s).0 same)) (starts_with-cache_key s j) in
            cc (
              missed,
              some_batch-matching (tenant_prefix t) (L.batches w) (cache_key s j) start
                  (laws.listed w (cache_key s j) u old),
            )
      ]
