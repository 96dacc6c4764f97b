-- ===== src/CodeIntel/Packing/Names.antt =====
-- packing.py: the names of the chunks that are packed.
use praecepta.Prelude.{
  and→both, ltb→lt, leb→le, ℕ, ◌-◌, String, str_eq, ◌≡◌, refl, sym, ap, subst, ◌∙◌, true, ◌&&◌,
  List, [], ◌∷◌, arith, Bool-cases, inl, inr, ltb, leb,
}
use praecepta.Prelude.Int.{ℤ, pos, negsuc}
use praecepta.Text.Membership.{mem, distinct}
use praecepta.Errors.{Result, ok, ok-inj, both_returned}
use praecepta.CodeIntel.{CodeChunk}
use praecepta.CodeIntel.Assembly.{chunk_names}
use praecepta.CodeIntel.Packing.{stub, pack_to_budget, Packed}
use praecepta.CodeIntel.Packing.Greedy.{greedy, fitting, pack-greedy, pack-refused}

module _ {S : Type 0} (encode : String → Result ℕ) where
  names-fitting :
      (b : ℕ) (c : CodeChunk S) (k : ℕ) (n : String)
      → mem n (chunk_names (fitting b c k)) ≡ true
      → str_eq c.qualified_name n ≡ true
  unfolding stub mem
  names-fitting b c k n m = ground arith

  mem-greedy :
      (b : ℕ) (cs chosen : List (CodeChunk S)) (n : String)
      → greedy encode b cs ≡ ok chosen
      → mem n (chunk_names chosen) ≡ true
      → mem n (chunk_names cs) ≡ true
  unfolding greedy mem
  mem-greedy b [] chosen n h m = ap (λ d. mem n (chunk_names d)) (ok-inj [] chosen h) ∙ m
  mem-greedy b (c ∷ cs) chosen n h m = elim (Bool-cases (leb c.token_count b)) [
    | inl small ↦
        let (ds, rest, same) =
          both_returned (greedy encode (b - c.token_count) cs) _ (rw small at h) in
        ground (
          arith,
          ap (λ d. mem n (chunk_names d)) (ok-inj (c ∷ ds) chosen same),
          mem-greedy (b - c.token_count) cs ds n rest,
          m,
        )
    | inr large ↦
        let (k, counted, same) = both_returned (encode c.signature) _ (rw large at h) in
        ground (
          arith,
          names-fitting b c k n
              (ap (λ d. mem n (chunk_names d)) (ok-inj (fitting b c k) chosen same) ∙ m),
        )
  ]

  distinct-fitting :
      (b : ℕ) (c : CodeChunk S) (k : ℕ) → distinct (chunk_names (fitting b c k)) ≡ true
  unfolding stub distinct mem
  distinct-fitting b c k = ground arith

  distinct-greedy :
      (b : ℕ) (cs chosen : List (CodeChunk S))
      → greedy encode b cs ≡ ok chosen
      → distinct (chunk_names cs) ≡ true
      → distinct (chunk_names chosen) ≡ true
  unfolding greedy distinct mem
  distinct-greedy b [] chosen h once = rw (sym (ok-inj [] chosen h)) refl
  distinct-greedy b (c ∷ cs) chosen h once = elim (Bool-cases (leb c.token_count b)) [
    | inl small ↦
        let (ds, rest, same) =
          both_returned (greedy encode (b - c.token_count) cs) _ (rw small at h) in
        ground (
          arith,
          ap (λ d. distinct (chunk_names d)) (ok-inj (c ∷ ds) chosen same),
          distinct-greedy (b - c.token_count) cs ds rest,
          mem-greedy (b - c.token_count) cs ds c.qualified_name rest,
          once,
        )
    | inr large ↦
        let (k, counted, same) = both_returned (encode c.signature) _ (rw large at h) in
        sym (ap (λ d. distinct (chunk_names d)) (ok-inj (fitting b c k) chosen same))
        ∙ distinct-fitting b c k
  ]

  pub distinct-pack :
      (b : ℤ) (cs : List (CodeChunk S)) (p : Packed S)
      → pack_to_budget encode cs b ≡ ok p
      → distinct (chunk_names cs) ≡ true
      → distinct (chunk_names p.0) ≡ true
  unfolding pack_to_budget
  distinct-pack b [] p h k =
      subst (λ (p : Packed S). distinct (chunk_names p.0) ≡ true) (ok-inj ([], 0, 0) p h) k
  distinct-pack (negsuc m) (c ∷ cs) p h k = cc (h, pack-refused encode (negsuc m) c cs refl)
  distinct-pack (pos m) (c ∷ cs) p h k = elim (Bool-cases (ltb 0 m && leb c.token_count m)) [
    | inr bad ↦ cc (h, pack-refused encode (pos m) c cs bad)
    | inl good ↦
        let (some_budget, first) = and→both _ _ good in
        let (chosen, made, last) =
          both_returned (greedy encode m (c ∷ cs)) _
            (sym (pack-greedy encode m c cs (ltb→lt _ _ some_budget) (leb→le _ _ first)) ∙ h) in
        subst (λ (p : Packed S). distinct (chunk_names p.0) ≡ true) (ok-inj _ p last)
          (distinct-greedy m (c ∷ cs) chosen made k)
  ]
