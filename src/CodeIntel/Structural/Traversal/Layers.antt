-- ===== src/CodeIntel/Structural/Traversal/Layers.antt =====
-- `get_dependencies`: between two rounds the queue holds two depths.
use praecepta.Prelude.{
  ◌⊎◌, ℕ, zero, suc, ◌<◌, String, ◌≡◌, refl, sym, ap, subst, true, false, ◌||◌, List, [], ◌∷◌, ◌++◌,
  arith, str_eq, eq_iff, if◌then◌else◌, Bool-cases, inl, inr,
}
use native.Mathlib.Decide.{dec_lt}
use mathlib.Core.List.{append-nil, append_assoc}
use praecepta.Text.Membership.{mem, mem-append}
use praecepta.CodeIntel.DiGraph.{DiGraph}
use praecepta.CodeIntel.Structural.Traversal.{Direction, Pairs, visit, edges_at, neighbors}
use praecepta.CodeIntel.Structural.Traversal.Sound.{mem_pair, mem_pair-append, Near, start, hop}

-- the neighbors that enter the queue
unfoldable pub fresh : List String → (visited : List String) → List String
fresh [] visited = []
fresh (x ∷ xs) visited =
    let rest = fresh xs (x ∷ visited) in if mem x visited then fresh xs visited else x ∷ rest

-- the nodes of the queue, all at one depth
abbrev pub level : ℕ → List String → List (String × ℕ)
level d [] = []
level d (x ∷ xs) = (x, d) ∷ level d xs

pub level-append : (d : ℕ) (xs ys : List String) → level d (xs ++ ys) ≡ level d xs ++ level d ys
level-append d [] ys = refl
level-append d (x ∷ xs) ys = ap (λ (q : List (String × ℕ)). (x, d) ∷ q) (level-append d xs ys)

pub queue-visit :
    (d : ℕ) (xs : List String) (q : List (String × ℕ)) (visited : List String)
    → (visit d xs q visited).0 ≡ q ++ level d (fresh xs visited)
unfolding visit fresh
queue-visit d [] q visited = sym (append-nil q)
queue-visit d (x ∷ xs) q visited = ground (
  arith,
  queue-visit d xs q visited,
  queue-visit d xs (q ++ (x, d) ∷ []) (x ∷ visited),
  append_assoc q ((x, d) ∷ []) (level d (fresh xs (x ∷ visited))),
)

-- After the loop a node has been visited if it was before or if it is a neighbor.
mem-visit :
    (d : ℕ) (xs : List String) (q : List (String × ℕ)) (visited : List String) (n : String)
    → mem n (visit d xs q visited).1 ≡ (mem n visited || mem n xs)
unfolding visit mem
mem-visit d [] q visited n = ground arith
mem-visit d (x ∷ xs) q visited n = ground (
  arith,
  mem-visit d xs q visited n,
  mem-visit d xs (q ++ (x, d) ∷ []) (x ∷ visited) n,
  eq_iff x n,
)

mem-fresh :
    (xs visited : List String) (n : String)
    → mem n xs ≡ true
    → mem n visited ≡ false
    → mem n (fresh xs visited) ≡ true
unfolding fresh mem
mem-fresh [] visited n h k = cc
mem-fresh (x ∷ xs) visited n h k =
    ground (arith, mem-fresh xs visited n, mem-fresh xs (x ∷ visited) n, eq_iff x n)

module _ {G : Type 0} (D : DiGraph G) (g : G) (direction : Direction) (name : String) where
  -- A node whose edges are all recorded and whose neighbors are all visited.
  pub record IsDone (visited : List String) (edges : Pairs) (n : String) : Type 0 where
    pub recorded :
        (a b : String) → mem_pair a b (edges_at D g direction n) ≡ true → mem_pair a b edges ≡ true
    pub spread : (x : String) → mem x (neighbors D g direction n) ≡ true → mem x visited ≡ true

  -- Between two rounds: the nodes `xs` at depth `d`, then the nodes `ys` one deeper, are in the queue.
  pub record IsLayered (d : ℕ) (xs ys visited : List String) (edges : Pairs) : Type 0 where
    pub pending :
        (n : String)
        → mem n visited ≡ true
        → IsDone visited edges n ⊎ ((mem n xs ≡ true) ⊎ (mem n ys ≡ true))
    pub closer : (k : ℕ) (n : String) → Near D g direction name k n → k < d → IsDone visited edges n
    pub here :
        (n : String) → Near D g direction name d n → IsDone visited edges n ⊎ (mem n xs ≡ true)

  IsDone-visit :
      (d : ℕ) (xs : List String) (q : List (String × ℕ)) (visited : List String)
      (edges more : Pairs) (n : String)
      → IsDone visited edges n
      → IsDone (visit d xs q visited).1 (edges ++ more) n
  IsDone-visit d xs q visited edges more n h = record {
    recorded = λ a b m. ground (arith, mem_pair-append a b edges more, h.recorded a b);
    spread = λ x m. ground (arith, mem-visit d xs q visited x, h.spread x);
  }

  -- One round, at the first node of the queue.
  pub IsLayered-visit :
      (d : ℕ) (n : String) (xs ys : List String) (q : List (String × ℕ)) (visited : List String)
      (edges : Pairs)
      → IsLayered d (n ∷ xs) ys visited edges
      → IsLayered d xs
          (ys ++ fresh (neighbors D g direction n) visited)
          (visit (suc d) (neighbors D g direction n) q visited).1
          (edges ++ edges_at D g direction n)
  unfolding mem
  IsLayered-visit d n xs ys q visited edges h =
      let ns = neighbors D g direction n in
      let more = edges_at D g direction n in
      let old : (m : String)
          → IsDone visited edges m
          → IsDone (visit (suc d) ns q visited).1 (edges ++ more) m =
        λ m. IsDone-visit (suc d) ns q visited edges more m in
      let self : IsDone (visit (suc d) ns q visited).1 (edges ++ more) n = record {
        recorded = λ a b m. ground (arith, mem_pair-append a b edges more);
        spread = λ x m. ground (arith, mem-visit (suc d) ns q visited x);
      } in
      let of_head : (m : String)
          → mem m (n ∷ xs) ≡ true
          → IsDone (visit (suc d) ns q visited).1 (edges ++ more) m ⊎ (mem m xs ≡ true) =
        λ m e. elim (Bool-cases (str_eq n m)) [
          | inl k ↦ inl (
              subst (IsDone (visit (suc d) ns q visited).1 (edges ++ more)) ((eq_iff n m).0 k) self)
          | inr k ↦ inr (ground (arith, e, k))
        ] in
      record {
        pending = λ m e. elim (Bool-cases (mem m visited)) [
          | inr k ↦ inr (
              inr (
                ground (
                  arith,
                  mem-visit (suc d) ns q visited m,
                  mem-fresh ns visited m,
                  mem-append m ys (fresh ns visited),
                  e,
                  k,
                )))
          | inl k ↦ elim (h.pending m k) [
            | inl w ↦ inl (old m w)
            | inr (inl w) ↦ elim (of_head m w) [ inl v ↦ inl v | inr v ↦ inr (inl v) ]
            | inr (inr w) ↦ inr (inr (ground (arith, mem-append m ys (fresh ns visited), w)))
          ]
        ];
        closer = λ k m e l. old m (h.closer k m e l);
        here = λ m e. elim (h.here m e) [ inl w ↦ inl (old m w) | inr w ↦ of_head m w ];
      }

  hop-inv :
      (k : ℕ) (x : String)
      → Near D g direction name k x
      → (d : ℕ) → k ≡ suc d
      → (m : String) × Near D g direction name d m × (mem x (neighbors D g direction m) ≡ true)
  hop-inv zero x start d e = absurd (omega arith)
  hop-inv (suc k) x (hop m _ near e) d q =
      (m, subst (λ j. Near D g direction name j m) (omega arith) near, e)

  -- The next depth begins when the queue has no node of this one left.
  pub IsLayered-deeper :
      (d : ℕ) (ys visited : List String) (edges : Pairs)
      → IsLayered d [] ys visited edges
      → IsLayered (suc d) ys [] visited edges
  unfolding mem
  IsLayered-deeper d ys visited edges h =
      let level_done : (n : String) → Near D g direction name d n → IsDone visited edges n =
        λ n e. elim (h.here n e) [ inl w ↦ w | inr w ↦ absurd (cc) ] in
      let moved : (n : String) → mem n visited ≡ true → IsDone visited edges n ⊎ (mem n ys ≡ true) =
        λ n e. elim (h.pending n e) [
          | inl w ↦ inl w
          | inr (inl w) ↦ absurd (cc)
          | inr (inr w) ↦ inr w
        ] in
      record {
        pending = λ n e. elim (moved n e) [ inl w ↦ inl w | inr w ↦ inr (inl w) ];
        closer = λ k n e l. elim (dec_lt k d) [
          | yes p ↦ h.closer k n e p
          | no p ↦ level_done n (subst (λ j. Near D g direction name j n) (omega arith) e)
        ];
        here = λ n e.
            let (m, near, x) = hop-inv (suc d) n e d refl in
            moved n ((level_done m near).spread n x);
      }

  pub IsLayered-IsDone :
      (d : ℕ) (visited : List String) (edges : Pairs)
      → IsLayered d [] [] visited edges
      → (k : ℕ) (n : String) → Near D g direction name k n
      → IsDone visited edges n
  unfolding mem
  IsLayered-IsDone zero visited edges h zero n start = elim (h.here name start) [
    | inl w ↦ w
    | inr w ↦ absurd (cc)
  ]
  IsLayered-IsDone (suc d) visited edges h zero n start = h.closer zero name start (omega arith)
  IsLayered-IsDone d visited edges h (suc k) n (hop m _ near e) =
      elim (h.pending n ((IsLayered-IsDone d visited edges h k m near).spread n e)) [
        | inl w ↦ w
        | inr (inl w) ↦ absurd (cc)
        | inr (inr w) ↦ absurd (cc)
      ]
