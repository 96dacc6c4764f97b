-- ===== src/CodeIntel/Packing/Greedy.antt =====
-- packing.py against the one-pass packing that it is an optimisation of.
use praecepta.Prelude.{
  ℕ, zero, suc, ◌+◌, ◌-◌, ◌≤◌, ◌<◌, ◌≡◌, refl, sym, ap, ◌∙◌, String, true, false, ◌&&◌, List, [],
  ◌∷◌, ◌++◌, Option, none, some, arith, leb, if◌then◌else◌, length, get_elem?, take, length-append,
  Bool-cases, and→both, ltb→lt, leb→le, length-take, inl, inr, ltb,
}
use mathlib.Core.List.{append-nil}
use praecepta.Prelude.Int.{ℤ, pos, pos_part}
use praecepta.Errors.{Result, ok, err, ◌>>=◌, Result-cases, both_returned, ok-inj, budget_exceeded}
use praecepta.CodeIntel.{CodeChunk}
use praecepta.CodeIntel.Packing.{
  sum_tokens, stub, add_signature, with_signature, pack_found, pack_from, pack_to_budget, Packed,
  search, prefix_sums,
}
use praecepta.CodeIntel.Packing.Search.{
  IsCut, search-IsCut, le_cases, lt_or_le, get_elem?-prefix_sums,
}

module _ {S : Type 0} where
  sum_stub :
      (cs : List (CodeChunk S)) (c : CodeChunk S) (k : ℕ)
      → sum_tokens (cs ++ stub k c ∷ []) ≡ sum_tokens cs + k
  unfolding sum_tokens stub
  sum_stub [] c k = omega arith
  sum_stub (d ∷ cs) c k = omega (arith, sum_stub cs c k)

  -- What a list of chosen chunks amounts to.
  abbrev pub amounts : List (CodeChunk S) → List (CodeChunk S) → Packed S
  amounts chunks chosen = (chosen, sum_tokens chosen, length chunks - length chosen)

  -- the signature of a chunk that does not fit, if that fits
  abbrev pub fitting : ℕ → CodeChunk S → ℕ → List (CodeChunk S)
  fitting b c sig_tokens = if leb sig_tokens b then stub sig_tokens c ∷ [] else []

module _ {S : Type 0} (encode : String → Result ℕ) where
  -- Take chunks while they fit; of the first that does not, its signature if that fits.
  unfoldable pub greedy : ℕ → List (CodeChunk S) → Result (List (CodeChunk S))
  greedy b [] = ok []
  greedy b (c ∷ cs) =
      let rest = greedy (b - c.token_count) cs in
      if leb c.token_count b
      then (do chosen ← rest; ok (c ∷ chosen))
      else (do sig_tokens ← encode c.signature; ok (fitting b c sig_tokens))

  greedy-all : (b : ℕ) (cs : List (CodeChunk S)) → sum_tokens cs ≤ b → greedy b cs ≡ ok cs
  unfolding greedy sum_tokens
  greedy-all b [] h = refl
  greedy-all b (c ∷ cs) h =
      let fit : leb c.token_count b ≡ true = ground arith in
      rw (fit, greedy-all (b - c.token_count) cs (omega arith)) refl

  -- the chunks that the last step of the code returns
  abbrev chosen_at :
      List (CodeChunk S) → (b n used : ℕ) → Option (CodeChunk S) → Result (List (CodeChunk S))
  chosen_at cs b n used none = ok (take n cs)
  chosen_at cs b n used (some next) = do
    k ← encode next.signature
    ok (take n cs ++ (if leb (used + k) b then stub k next ∷ [] else []))

  -- One chunk more before a list that is cut.
  signature_step :
      (b n used : ℕ) (c : CodeChunk S) (cs : List (CodeChunk S)) (o : Option (CodeChunk S))
      → c.token_count + used ≤ b
      → chosen_at (c ∷ cs) b (suc n) (c.token_count + used) o
        ≡ (chosen_at cs (b - c.token_count) n used o >>= λ ds. ok (c ∷ ds))
  signature_step b n used c cs none h = refl
  signature_step b n used c cs (some next) h = elim (Result-cases (encode next.signature)) [
    | inr (x, e) ↦ rw e refl
    | inl (k, e) ↦ rw e (ground arith)
  ]

  -- At a cut the code's last step chooses what the one pass does.
  cut-greedy :
      (b n : ℕ) (cs : List (CodeChunk S))
      → sum_tokens (take n cs) ≤ b
      → n < length cs
      → b < sum_tokens (take (suc n) cs)
      → chosen_at cs b n (sum_tokens (take n cs)) (get_elem? cs n) ≡ greedy b cs
  unfolding greedy sum_tokens
  cut-greedy b n [] fit lt over = ground arith
  cut-greedy b zero (c ∷ cs) fit lt over =
      let large : leb c.token_count b ≡ false = ground arith in
      elim (Result-cases (encode c.signature)) [
        | inr (x, e) ↦ rw (large, e) refl
        | inl (k, e) ↦
            let nothing_used : 0 + k ≡ k = omega arith in rw (large, e, nothing_used) refl
      ]
  cut-greedy b (suc n) (c ∷ cs) fit lt over =
      let small : leb c.token_count b ≡ true = ground arith in
      rw small (
        signature_step b n (sum_tokens (take n cs)) c cs (get_elem? cs n) fit
        ∙ ap (λ r. r >>= λ ds. ok (c ∷ ds))
            (cut-greedy (b - c.token_count) n cs (omega arith) (omega arith) (omega arith)))

  added-amounts :
      (b n : ℕ) (cs : List (CodeChunk S)) (next : CodeChunk S) (k : ℕ)
      → n ≤ length cs
      → ◌≡◌ {A = Result (Packed S)} (ok (add_signature cs b n (sum_tokens (take n cs)) next k)) (
          ok (
            amounts cs
              (take n cs ++ (if leb (sum_tokens (take n cs) + k) b then stub k next ∷ [] else []))))
  unfolding add_signature
  added-amounts b n cs next k le = elim (Bool-cases (leb (sum_tokens (take n cs) + k) b)) [
    | inl yes_fits ↦ rw yes_fits (
        ground (
          arith,
          length-take n cs,
          length-append (take n cs) (stub k next ∷ []),
          sum_stub (take n cs) next k,
        ))
    | inr too_large ↦ rw (too_large, append-nil (take n cs)) (ground (arith, length-take n cs))
  ]

  with_signature-amounts :
      (b n : ℕ) (cs : List (CodeChunk S)) (o : Option (CodeChunk S))
      → n ≤ length cs
      → with_signature encode cs b n (sum_tokens (take n cs)) o
        ≡ (chosen_at cs b n (sum_tokens (take n cs)) o >>= λ ds. ok (amounts cs ds))
  unfolding with_signature add_signature
  with_signature-amounts b n cs none le = ground (arith, length-take n cs)
  with_signature-amounts b n cs (some next) le = elim (Result-cases (encode next.signature)) [
    | inr (x, e) ↦ rw e refl
    | inl (k, e) ↦ rw e (added-amounts b n cs next k le)
  ]

  one_fits :
      (b : ℕ) (c : CodeChunk S) (cs : List (CodeChunk S))
      → c.token_count ≤ b
      → sum_tokens (take 1 (c ∷ cs)) ≤ b
  unfolding sum_tokens
  one_fits b c cs h = omega arith

  take_all : (cs : List (CodeChunk S)) → take (length cs) cs ≡ cs
  take_all [] = refl
  take_all (c ∷ cs) = ap (λ r. c ∷ r) (take_all cs)

  -- A cut is inside a list that does not fit.
  cut_inside :
      (b n : ℕ) (cs : List (CodeChunk S))
      → b < sum_tokens cs
      → n ≤ length cs
      → sum_tokens (take n cs) ≤ b
      → n < length cs
  cut_inside b n cs over le fit = elim (le_cases n (length cs) le) [
    | inr lt ↦ lt
    | inl same ↦ omega (arith, ap sum_tokens (ap (λ m. take m cs) same ∙ take_all cs))
  ]

  -- The sum at a cut is in the list of sums.
  pub sum_at :
      (n : ℕ) (cs : List (CodeChunk S))
      → 0 < n
      → n ≤ length cs
      → get_elem? (prefix_sums 0 cs) (n - 1) ≡ some (sum_tokens (take n cs))
  sum_at zero cs h le = ground arith
  sum_at (suc n) cs h le = ground (arith, get_elem?-prefix_sums 0 cs n le)

  at_cut :
      (b n : ℕ) (cs : List (CodeChunk S))
      → b < sum_tokens cs
      → IsCut cs b n
      → pack_found encode cs b (some n) ≡ (greedy b cs >>= λ ds. ok (amounts cs ds))
  unfolding pack_found pack_from
  at_cut b n cs over (h, le, fit, more) =
      let inside = cut_inside b n cs over le fit in
      rw (sum_at n cs h le) (
        with_signature-amounts b n cs (get_elem? cs n) le
        ∙ ap (λ r. r >>= λ ds. ok (amounts cs ds)) (cut-greedy b n cs fit inside (more inside)))

  -- The search finds a cut where the first chunk fits and not all do.
  found-greedy :
      (b : ℕ) (c : CodeChunk S) (cs : List (CodeChunk S))
      → c.token_count ≤ b
      → b < sum_tokens (c ∷ cs)
      → pack_found encode
          (c ∷ cs)
          b
          (search (length (c ∷ cs)) (prefix_sums 0 (c ∷ cs)) b 1 (length (c ∷ cs)))
        ≡ (greedy b (c ∷ cs) >>= λ ds. ok (amounts (c ∷ cs) ds))
  found-greedy b c cs first over =
      let (n, found, cut) =
        search-IsCut (length (c ∷ cs)) (c ∷ cs) b 1 (length (c ∷ cs)) (omega arith) (omega arith)
          (omega arith) (omega arith) (one_fits b c cs first) (λ h. omega arith) in
      rw found (at_cut b n (c ∷ cs) over cut)

  -- With a positive budget in which the first chunk fits, packing by binary search returns what the
  -- one pass chooses: each chunk while it fits, then the signature of the first that does not, if
  -- that fits; the tokens of these; and how many chunks are left. If counting the tokens of that signature
  -- raises, packing raises the same.
  pub pack-greedy :
      (b : ℕ) (c : CodeChunk S) (cs : List (CodeChunk S))
      → 0 < b
      → c.token_count ≤ b
      → pack_to_budget encode (c ∷ cs) (pos b)
        ≡ (greedy b (c ∷ cs) >>= λ chosen. ok (amounts (c ∷ cs) chosen))
  unfolding pack_to_budget
  pack-greedy b c cs h first = elim (lt_or_le b (sum_tokens (c ∷ cs))) [
    | inl over ↦ ground (arith, found-greedy b c cs first over)
    | inr all ↦ rw (greedy-all b (c ∷ cs) all) (ground arith)
  ]

  greedy-sum :
      (b : ℕ) (cs chosen : List (CodeChunk S))
      → greedy b cs ≡ ok chosen
      → (sum_tokens chosen ≤ b) × (length chosen ≤ length cs)
  unfolding greedy sum_tokens stub
  greedy-sum b [] chosen h = rw (sym (ok-inj [] chosen h)) (omega arith, omega arith)
  greedy-sum b (c ∷ cs) chosen h = elim (Bool-cases (leb c.token_count b)) [
    | inl small ↦
        let (ds, rest, same) = both_returned (greedy (b - c.token_count) cs) _ (rw small at h) in
        let (fit, short) = greedy-sum (b - c.token_count) cs ds rest in
        rw (sym (ok-inj (c ∷ ds) chosen same)) (ground arith, omega (arith, short))
    | inr large ↦
        let (k, counted, same) = both_returned (encode c.signature) _ (rw large at h) in
        rw (sym (ok-inj (fitting b c k) chosen same)) (ground arith, ground arith)
  ]

  -- Packing refuses exactly the lists whose first chunk does not fit, and those that are not empty
  -- where the budget is zero or less; it then says the budget and the tokens of that chunk.
  pub pack-refused :
      (b : ℤ) (c : CodeChunk S) (cs : List (CodeChunk S))
      → (ltb 0 (pos_part b) && leb c.token_count (pos_part b)) ≡ false
      → pack_to_budget encode (c ∷ cs) b ≡ err (budget_exceeded b c.token_count)
  unfolding pack_to_budget sum_tokens
  pack-refused b c cs h = ground arith

  -- What packing returns for a budget that is not negative fits it, the count of tokens is the sum
  -- of those of the chunks returned, and these with the chunks remaining are as many as were given.
  pub pack-within :
      (b : ℕ) (cs selected : List (CodeChunk S)) (used remaining : ℕ)
      → pack_to_budget encode cs (pos b) ≡ ok (selected, used, remaining)
      → (used ≤ b) × (used ≡ sum_tokens selected) × (length selected + remaining ≡ length cs)
  unfolding pack_to_budget sum_tokens
  pack-within b [] selected used remaining h = ground arith
  pack-within b (c ∷ cs) selected used remaining h =
      elim (Bool-cases (ltb 0 b && leb c.token_count b)) [
        | inr bad ↦ cc (h, pack-refused (pos b) c cs bad)
        | inl good ↦
            let (some_budget, first) = and→both _ _ good in
            let (chosen, made, same) =
              both_returned (greedy b (c ∷ cs)) _
                (sym (pack-greedy b c cs (ltb→lt _ _ some_budget) (leb→le _ _ first)) ∙ h) in
            ground (
              arith,
              ok-inj (amounts (c ∷ cs) chosen) (selected, used, remaining) same,
              greedy-sum b (c ∷ cs) chosen made,
            )
      ]
