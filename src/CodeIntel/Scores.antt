-- ===== src/CodeIntel/Scores.antt =====
-- Floating-point scores and ranked lists of names (packages/infra-codeintel): `S` is the type of the
-- floats, with the operations that the code uses.
use praecepta.Prelude.{
  ℕ, String, ◌≡◌, refl, Bool, true, false, not, ◌&&◌, ◌||◌, List, [], ◌∷◌, arith, str_eq, eq_iff,
  if◌then◌else◌,
}
use praecepta.Text.Membership.{mem, distinct}
use praecepta.Dict.{Dict}

-- `tenths n` is the literal n / 10; `lt` and `eq` are the comparisons of IEEE 754.
pub record Scores (S : Type 0) : Type 0 where
  pub tenths : ℕ → S
  pub add : S → S → S
  pub sub : S → S → S
  pub mul : S → S → S
  pub div : S → S → S
  pub lt : S → S → Bool
  pub eq : S → S → Bool

abbrev pub IsAsymmetric : {S : Type 0} → Scores S → Type 0
IsAsymmetric {S} F = (x y : S) → F.lt x y ≡ true → F.lt y x ≡ false

abbrev pub names {ℓ} : {V : Type ℓ} → Dict V → List String
names [] = []
names ((k, v) ∷ d) = k ∷ names d

module _ {S : Type 0} (F : Scores S) where
  unfoldable pub place : String → S → Dict S → Dict S
  place k x [] = (k, x) ∷ []
  place k x ((j, y) ∷ d) =
      let rest = place k x d in if F.lt x y then (j, y) ∷ rest else (k, x) ∷ (j, y) ∷ d

  -- `sorted(d.items(), key=lambda x: x[1], reverse=True)`: the order of equal scores stays.
  unfoldable pub sorted : Dict S → Dict S
  sorted [] = []
  sorted ((k, x) ∷ d) = place k x (sorted d)

  abbrev at_least : S → Dict S → Bool
  at_least y [] = true
  at_least y ((k, x) ∷ d) = not (F.lt y x)

  -- No score is below the next.
  unfoldable pub descending : Dict S → Bool
  descending [] = true
  descending ((k, x) ∷ d) = at_least x d && descending d

  at_least-place :
      (y : S) (k : String) (x : S) (d : Dict S)
      → F.lt y x ≡ false
      → at_least y d ≡ true
      → at_least y (place k x d) ≡ true
  unfolding place
  at_least-place y k x [] h m = ground arith
  at_least-place y k x ((j, z) ∷ d) h m = ground (arith, m)

  descending-place :
      IsAsymmetric F
      → (k : String) (x : S) (d : Dict S) → descending d ≡ true
      → descending (place k x d) ≡ true
  unfolding place descending
  descending-place asym k x [] h = refl
  descending-place asym k x ((j, y) ∷ d) h =
      ground (arith, descending-place asym k x d, at_least-place y k x d, asym x y)

  pub descending-sorted : IsAsymmetric F → (d : Dict S) → descending (sorted d) ≡ true
  unfolding sorted descending
  descending-sorted asym [] = refl
  descending-sorted asym ((k, x) ∷ d) =
      descending-place asym k x (sorted d) (descending-sorted asym d)

  mem-place :
      (k : String) (x : S) (d : Dict S) (n : String)
      → mem n (names (place k x d)) ≡ (str_eq k n || mem n (names d))
  unfolding place mem
  mem-place k x [] n = ground arith
  mem-place k x ((j, y) ∷ d) n = ground (arith, mem-place k x d n)

  pub mem-sorted : (d : Dict S) (n : String) → mem n (names (sorted d)) ≡ mem n (names d)
  unfolding sorted mem
  mem-sorted [] n = refl
  mem-sorted ((k, x) ∷ d) n = ground (arith, mem-place k x (sorted d) n, mem-sorted d n)

  distinct-place :
      (k : String) (x : S) (d : Dict S)
      → distinct (names (place k x d)) ≡ (not (mem k (names d)) && distinct (names d))
  unfolding place distinct mem
  distinct-place k x [] = ground arith
  distinct-place k x ((j, y) ∷ d) =
      ground (arith, distinct-place k x d, mem-place k x d j, eq_iff k j, eq_iff j k)

  pub distinct-sorted : (d : Dict S) → distinct (names (sorted d)) ≡ distinct (names d)
  unfolding sorted distinct
  distinct-sorted [] = refl
  distinct-sorted ((k, x) ∷ d) =
      ground (arith, distinct-place k x (sorted d), mem-sorted d k, distinct-sorted d)
