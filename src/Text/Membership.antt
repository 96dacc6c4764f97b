-- ===== src/Text/Membership.antt =====
-- Lists and sets of texts: Python's `in` on them.
use praecepta.Prelude.{
  ℕ, suc, ◌≤◌, ◌<◌, String, ◌≡◌, refl, Bool, true, false, not, ◌&&◌, ◌||◌, List, [], ◌∷◌, ◌++◌,
  Option, none, some, arith, str_eq, eq_iff, eq_refl, if◌then◌else◌, length,
}

abbrev pub is_some {ℓ} : {A : Type ℓ} → Option A → Bool
is_some none = false
is_some (some a) = true

-- `s in xs`
unfoldable pub mem : String → List String → Bool
mem s [] = false
mem s (x ∷ xs) = str_eq x s || mem s xs

-- No text stands twice.
unfoldable pub distinct : List String → Bool
distinct [] = true
distinct (x ∷ xs) = not (mem x xs) && distinct xs

pub mem-append : (s : String) (xs ys : List String) → mem s (xs ++ ys) ≡ (mem s xs || mem s ys)
unfolding mem
mem-append s [] ys = refl
mem-append s (x ∷ xs) ys = ground (arith, mem-append s xs ys)

-- A list stays distinct when a new text is put at its end.
pub distinct-snoc :
    (xs : List String) (s : String) → distinct (xs ++ s ∷ []) ≡ (distinct xs && not (mem s xs))
unfolding distinct mem
distinct-snoc [] s = refl
distinct-snoc (x ∷ xs) s =
    ground (arith, distinct-snoc xs s, mem-append x xs (s ∷ []), eq_iff x s, eq_iff s x)

-- how many of `xs` are not in `seen`
unfoldable pub unseen : (seen : List String) → List String → ℕ
unseen seen [] = 0
unseen seen (x ∷ xs) = if mem x seen then unseen seen xs else suc (unseen seen xs)

pub unseen-le : (s : String) (seen xs : List String) → unseen (s ∷ seen) xs ≤ unseen seen xs
unfolding unseen mem
unseen-le s seen [] = omega arith
unseen-le s seen (x ∷ xs) = ground (arith, unseen-le s seen xs)

-- Seeing a new one of them leaves fewer.
pub unseen-lt :
    (s : String) (seen xs : List String)
    → mem s xs ≡ true
    → mem s seen ≡ false
    → unseen (s ∷ seen) xs < unseen seen xs
unfolding unseen mem
unseen-lt s seen [] h k = cc
unseen-lt s seen (x ∷ xs) h k =
    ground (arith, unseen-lt s seen xs, unseen-le s seen xs, eq_iff x s, eq_iff s x)

pub unseen-length : (xs : List String) → unseen [] xs ≡ length xs
unfolding unseen mem
unseen-length [] = refl
unseen-length (x ∷ xs) = ground (arith, unseen-length xs)

pub distinct-append :
    (xs ys : List String)
    → distinct xs ≡ true
    → distinct ys ≡ true
    → ((n : String) → mem n ys ≡ true → mem n xs ≡ false)
    → distinct (xs ++ ys) ≡ true
unfolding distinct mem
distinct-append [] ys h k new = k
distinct-append (x ∷ xs) ys h k new =
    let rest : (n : String) → mem n ys ≡ true → mem n xs ≡ false = λ n m. ground (arith, new n m) in
    ground (
      arith,
      distinct-append xs ys (ground (arith, h)) k rest,
      mem-append x xs ys,
      new x,
      eq_refl x,
    )

-- `as_set xs` lists the set of the texts in `xs`, in some order: each text of the list, once.
pub record ListsSet (as_set : List String → List String) : Type 0 where
  pub same : (xs : List String) (n : String) → mem n (as_set xs) ≡ mem n xs
  pub once : (xs : List String) → distinct (as_set xs) ≡ true
