-- ===== src/Projections/Chosen.antt =====
-- projection_lifespan.py: which projections run.
use praecepta.Prelude.{
  ℕ, zero, suc, ◌+◌, ◌-◌, ◌≤◌, String, ◌≡◌, refl, sym, ap, ◌∙◌, true, false, List, [], ◌∷◌, ◌++◌,
  Option, none, some, arith, str_eq, eq_iff, if◌then◌else◌, Bool-cases, inl, inr, length,
  length-append, ltb, leb, take,
}
use praecepta.Projections.{Projection, add_to, add_projection, group_from, total, cap, limited}
use mathlib.Core.List.{append_assoc, append-nil}

abbrev pub flat : List (String × List String) → List String
flat [] = []
flat ((a, ps) ∷ gs) = ps ++ flat gs

-- the names of the group of an application
abbrev pub names_of : (app : String) → List (String × List String) → List String
names_of app [] = []
names_of app ((a, ps) ∷ gs) = if str_eq a app then ps else names_of app gs

abbrev pub declares : (app name : String) → Option String → List String → List String
declares app name none rest = rest
declares app name (some a) rest = if str_eq a app then name ∷ rest else rest

-- the names of the projections that declare an application, in their order
abbrev pub declaring : (app : String) → List Projection → List String
declaring app [] = []
declaring app (p ∷ ps) = declares app p.name p.upstream_application (declaring app ps)

pub take-nil {ℓ} : {A : Type ℓ} (n : ℕ) → take {A = A} n [] ≡ []
take-nil zero = refl
take-nil (suc n) = refl

take-append {ℓ} :
    {A : Type ℓ} (n : ℕ) (xs ys : List A) → take n (xs ++ ys) ≡ take n xs ++ take (n - length xs) ys
take-append zero [] ys = ap (λ k. take k ys) {x = 0} {y = 0 - 0} (omega arith)
take-append (suc n) [] ys = ap (λ k. take k ys) {x = suc n} {y = suc n - 0} (omega arith)
take-append zero (x ∷ xs) ys =
    let none_left : 0 - suc (length xs) ≡ 0 = omega arith in rw none_left refl
take-append (suc n) (x ∷ xs) ys =
    ap (λ l. x ∷ l) (take-append n xs ys ∙ ap (λ k. take n xs ++ take k ys) (omega arith))

pub take-all {ℓ} : {A : Type ℓ} (n : ℕ) (xs : List A) → length xs ≤ n → take n xs ≡ xs
take-all n [] h = take-nil n
take-all zero (x ∷ xs) h = absurd (omega (arith, h))
take-all (suc n) (x ∷ xs) h = ap (λ l. x ∷ l) (take-all n xs (omega arith))

rest-take {ℓ} : {A : Type ℓ} (n : ℕ) (xs : List A) → n - length (take n xs) ≡ n - length xs
rest-take zero xs = omega arith
rest-take (suc n) [] = refl
rest-take (suc n) (x ∷ xs) = omega (arith, rest-take n xs)

cap-take : (m c : ℕ) (gs : List (String × List String)) → flat (cap m c gs) ≡ take (m - c) (flat gs)
unfolding cap
cap-take m c [] = sym (take-nil (m - c))
cap-take m c ((a, ps) ∷ gs) = elim (Bool-cases (leb m c)) [
  | inl e ↦ let none_left : m - c ≡ 0 = ground arith in rw (e, none_left) refl
  | inr e ↦
      rw (e, cap-take m (c + length (take (m - c) ps)) gs)
        (sym (
          take-append (m - c) ps (flat gs)
          ∙ ap (λ k. take (m - c) ps ++ take k (flat gs)) (omega (arith, rest-take (m - c) ps))))
]

length-flat : (gs : List (String × List String)) → length (flat gs) ≡ total gs
unfolding total
length-flat [] = refl
length-flat ((a, ps) ∷ gs) = omega (arith, length-append ps (flat gs), length-flat gs)

-- The limit cuts the projections of all the groups, one group after the other.
pub limited-take :
    (m : ℕ) (gs : List (String × List String)) → flat (limited m gs) ≡ take m (flat gs)
unfolding limited
limited-take m gs = elim (Bool-cases (ltb m (total gs))) [
  | inl e ↦ rw e (cap-take m 0 gs ∙ ap (λ k. take k (flat gs)) (omega arith))
  | inr e ↦ rw e (sym (take-all m (flat gs) (ground (arith, length-flat gs))))
]

names_of-add_to :
    (app a name : String) (gs : List (String × List String))
    → names_of app (add_to a name gs) ≡ names_of app gs ++ declares app name (some a) []
unfolding add_to
names_of-add_to app a name [] = refl
names_of-add_to app a name ((b, ps) ∷ gs) = elim (Bool-cases (str_eq b a)) [
  | inl e ↦ elim (Bool-cases (str_eq b app)) [
    | inl f ↦
        let same : str_eq a app ≡ true = ground (arith, eq_iff b a, eq_iff b app, eq_iff a app) in
        rw (e, f, same) refl
    | inr f ↦
        let other : str_eq a app ≡ false = ground (arith, eq_iff b a, eq_iff b app, eq_iff a app) in
        rw (e, f, other) (sym (append-nil (names_of app gs)))
  ]
  | inr e ↦ elim (Bool-cases (str_eq b app)) [
    | inl f ↦
        let other : str_eq a app ≡ false = ground (arith, eq_iff b a, eq_iff b app, eq_iff a app) in
        rw (e, f, other) (sym (append-nil ps))
    | inr f ↦ rw (e, f) (names_of-add_to app a name gs)
  ]
]

declares-append :
    (app name : String) (a : Option String) (rest : List String)
    → declares app name a [] ++ rest ≡ declares app name a rest
declares-append app name none rest = refl
declares-append app name (some a) rest = ground arith

names_of-add_projection :
    (app name : String) (a : Option String) (gs : List (String × List String))
    → names_of app (add_projection name a gs) ≡ names_of app gs ++ declares app name a []
names_of-add_projection app name none gs = sym (append-nil (names_of app gs))
names_of-add_projection app name (some a) gs = names_of-add_to app a name gs

names_of-group_from :
    (app : String) (ps : List Projection) (gs : List (String × List String))
    → names_of app (group_from ps gs) ≡ names_of app gs ++ declaring app ps
unfolding group_from
names_of-group_from app [] gs = sym (append-nil (names_of app gs))
names_of-group_from app (p ∷ ps) gs =
    names_of-group_from app ps (add_projection p.name p.upstream_application gs)
    ∙ ap (λ l. l ++ declaring app ps) (names_of-add_projection app p.name p.upstream_application gs)
    ∙ append_assoc (names_of app gs) (declares app p.name p.upstream_application [])
        (declaring app ps)
    ∙ ap (λ l. names_of app gs ++ l)
        (declares-append app p.name p.upstream_application (declaring app ps))

-- The group of an application has the projections that declare it, in the order of their discovery.
pub group_from-declaring :
    (app : String) (ps : List Projection) → names_of app (group_from ps []) ≡ declaring app ps
group_from-declaring app ps = names_of-group_from app ps []
