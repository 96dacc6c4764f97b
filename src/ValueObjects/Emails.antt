-- ===== src/ValueObjects/Emails.antt =====
-- What `Email` accepts, and the local part that a display name is taken from.
use Prim.Native.Char.{code}
use praecepta.Prelude.{ℕ, ◌+◌, String, ◌≡◌, refl, true, List, [], ◌∷◌, arith, ◌==◌, if◌then◌else◌}
use praecepta.Text.{codes, truthy}
use praecepta.Errors.{ok}
use praecepta.ValueObjects.{
  at_end, address_end, address_domain, address_host, address_local, email_pattern, email,
}

-- How often `@` stands in a text.
pub count_at : List ℕ → ℕ
count_at [] = 0
count_at (c ∷ r) = (if c == b'@' then 1 else 0) + count_at r

-- `s.split("@")[0]`
unfoldable pub before_at : String → String
before_at String.[] = String.[]
before_at (String.◌∷◌ c s) = if code c == b'@' then String.[] else String.◌∷◌ c (before_at s)

at_end-count_at : (r : List ℕ) → at_end r ≡ true → count_at r ≡ 0
unfolding at_end count_at
at_end-count_at [] h = refl
at_end-count_at (c ∷ []) h = ground arith
at_end-count_at (c ∷ d ∷ r) h = cc

address_end-count_at : (r : List ℕ) → address_end r ≡ true → count_at r ≡ 0
unfolding address_end count_at
address_end-count_at [] h = cc
address_end-count_at (c ∷ r) h = ground (arith, at_end-count_at r, address_end-count_at r)

address_domain-count_at : (r : List ℕ) → address_domain r ≡ true → count_at r ≡ 0
unfolding address_domain count_at
address_domain-count_at [] h = cc
address_domain-count_at (c ∷ r) h =
    ground (arith, address_end-count_at r, address_domain-count_at r)

address_host-count_at : (r : List ℕ) → address_host r ≡ true → count_at r ≡ 0
unfolding address_host count_at
address_host-count_at [] h = cc
address_host-count_at (c ∷ r) h = ground (arith, address_domain-count_at r)

address_local-count_at : (r : List ℕ) → address_local r ≡ true → count_at r ≡ 1
unfolding address_local count_at
address_local-count_at [] h = cc
address_local-count_at (c ∷ r) h = ground (arith, address_host-count_at r, address_local-count_at r)

email_pattern-count_at : (r : List ℕ) → email_pattern r ≡ true → count_at r ≡ 1
unfolding email_pattern count_at
email_pattern-count_at [] h = cc
email_pattern-count_at (c ∷ r) h = ground (arith, address_local-count_at r)

-- An accepted address is stored as it was given; it is empty, or has exactly one `@`.
pub email-count_at :
    (s : String) {v : String}
    → email s ≡ ok v
    → (v ≡ s) × (truthy s ≡ true → count_at (codes s) ≡ 1)
unfolding email
email-count_at s h = ground (arith, email_pattern-count_at (codes s))

-- The local part of an accepted address is not empty.
pub truthy-before_at :
    (s : String) {v : String} → email s ≡ ok v → truthy s ≡ true → truthy (before_at s) ≡ true
unfolding email email_pattern before_at
truthy-before_at String.[] h t = cc
truthy-before_at (String.◌∷◌ c s) h t = ground arith
