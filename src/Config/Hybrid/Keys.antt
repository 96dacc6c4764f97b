-- ===== src/Config/Hybrid/Keys.antt =====
-- config_cache.py: the keys of different tenants are different.
use praecepta.Prelude.{
  ℕ, String, ◌≡◌, refl, sym, ap, ◌∙◌, Bool, true, not, ◌&&◌, ◌||◌, Option, none, some, arith, ◌==◌,
}
use Prim.Native.Char.{Char, code}
use praecepta.Text.{append, append_assoc, starts_with, starts_with-append, drop, drop-append, len}
use praecepta.Config.Hybrid.{tenant_prefix, cache_key}

-- a colon, or a character that MATCH of Redis does not read as itself
abbrev pub is_mark : ℕ → Bool
is_mark n = n == 58 || n == 42 || n == 63 || n == 91 || n == 92

-- none of `:`, `*`, `?`, `[` and `\` stands in the text
unfoldable pub plain : String → Bool
plain String.[] = true
plain (String.◌∷◌ c s) = not (is_mark (code c)) && plain s

first_code : String → ℕ
first_code String.[] = 0
first_code (String.◌∷◌ c s) = code c

first : String → Option Char
first String.[] = none
first (String.◌∷◌ c s) = some c

append_cancel : (p s t : String) → append p s ≡ append p t → s ≡ t
append_cancel p s t h = sym (drop-append p s) ∙ ap (drop (len p)) h ∙ drop-append p t

-- A text without a colon ends where the colon stands.
colon_split :
    (t k u j : String)
    → plain t ≡ true
    → plain u ≡ true
    → append t (append ":config:" k) ≡ append u (append ":config:" j)
    → (t ≡ u) × (k ≡ j)
unfolding plain first_code first
colon_split String.[] k String.[] j p q h = (refl, append_cancel ":config:" k j h)
colon_split String.[] k (String.◌∷◌ d u) j p q h = ground (arith, ap first_code h)
colon_split (String.◌∷◌ c t) k String.[] j p q h = ground (arith, ap first_code h)
colon_split (String.◌∷◌ c t) k (String.◌∷◌ d u) j p q h =
    let (same, rest) =
      colon_split t k u j (ground (arith, p)) (ground (arith, q)) (ap (drop 1) h) in
    let head : some c ≡ some d = ap first h in (cc (head, same), rest)

cache_key-split : (t k : String) → cache_key t k ≡ append "tenant:" (append t (append ":config:" k))
unfolding cache_key tenant_prefix
cache_key-split t k =
    append_assoc "tenant:" (append t ":config:") k
    ∙ ap (append "tenant:") (append_assoc t ":config:" k)

pub cache_key_injective :
    (t k u j : String)
    → plain t ≡ true
    → plain u ≡ true
    → cache_key t k ≡ cache_key u j
    → (t ≡ u) × (k ≡ j)
cache_key_injective t k u j p q h =
    colon_split t k u j p q
      (append_cancel "tenant:" _ _ (sym (cache_key-split t k) ∙ h ∙ cache_key-split u j))

pub starts_with-cache_key : (t k : String) → starts_with (cache_key t k) (tenant_prefix t) ≡ true
unfolding cache_key
starts_with-cache_key t k = starts_with-append (tenant_prefix t) k
