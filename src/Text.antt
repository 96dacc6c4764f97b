-- ===== src/Text.antt =====
-- Python's `str` as a native String: its code points, its truth value, stripping and slicing.
pub mod Membership
pub mod Strip
use Prim.Native.Char.{Char, code}
use praecepta.Prelude.{
  ℕ, zero, suc, ◌+◌, ◌≤◌, String, ◌≡◌, refl, ap, subst, ◌≢◌, Bool, true, false, not, ◌&&◌, ◌||◌,
  List, [], ◌∷◌, length, arith, str_eq, eq_iff, ◌==◌, ltb, leb, if◌then◌else◌,
}

abbrev pub codes : String → List ℕ
codes String.[] = []
codes (String.◌∷◌ c s) = code c ∷ codes s

-- `len(s)`
abbrev pub len : String → ℕ
len String.[] = 0
len (String.◌∷◌ c s) = suc (len s)

-- `bool(s)`
abbrev pub truthy : String → Bool
truthy String.[] = false
truthy (String.◌∷◌ c s) = true

-- The code points for which `str.isspace` holds, which `str.strip` removes and `\s` matches.
unfoldable pub is_space : ℕ → Bool
is_space c =
    (leb 9 c && leb c 13)
    || (leb 28 c && leb c 32)
    || c == 0x85
    || c == 0xA0
    || c == 0x1680
    || (leb 0x2000 c && leb c 0x200A)
    || c == 0x2028
    || c == 0x2029
    || c == 0x202F
    || c == 0x205F
    || c == 0x3000

-- `str.lstrip()`
lstrip : String → String
lstrip String.[] = String.[]
lstrip (String.◌∷◌ c s) = if is_space (code c) then lstrip s else String.◌∷◌ c s

-- `str.rstrip()`: a character goes if it is a space and all after it goes.
keep_front : Char → String → String
keep_front c String.[] = if is_space (code c) then String.[] else String.◌∷◌ c String.[]
keep_front c (String.◌∷◌ d s) = String.◌∷◌ c (String.◌∷◌ d s)

rstrip : String → String
rstrip String.[] = String.[]
rstrip (String.◌∷◌ c s) = keep_front c (rstrip s)

-- `str.strip()`
unfoldable pub strip : String → String
unfolding lstrip rstrip keep_front is_space
strip s = rstrip (lstrip s)

-- `s[n:]`
abbrev pub drop : ℕ → String → String
drop zero s = s
drop (suc n) String.[] = String.[]
drop (suc n) (String.◌∷◌ c s) = drop n s

-- `s[:n]`
abbrev pub take : ℕ → String → String
take zero s = String.[]
take (suc n) String.[] = String.[]
take (suc n) (String.◌∷◌ c s) = String.◌∷◌ c (take n s)

-- `s + t`
abbrev pub append : String → String → String
append String.[] t = t
append (String.◌∷◌ c s) t = String.◌∷◌ c (append s t)

-- `s.startswith(p)`
abbrev pub starts_with : String → String → Bool
starts_with s p = str_eq (take (len p) s) p

-- `s.lower() == t` for a text `t` of ASCII characters: only the Latin capitals and the sign of the
-- kelvin are lowered to one.
abbrev pub lower_code : ℕ → ℕ
lower_code c = if leb 65 c && leb c 90 then c + 32 else if c == 0x212A then 107 else c

abbrev pub codes_eq : List ℕ → List ℕ → Bool
codes_eq [] [] = true
codes_eq (c ∷ cs) (d ∷ ds) = lower_code c == d && codes_eq cs ds
codes_eq _ _ = false

abbrev pub lower_eq : String → String → Bool
lower_eq s t = codes_eq (codes s) (codes t)

strip-pad : strip "  Acme Corp \t" ≡ "Acme Corp"
unfolding strip
strip-pad = refl

pub take-append : (s t : String) → take (len s) (append s t) ≡ s
take-append String.[] t = refl
take-append (String.◌∷◌ c s) t = ap (String.◌∷◌ c) (take-append s t)

pub drop-append : (s t : String) → drop (len s) (append s t) ≡ t
drop-append String.[] t = refl
drop-append (String.◌∷◌ c s) t = drop-append s t

pub append-take-drop : (n : ℕ) (s : String) → append (take n s) (drop n s) ≡ s
append-take-drop zero s = refl
append-take-drop (suc n) String.[] = refl
append-take-drop (suc n) (String.◌∷◌ c s) = ap (String.◌∷◌ c) (append-take-drop n s)

pub len-append : (s t : String) → len (append s t) ≡ len s + len t
len-append String.[] t = omega arith
len-append (String.◌∷◌ c s) t = omega (arith, len-append s t)

pub len-take : (n : ℕ) (s : String) → n ≤ len s → len (take n s) ≡ n
len-take zero s h = refl
len-take (suc n) String.[] h = absurd (omega arith)
len-take (suc n) (String.◌∷◌ c s) h = ap suc (len-take n s (omega arith))

pub len-drop : (n : ℕ) (s : String) → n ≤ len s → len (drop n s) + n ≡ len s
len-drop zero s h = omega arith
len-drop (suc n) String.[] h = absurd (omega arith)
len-drop (suc n) (String.◌∷◌ c s) h = omega (arith, len-drop n s (omega arith))

pub append_assoc : (s t u : String) → append (append s t) u ≡ append s (append t u)
append_assoc String.[] t u = refl
append_assoc (String.◌∷◌ c s) t u = ap (String.◌∷◌ c) (append_assoc s t u)

-- A text that starts with a prefix is the prefix and the rest.
pub starts_with-split : (s p : String) → starts_with s p ≡ true → append p (drop (len p) s) ≡ s
starts_with-split s p h =
    subst (λ q. append q (drop (len p) s) ≡ s) ((eq_iff (take (len p) s) p).0 h)
      (append-take-drop (len p) s)

pub starts_with-append : (p s : String) → starts_with (append p s) p ≡ true
starts_with-append p s = (eq_iff (take (len p) (append p s)) p).1 (take-append p s)
