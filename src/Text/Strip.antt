-- ===== src/Text/Strip.antt =====
-- `str.strip`: its result begins and ends with no space, and stripping it again changes nothing.
use Prim.Native.Char.{Char, code}
use praecepta.Prelude.{String, ◌≡◌, refl, ap, ◌∙◌, false, Bool-cases, inl, inr}
use praecepta.Text.{is_space, lstrip, rstrip, keep_front, strip}

-- The first character, if there is one, is no space.
abbrev pub HeadKept : String → Type 0
HeadKept String.[] = Unit
HeadKept (String.◌∷◌ c s) = is_space (code c) ≡ false

-- The last character, if there is one, is no space.
abbrev pub LastKept : String → Type 0
LastKept String.[] = Unit
LastKept (String.◌∷◌ c String.[]) = is_space (code c) ≡ false
LastKept (String.◌∷◌ c (String.◌∷◌ d s)) = LastKept (String.◌∷◌ d s)

keep_front-LastKept : (c : Char) (s : String) → LastKept s → LastKept (keep_front c s)
unfolding keep_front
keep_front-LastKept c String.[] h = elim (Bool-cases (is_space (code c))) [
  | inl e ↦ rw e tt
  | inr e ↦ rw e e
]
keep_front-LastKept c (String.◌∷◌ d s) h = h

rstrip-LastKept : (s : String) → LastKept (rstrip s)
unfolding rstrip
rstrip-LastKept String.[] = tt
rstrip-LastKept (String.◌∷◌ c s) = keep_front-LastKept c (rstrip s) (rstrip-LastKept s)

keep_front-HeadKept :
    (c : Char) (s : String) → is_space (code c) ≡ false → HeadKept (keep_front c s)
unfolding keep_front
keep_front-HeadKept c String.[] h = rw h h
keep_front-HeadKept c (String.◌∷◌ d s) h = h

rstrip-HeadKept : (s : String) → HeadKept s → HeadKept (rstrip s)
unfolding rstrip
rstrip-HeadKept String.[] h = tt
rstrip-HeadKept (String.◌∷◌ c s) h = keep_front-HeadKept c (rstrip s) h

lstrip-HeadKept : (s : String) → HeadKept (lstrip s)
unfolding lstrip
lstrip-HeadKept String.[] = tt
lstrip-HeadKept (String.◌∷◌ c s) = elim (Bool-cases (is_space (code c))) [
  | inl e ↦ rw e (lstrip-HeadKept s)
  | inr e ↦ rw e e
]

pub strip-HeadKept : (s : String) → HeadKept (strip s)
unfolding strip
strip-HeadKept s = rstrip-HeadKept (lstrip s) (lstrip-HeadKept s)

pub strip-LastKept : (s : String) → LastKept (strip s)
unfolding strip
strip-LastKept s = rstrip-LastKept (lstrip s)

lstrip-HeadKept_self : (s : String) → HeadKept s → lstrip s ≡ s
unfolding lstrip
lstrip-HeadKept_self String.[] h = refl
lstrip-HeadKept_self (String.◌∷◌ c s) h = rw h

rstrip-LastKept_self : (s : String) → LastKept s → rstrip s ≡ s
unfolding rstrip keep_front
rstrip-LastKept_self String.[] h = refl
rstrip-LastKept_self (String.◌∷◌ c String.[]) h = rw h
rstrip-LastKept_self (String.◌∷◌ c (String.◌∷◌ d s)) h =
    rw (rstrip-LastKept_self (String.◌∷◌ d s) h)

-- A text that begins and ends with no space is left alone.
pub strip-Kept : (s : String) → HeadKept s → LastKept s → strip s ≡ s
unfolding strip
strip-Kept s h l = ap rstrip (lstrip-HeadKept_self s h) ∙ rstrip-LastKept_self s l

pub strip_idem : (s : String) → strip (strip s) ≡ strip s
strip_idem s = strip-Kept (strip s) (strip-HeadKept s) (strip-LastKept s)
