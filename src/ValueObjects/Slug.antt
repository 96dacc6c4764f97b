-- ===== src/ValueObjects/Slug.antt =====
-- What `TenantSlug` and `AgentTypeId` accept.
use praecepta.Prelude.{
  ℕ, ◌≤◌, String, ◌≡◌, refl, ap, Bool, true, false, ◌&&◌, ◌||◌, List, [], ◌∷◌, ◌++◌, all, arith,
  ◌==◌, leb, if◌then◌else◌,
}
use praecepta.Text.{codes, len, append, len-append}
use praecepta.Errors.{ok, accepted}
use praecepta.ValueObjects.{
  is_lower_alnum, is_slug_char, is_type_char, at_end, ends_in_alnum, slug_pattern,
  agent_type_pattern, tenant_slug,
}

-- The text without one final newline.
pub without_newline : List ℕ → List ℕ
without_newline [] = []
without_newline (c ∷ []) = if c == 10 then [] else c ∷ []
without_newline (c ∷ d ∷ r) = c ∷ without_newline (d ∷ r)

pub last_is : (ℕ → Bool) → List ℕ → Bool
last_is p [] = false
last_is p (c ∷ []) = p c
last_is p (c ∷ d ∷ r) = last_is p (d ∷ r)

-- Characters of the class, the last one a letter or a digit.
pub word_end : (ℕ → Bool) → List ℕ → Bool
unfolding last_is
word_end in_class r = all in_class r && last_is is_lower_alnum r

-- At least two characters of the class, the first and the last a letter or a digit.
unfoldable pub is_word : (ℕ → Bool) → List ℕ → Bool
unfolding word_end
is_word in_class [] = false
is_word in_class (c ∷ r) = is_lower_alnum c && word_end in_class r

word_end-cons :
    (in_class : ℕ → Bool) (c x : ℕ) (r : List ℕ)
    → word_end in_class (c ∷ x ∷ r) ≡ (in_class c && word_end in_class (x ∷ r))
unfolding word_end
word_end-cons in_class c x r = ground arith

-- The end of a word is matched up to one final newline.
module _ (in_class : ℕ → Bool) (wider : (c : ℕ) → is_lower_alnum c ≡ true → in_class c ≡ true) where
  ends_in_alnum-one :
      (c : ℕ) → ends_in_alnum in_class (c ∷ []) ≡ word_end in_class (without_newline (c ∷ []))
  unfolding ends_in_alnum word_end without_newline is_lower_alnum
  ends_in_alnum-one c = ground (arith, wider c)

  ends_in_alnum-two :
      (c d : ℕ)
      → ends_in_alnum in_class (c ∷ d ∷ []) ≡ word_end in_class (without_newline (c ∷ d ∷ []))
  unfolding ends_in_alnum word_end without_newline is_lower_alnum
  ends_in_alnum-two c d = ground (arith, wider c, wider d)

  pub ends_in_alnum-eq-word_end :
      (r : List ℕ) → ends_in_alnum in_class r ≡ word_end in_class (without_newline r)
  unfolding ends_in_alnum word_end without_newline
  ends_in_alnum-eq-word_end [] = refl
  ends_in_alnum-eq-word_end (c ∷ []) = ends_in_alnum-one c
  ends_in_alnum-eq-word_end (c ∷ d ∷ []) = ends_in_alnum-two c d
  ends_in_alnum-eq-word_end (c ∷ d ∷ e ∷ r) = ground (arith, ends_in_alnum-eq-word_end (d ∷ e ∷ r))

alnum-slug_char : (c : ℕ) → is_lower_alnum c ≡ true → is_slug_char c ≡ true
unfolding is_slug_char
alnum-slug_char c h = ground arith

alnum-type_char : (c : ℕ) → is_lower_alnum c ≡ true → is_type_char c ≡ true
unfolding is_type_char
alnum-type_char c h = ground arith

slug_pattern-eq-is_word :
    (cs : List ℕ) → slug_pattern cs ≡ is_word is_slug_char (without_newline cs)
unfolding slug_pattern is_word without_newline is_lower_alnum
slug_pattern-eq-is_word [] = refl
slug_pattern-eq-is_word (c ∷ []) = ground arith
slug_pattern-eq-is_word (c ∷ d ∷ r) =
    ground (arith, ends_in_alnum-eq-word_end is_slug_char alnum-slug_char (d ∷ r))

-- A slug is accepted exactly when it has 2 to 63 characters and is, up to one final newline, a word
-- of lowercase letters, digits and hyphens that begins and ends with a letter or a digit.
pub tenant_slug-accepted :
    (s : String)
    → accepted (tenant_slug s)
      ≡ (leb 2 (len s) && leb (len s) 63 && is_word is_slug_char (without_newline (codes s)))
unfolding tenant_slug
tenant_slug-accepted s = ground (arith, slug_pattern-eq-is_word (codes s))

-- What is stored is the text that was given.
pub tenant_slug-eq-ok : (s : String) {v : String} → tenant_slug s ≡ ok v → v ≡ s
unfolding tenant_slug
tenant_slug-eq-ok s h = ground arith

without_newline-append : (cs : List ℕ) → without_newline (cs ++ 10 ∷ []) ≡ cs
unfolding without_newline
without_newline-append [] = refl
without_newline-append (c ∷ []) = refl
without_newline-append (c ∷ d ∷ r) = ap (λ (t : List ℕ). c ∷ t) (without_newline-append (d ∷ r))

codes-append : (s t : String) → codes (append s t) ≡ codes s ++ codes t
codes-append String.[] t = refl
codes-append (String.◌∷◌ c s) t = rw (codes-append s t)

-- A word that the pattern allows, of 2 to 62 characters, is accepted as a slug, and stored, with a
-- newline at its end too.
pub tenant_slug_newline :
    (s : String)
    → 2 ≤ len s
    → len s ≤ 62
    → is_word is_slug_char (codes s) ≡ true
    → tenant_slug (append s "\n") ≡ ok (append s "\n")
unfolding tenant_slug
tenant_slug_newline s long short word = ground (
  arith,
  len-append s "\n",
  slug_pattern-eq-is_word (codes (append s "\n")),
  codes-append s "\n",
  without_newline-append (codes s),
)

agent_type_pattern-eq-is_word :
    (c d : ℕ) (r : List ℕ)
    → agent_type_pattern (c ∷ d ∷ r)
      ≡ (is_word is_type_char (without_newline (c ∷ d ∷ r)) || (is_lower_alnum c && at_end (d ∷ r)))
unfolding agent_type_pattern is_word without_newline
agent_type_pattern-eq-is_word c d r =
    ground (arith, ends_in_alnum-eq-word_end is_type_char alnum-type_char (d ∷ r))
