-- ===== src/Registry/Tests.antt =====
-- The reservation tables at concrete inputs.
use praecepta.Prelude.{String, ◌≡◌, refl, true, false, [], ◌∷◌, none, some, str_eq, if◌then◌else◌}
use praecepta.Dict
use praecepta.Dict.{Dict}
use praecepta.Errors.{err, conflict}
use praecepta.Registry.{Keyed}
use praecepta.Registry.OidcSub
use praecepta.Registry.OidcSub.{SubRow}
use praecepta.Registry.Slug
use praecepta.Registry.Slug.{SlugRow, releasing, confirming, apply, slug_of, row_after, apply-row}

abbrev slugs : Dict SlugRow
slugs =
    ("acme", record { tenant_id = some "id-1"; confirmed = true })
    ∷ ("globex", record { tenant_id = none; confirmed = false })
    ∷ []

slugs-Keyed : Keyed slugs
unfolding Dict.get
slugs-Keyed = (refl, (refl, tt))

taken : Slug.reserve slugs "acme" ≡ err (conflict "Slug is already taken")
unfolding Slug.reserve Dict.get
taken = refl

kept : Slug.release slugs "acme" ≡ slugs
unfolding Slug.release
kept = refl

subs_free : OidcSub.lookup [] "sub-1" ≡ none
unfolding OidcSub.lookup Dict.get
subs_free = refl

apply-row_example :
    ((j : String)
      → Dict.get (apply (confirming "globex" "id-2") slugs) j ≡ (
          if str_eq "globex" j
          then row_after (confirming "globex" "id-2") (Dict.get slugs j)
          else Dict.get slugs j))
    × Keyed (apply (confirming "globex" "id-2") slugs)
apply-row_example = apply-row (confirming "globex" "id-2") slugs slugs-Keyed
