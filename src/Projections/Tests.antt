-- ===== src/Projections/Tests.antt =====
-- The lifespan at concrete inputs.
use praecepta.Prelude.{
  String, ◌≡◌, refl, List, [], ◌∷◌, ◌++◌, Option, none, some, str_eq, if◌then◌else◌, map, take,
}
use mathlib.Core.List.{reverse}
use praecepta.Projections.Chosen.{flat, names_of, declaring, group_from-declaring}
use praecepta.Projections.Lifespan.{lifespan-stops, lifespan-leaks}
use praecepta.Projections.{
  entered, exited, Projection, discovered, add_to, group_from, total, limited, lifespan,
}
use praecepta.Errors.{ok, Error, runtime_error}

abbrev contributions : List (Option Projection)
contributions =
    some (record { name = "list"; upstream_application = some "Tenant" })
    ∷ none
    ∷ some (record { name = "keys"; upstream_application = some "Agent" })
    ∷ some (record { name = "none"; upstream_application = none })
    ∷ some (record { name = "config"; upstream_application = some "Tenant" })
    ∷ some (record { name = "logs"; upstream_application = some "Agent" })
    ∷ []

abbrev found : List Projection
found = discovered contributions

abbrev no_error : String → Option Error
no_error p = none

abbrev no_keys : String → Option Error
no_keys p = if str_eq p "keys" then some (runtime_error "no connection") else none

abbrev no_config : String → Option Error
no_config p = if str_eq p "config" then some (runtime_error "no connection") else none

group_from-declaring_example :
    names_of "Tenant" (group_from (discovered contributions) [])
    ≡ declaring "Tenant" (discovered contributions)
group_from-declaring_example = group_from-declaring "Tenant" (discovered contributions)

cut_to_three :
    take 3 (flat (group_from (discovered contributions) [])) ≡ "list" ∷ "config" ∷ "keys" ∷ []
unfolding group_from discovered add_to
cut_to_three = refl

lifespan-stops_example : lifespan no_error (ok 3) none none contributions ≡ (
  none,
  map entered (take 3 (flat (group_from (discovered contributions) [])))
      ++ map exited (reverse (take 3 (flat (group_from (discovered contributions) [])))),
)
unfolding group_from discovered add_to
lifespan-stops_example = lifespan-stops no_error 3 none contributions refl

-- The first projection stays, since the second one of its group raises.
lifespan-leaks_example : lifespan no_config (ok 8) none none contributions ≡ (
  some (runtime_error "no connection"),
  map entered ([] ++ "list" ∷ []) ++ map exited (reverse []),
)
unfolding group_from discovered add_to limited total
lifespan-leaks_example =
    lifespan-leaks no_config 8 none contributions [] (("Agent", "keys" ∷ "logs" ∷ []) ∷ []) "Tenant"
      "config" ("list" ∷ []) [] (runtime_error "no connection") refl refl refl
