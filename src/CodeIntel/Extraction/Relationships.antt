-- ===== src/CodeIntel/Extraction/Relationships.antt =====
-- extraction/semantic_extractor.py (packages/infra-codeintel): `extract_relationships`, the calls and
-- imports from each definition.
use praecepta.Prelude.{
  ℕ, String, ◌≡◌, refl, Bool, true, false, not, ◌&&◌, ◌||◌, List, [], ◌∷◌, ◌++◌, Option, none, some,
  arith, str_eq, eq_iff, if◌then◌else◌, ltb, leb,
}
use praecepta.Text.{append}
use praecepta.Dict
use praecepta.Dict.{Dict}
use praecepta.CodeIntel.{Tag, definition, reference}

pub record SymbolRelationship : Type 0 where
  pub source : String
  pub target : String
  pub kind : String

-- `definitions[tag.name] = tag` for each definition
unfoldable pub by_name : List Tag → Dict Tag → Dict Tag
by_name [] d = d
by_name (t ∷ ts) d = by_name ts (elim t.kind [ definition ↦ Dict.put d t.name t | reference ↦ d ])

-- the loop over `definitions.values()`: the best line so far, and its name
unfoldable pub closest :
    (line : ℕ) → Dict Tag → (best_line : ℕ) → (source_name : Option String) → Option String
closest line [] best_line source_name = source_name
closest line ((k, t) ∷ d) best_line source_name =
    let better = leb t.line line && ltb best_line t.line in
    closest line d (if better then t.line else best_line)
      (if better then some t.name else source_name)

unfoldable pub source_qualified : (module_name : String) → Option String → String
source_qualified module_name none = append module_name ".<module>"
source_qualified module_name (some n) = append module_name (append "." n)

-- `key not in seen`
unfoldable pub has_relationship : SymbolRelationship → List SymbolRelationship → Bool
has_relationship r [] = false
has_relationship r (x ∷ xs) =
    (str_eq x.source r.source && str_eq x.target r.target && str_eq x.kind r.kind)
    || has_relationship r xs

unfoldable pub add_relationship :
    SymbolRelationship → List SymbolRelationship → List SymbolRelationship
add_relationship r rs = if has_relationship r rs then rs else rs ++ r ∷ []

unfoldable pub relationship : (module_name : String) → Dict Tag → Tag → SymbolRelationship
relationship module_name d t = record {
  source = source_qualified module_name (closest t.line d 0 none);
  target = t.name;
  kind = if str_eq t.sub_kind "import" then "imports" else "calls";
}

-- the loop over the references; the keys seen are those of the relationships
unfoldable pub relate :
    (module_name : String) → Dict Tag → List Tag → List SymbolRelationship → List SymbolRelationship
relate module_name d [] rs = rs
relate module_name d (t ∷ ts) rs = relate module_name d ts (elim t.kind [
  | definition ↦ rs
  | reference ↦ add_relationship (relationship module_name d t) rs
])

unfoldable pub extract_relationships : (module_name : String) → List Tag → List SymbolRelationship
extract_relationships module_name tags = relate module_name (by_name tags []) tags []

-- No relationship stands twice.
unfoldable pub once : List SymbolRelationship → Bool
once [] = true
once (r ∷ rs) = not (has_relationship r rs) && once rs

has_relationship-snoc :
    (r s : SymbolRelationship) (rs : List SymbolRelationship)
    → has_relationship r (rs ++ s ∷ []) ≡ (
        has_relationship r rs
        || (str_eq s.source r.source && str_eq s.target r.target && str_eq s.kind r.kind))
unfolding has_relationship
has_relationship-snoc r s [] = ground arith
has_relationship-snoc r s (x ∷ rs) = ground (arith, has_relationship-snoc r s rs)

once-snoc :
    (rs : List SymbolRelationship) (r : SymbolRelationship)
    → once rs ≡ true
    → has_relationship r rs ≡ false
    → once (rs ++ r ∷ []) ≡ true
unfolding once has_relationship
once-snoc [] r h k = refl
once-snoc (x ∷ rs) r h k = ground (
  arith,
  once-snoc rs r,
  has_relationship-snoc x r rs,
  eq_iff x.source r.source,
  eq_iff x.target r.target,
  eq_iff x.kind r.kind,
  eq_iff r.source x.source,
  eq_iff r.target x.target,
  eq_iff r.kind x.kind,
)

once-relate :
    (module_name : String) (d : Dict Tag) (ts : List Tag) (rs : List SymbolRelationship)
    → once rs ≡ true
    → once (relate module_name d ts rs) ≡ true
unfolding relate add_relationship
once-relate module_name d [] rs h = h
once-relate module_name d (t ∷ ts) rs h =
    let r = relationship module_name d t in
    ground (
      arith,
      once-relate module_name d ts rs,
      once-relate module_name d ts (rs ++ r ∷ []),
      once-snoc rs r,
    )

-- Whatever the tags, no relationship is reported twice.
pub once-extract_relationships :
    (module_name : String) (tags : List Tag) → once (extract_relationships module_name tags) ≡ true
unfolding extract_relationships once
once-extract_relationships module_name tags = once-relate module_name (by_name tags []) tags [] refl
