-- ===== src/CodeIntel/Structural/Owners.antt =====
-- index/structural_index.py: which file owns a name.
use praecepta.Prelude.{
  String, ◌≡◌, refl, Bool, false, ◌&&◌, ◌||◌, List, [], ◌∷◌, Option, none, some, arith, str_eq,
  eq_iff, if◌then◌else◌,
}
use praecepta.Text.Membership.{mem, is_some}
use praecepta.Dict
use praecepta.Dict.{Dict}
use praecepta.CodeIntel.{Tag, definition, reference}
use praecepta.CodeIntel.Structural.{definitions, register, keys_owned, delete_keys, forget}

-- Whether a tag of the list defines the name.
unfoldable pub defines : List Tag → String → Bool
defines [] n = false
defines (t ∷ ts) n =
    elim t.kind [ definition ↦ str_eq t.name n | reference ↦ false ] || defines ts n

-- The file that owns a name: the last of the files that define it.
unfoldable pub owner :
    (normalize : String → String) → List (String × List Tag) → String → Option String
owner normalize [] n = none
owner normalize ((path, tags) ∷ files) n =
    Dict.or_old (owner normalize files n) (if defines tags n then some (normalize path) else none)

abbrev pub without : (fp : String) → Option String → Option String
without fp none = none
without fp (some w) = if str_eq w fp then none else some w

pub get-register :
    (fp : String) (ts : List Tag) (d : Dict String) (n : String)
    → Dict.get (register fp (definitions ts) d) n ≡ (if defines ts n then some fp else Dict.get d n)
unfolding register definitions defines
get-register fp [] d n = refl
get-register fp (t ∷ ts) d n = ground (
  arith,
  get-register fp ts d n,
  get-register fp ts (Dict.put d t.name fp) n,
  Dict.get-put d t.name fp n,
)

get-delete_keys :
    (ks : List String) (d : Dict String) (n : String)
    → Dict.get (delete_keys ks d) n ≡ (if mem n ks then none else Dict.get d n)
unfolding delete_keys mem
get-delete_keys [] d n = refl
get-delete_keys (k ∷ ks) d n =
    ground (arith, get-delete_keys ks (Dict.remove d k) n, Dict.get-remove d k n)

abbrev pub owned : Option String → String → Bool
owned none fp = false
owned (some w) fp = str_eq w fp

mem-keys_owned :
    (index : Dict String) (fp : String) (d : Dict String) (n : String)
    → mem n (keys_owned index fp d) ≡ (is_some (Dict.get d n) && owned (Dict.get index n) fp)
unfolding keys_owned mem Dict.get
mem-keys_owned index fp [] n = refl
mem-keys_owned index fp ((k, v) ∷ d) n = ground (arith, mem-keys_owned index fp d n, eq_iff k n)

pub get-forget :
    (fp : String) (d : Dict String) (n : String)
    → Dict.get (forget fp d) n ≡ without fp (Dict.get d n)
unfolding forget
get-forget fp d n = ground (arith, get-delete_keys (keys_owned d fp d) d n, mem-keys_owned d fp d n)
