-- ===== src/ValueObjects/Names.antt =====
-- What `TenantName` and `DisplayName` store.
use praecepta.Prelude.{String, ◌≤◌, ◌≡◌, subst, sym, true, ◌&&◌, arith, leb}
use praecepta.Text.{len, truthy, strip}
use praecepta.Text.Strip.{HeadKept, LastKept, strip-HeadKept, strip-LastKept, strip_idem}
use praecepta.Errors.{ok, accepted}
use praecepta.ValueObjects.{bounded_name, tenant_name, display_name}

-- A stored name is not empty, has at most 255 characters, and neither begins nor ends with a space.
pub record IsName (v : String) : Type 0 where
  pub filled : truthy v ≡ true
  pub short : len v ≤ 255
  pub head : HeadKept v
  pub last : LastKept v

bounded_name-IsName : (s : String) {v : String} → bounded_name (strip s) ≡ ok v → IsName v
unfolding bounded_name
bounded_name-IsName s {v} h =
    let e : strip s ≡ v = ground arith in
    record {
      filled = ground arith;
      short = ground arith;
      head = subst HeadKept e (strip-HeadKept s);
      last = subst LastKept e (strip-LastKept s);
    }

-- Every tenant name that is stored is a proper name, and giving it again stores it again.
pub tenant_name-IsName :
    (s : String) {v : String} → tenant_name s ≡ ok v → IsName v × (tenant_name v ≡ ok v)
unfolding tenant_name
tenant_name-IsName s {v} h =
    let e : strip s ≡ v = (unfold bounded_name in ground arith) in
    (
      bounded_name-IsName s h,
      subst (λ w. bounded_name w ≡ ok v) (sym (strip-of e))
          (subst (λ w. bounded_name w ≡ ok v) e h),
    )
  where
    strip-of : strip s ≡ v → strip v ≡ v
    strip-of e = subst (λ w. strip w ≡ w) e (strip_idem s)

-- A name is accepted exactly when its stripped text is not empty and has at most 255 characters.
pub tenant_name-accepted :
    (s : String) → accepted (tenant_name s) ≡ (truthy (strip s) && leb (len (strip s)) 255)
unfolding tenant_name
tenant_name-accepted s = ground arith

pub display_name-IsName : (s : String) {v : String} → display_name s ≡ ok v → IsName v
unfolding display_name
display_name-IsName s h = bounded_name-IsName s h
