-- ===== src/Provisioning/Interleaving/Uniqueness.antt =====
-- What every interleaving keeps, and what it means for the callers.
use praecepta.Prelude.{ℕ, String, ◌≡◌, sym, ap, ◌∙◌, some, arith}
use praecepta.Registry.OidcSub
use praecepta.Registry.OidcSub.{
  SubRow, get-confirm, get-release, get-reserve, reserve-ok, reserve-Keyed, confirm-Keyed,
  release-Keyed,
}
use praecepta.Provisioning.Interleaving.{
  returned, World, Step, find, reserve, give_up, confirm, release, Reach, here, next, IsSafe,
}
use praecepta.Provisioning.Interleaving.Steps.{
  find-IsSafe, reserve-IsSafe, give_up-IsSafe, confirm-IsSafe, release-IsSafe,
}

some_eq : {a b : String} → some a ≡ some b → a ≡ b
some_eq h = ground arith

module _ (subject tenant : ℕ → String) where
  Step-IsSafe :
      {w v : World} → IsSafe subject tenant w → Step subject tenant w v → IsSafe subject tenant v
  Step-IsSafe {w} s (find p u t found) = find-IsSafe subject tenant w p u found s
  Step-IsSafe {w} s (reserve p d t granted) = reserve-IsSafe subject tenant w p d granted s
  Step-IsSafe {w} s (give_up p t) = give_up-IsSafe subject tenant w p s
  Step-IsSafe {w} s (confirm p u mine) = confirm-IsSafe subject tenant w p mine s u
  Step-IsSafe {w} s (release p mine) = release-IsSafe subject tenant w p mine s

  -- However the steps of the processes interleave, a safe world stays safe: no two processes hold a
  -- reservation of one subject at once.
  pub Reach-IsSafe :
      {w v : World} → IsSafe subject tenant w → Reach subject tenant w v → IsSafe subject tenant v
  Reach-IsSafe s here = s
  Reach-IsSafe s (next r st) = Step-IsSafe (Reach-IsSafe s r) st

  -- However the calls interleave, from a safe world, two calls that return for one subject return the
  -- same user.
  pub one_user :
      {w v : World} (p q : ℕ) (a b : String)
      → IsSafe subject tenant w
      → Reach subject tenant w v
      → v.phase p ≡ returned a
      → v.phase q ≡ returned b
      → subject p ≡ subject q
      → a ≡ b
  one_user {w} {v} p q a b s r hp hq e =
      let t = Reach-IsSafe s r in
      some_eq (sym (t.named p a hp) ∙ ap (OidcSub.lookup v.registry) e ∙ t.named q b hq)
