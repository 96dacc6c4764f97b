-- ===== src/Provisioning/Interleaving.antt =====
-- Provisioning by any number of processes at once, for the uniqueness of users: each statement on the
-- registry is one step, in any order. Process `p` provisions the subject `subject p`.
pub mod Steps
pub mod Uniqueness
use praecepta.Prelude.{
  ℕ, String, ◌≡◌, ◌≢◌, refl, sym, ap, ◌∙◌, subst, Bool, true, false, Option, none, some, arith,
  str_eq, eq_iff, eq_refl, ◌==◌, ==_iff, List, ◌⊎◌, if◌then◌else◌, inl, inr, Bool-cases,
}
use praecepta.Dict
use praecepta.Dict.{Dict}
use praecepta.Errors.{Result, ok, err, Error}
use praecepta.Registry.{Keyed}
use praecepta.Registry.OidcSub
use praecepta.Registry.OidcSub.{
  SubRow, get-confirm, get-release, get-reserve, reserve-ok, reserve-Keyed, confirm-Keyed,
  release-Keyed,
}

-- Where a call stands: before its reservation, with it, returned, or failed.
pub data Phase : Type 0 where
  trying holding failed : Phase
  returned : String → Phase

pub record World : Type 0 where
  pub registry : Dict SubRow
  pub phase : ℕ → Phase

-- the phase of `p` becomes `x`
abbrev pub set_phase : (ℕ → Phase) → ℕ → Phase → ℕ → Phase
set_phase f p x q = if q == p then x else f q

module _ (subject tenant : ℕ → String) where
  -- One step of the process `p`.
  pub data Step (w : World) : World → Type 0 where
    -- the lookup, of the fast path or of a retry, finds a confirmed user
    find :
        (p : ℕ) (u : String)
        → w.phase p ≡ trying
        → OidcSub.lookup w.registry (subject p) ≡ some u
        → Step w (record w { phase = set_phase w.phase p (returned u) })
    reserve :
        (p : ℕ) (d : Dict SubRow)
        → w.phase p ≡ trying
        → OidcSub.reserve w.registry (subject p) (tenant p) ≡ ok d
        → Step w (record { registry = d; phase = set_phase w.phase p holding })
    -- the last retry, or an error of the database
    give_up :
        (p : ℕ) → w.phase p ≡ trying → Step w (record w { phase = set_phase w.phase p failed })
    confirm :
        (p : ℕ) (u : String)
        → w.phase p ≡ holding
        → Step w (record {
          registry = OidcSub.confirm w.registry (subject p) u;
          phase = set_phase w.phase p (returned u);
        })
    -- the compensating release after a failure
    release :
        (p : ℕ)
        → w.phase p ≡ holding
        → Step w (record {
          registry = OidcSub.release w.registry (subject p);
          phase = set_phase w.phase p failed;
        })

  pub data Reach (w : World) : World → Type 0 where
    here : Reach w w
    next : {v u : World} → Reach w v → Step v u → Reach w u

  -- A process that holds a reservation has its row, unconfirmed, and is the only one to hold it; a
  -- process that returned a user has the user that the registry confirms for its subject.
  pub record IsSafe (w : World) : Type 0 where
    pub keyed : Keyed w.registry
    pub held :
        (p : ℕ)
        → w.phase p ≡ holding
        → Dict.get w.registry (subject p) ≡ some (OidcSub.reserved_row (tenant p))
    pub alone :
        (p q : ℕ) → w.phase p ≡ holding → w.phase q ≡ holding → subject p ≡ subject q → p ≡ q
    pub named :
        (p : ℕ) (u : String)
        → w.phase p ≡ returned u
        → OidcSub.lookup w.registry (subject p) ≡ some u
