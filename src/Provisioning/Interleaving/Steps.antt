-- ===== src/Provisioning/Interleaving/Steps.antt =====
-- Each step of a process keeps the world safe.
use praecepta.Prelude.{
  ℕ, String, ◌≡◌, ◌≢◌, sym, ap, ◌∙◌, none, some, arith, eq_iff, eq_refl, ◌⊎◌, inl, inr,
}
use praecepta.Dict
use praecepta.Dict.{Dict}
use praecepta.Errors.{ok}
use praecepta.Registry.OidcSub
use praecepta.Registry.OidcSub.{
  SubRow, get-confirm, get-release, get-reserve, reserve-ok, reserve-Keyed, confirm-Keyed,
  release-Keyed,
}
use praecepta.Provisioning.Interleaving.{Phase, holding, failed, returned, World, set_phase, IsSafe}

-- a phase that is not the new one of `p` was there before
set_phase-old : (f : ℕ → Phase) (p q : ℕ) (x y : Phase) → set_phase f p x q ≡ y → x ≢ y → f q ≡ y
set_phase-old f p q x y h ne = ground arith

set_phase-cases :
    (f : ℕ → Phase) (p q : ℕ) (x y : Phase)
    → set_phase f p x q ≡ y
    → ((q ≡ p) × (x ≡ y)) ⊎ ((q ≢ p) × (f q ≡ y))
set_phase-cases f p q x y h = ground arith

lookup-same :
    (d e : Dict SubRow) (j : String)
    → Dict.get d j ≡ Dict.get e j
    → OidcSub.lookup d j ≡ OidcSub.lookup e j
unfolding OidcSub.lookup
lookup-same d e j h = rw h

lookup-reserved :
    (d : Dict SubRow) (j t : String)
    → Dict.get d j ≡ some (OidcSub.reserved_row t)
    → OidcSub.lookup d j ≡ none
unfolding OidcSub.lookup
lookup-reserved d j t h = rw h

lookup-absent : (d : Dict SubRow) (j : String) → Dict.get d j ≡ none → OidcSub.lookup d j ≡ none
unfolding OidcSub.lookup
lookup-absent d j h = rw h

-- Two different keys: a row of one, none of the other.
keys_differ :
    (d : Dict SubRow) (j k : String) {r : SubRow}
    → Dict.get d j ≡ none
    → Dict.get d k ≡ some r
    → j ≢ k
keys_differ d j k h hk e = cc (h, hk, ap (Dict.get d) e)

module _ (subject tenant : ℕ → String) where
  pub give_up-IsSafe :
      (w : World) (p : ℕ)
      → IsSafe subject tenant w
      → IsSafe subject tenant (record w { phase = set_phase w.phase p failed })
  give_up-IsSafe w p s = record {
    keyed = s.keyed;
    held = λ q h. s.held q (set_phase-old w.phase p q failed holding h (λ e. cc));
    alone = λ q r h k e.
        s.alone q r (set_phase-old w.phase p q failed holding h (λ e. cc))
          (set_phase-old w.phase p r failed holding k (λ e. cc)) e;
    named = λ q u h. s.named q u (set_phase-old w.phase p q failed (returned u) h (λ e. cc));
  }

  pub find-IsSafe :
      (w : World) (p : ℕ) (u : String)
      → OidcSub.lookup w.registry (subject p) ≡ some u
      → IsSafe subject tenant w
      → IsSafe subject tenant (record w { phase = set_phase w.phase p (returned u) })
  find-IsSafe w p u found s = record {
    keyed = s.keyed;
    held = λ q h. s.held q (set_phase-old w.phase p q (returned u) holding h (λ e. cc));
    alone = λ q r h k e.
        s.alone q r (set_phase-old w.phase p q (returned u) holding h (λ e. cc))
          (set_phase-old w.phase p r (returned u) holding k (λ e. cc)) e;
    named = λ q v h. elim (set_phase-cases w.phase p q (returned u) (returned v) h) [
      | inl (same, e) ↦ rw same (found ∙ returned_some e)
      | inr (other, old) ↦ s.named q v old
    ];
  }
    where
      returned_some : {a b : String} → returned a ≡ returned b → some a ≡ some b
      returned_some e = ground arith

  module _ (w : World) (p : ℕ) (d : Dict SubRow)
      (granted : OidcSub.reserve w.registry (subject p) (tenant p) ≡ ok d)
      (s : IsSafe subject tenant w) where
    free : Dict.get w.registry (subject p) ≡ none
    free = (reserve-ok w.registry (subject p) (tenant p) granted).0

    new_row : Dict.get d (subject p) ≡ some (OidcSub.reserved_row (tenant p))
    new_row =
        get-reserve w.registry (subject p) (tenant p) (subject p) granted ∙ rw (eq_refl (subject p))

    old_row : (j : String) → subject p ≢ j → Dict.get d j ≡ Dict.get w.registry j
    old_row j ne =
        rw (get-reserve w.registry (subject p) (tenant p) j granted)
          (ground (arith, eq_iff (subject p) j))

    pub reserve-IsSafe :
        IsSafe subject tenant (record { registry = d; phase = set_phase w.phase p holding })
    reserve-IsSafe = record {
      keyed = reserve-Keyed w.registry (subject p) (tenant p) s.keyed granted;
      held = λ q h. elim (set_phase-cases w.phase p q holding holding h) [
        | inl (same, e) ↦ rw same new_row
        | inr (other, old) ↦
            old_row (subject q) (keys_differ w.registry (subject p) (subject q) free (s.held q old))
            ∙ s.held q old
      ];
      alone = λ q r h k e. elim (set_phase-cases w.phase p q holding holding h) [
        | inl (qp, e1) ↦ elim (set_phase-cases w.phase p r holding holding k) [
          | inl (rp, e2) ↦ qp ∙ sym rp
          | inr (other, old) ↦ absurd (
              keys_differ w.registry (subject p) (subject r) free (s.held r old)
                (ap subject (sym qp) ∙ e))
        ]
        | inr (other, old) ↦ elim (set_phase-cases w.phase p r holding holding k) [
          | inl (rp, e2) ↦ absurd (
              keys_differ w.registry (subject p) (subject q) free (s.held q old)
                (ap subject (sym rp) ∙ sym e))
          | inr (other', old') ↦ s.alone q r old old' e
        ]
      ];
      named = λ q v h.
          let old = set_phase-old w.phase p q holding (returned v) h (λ e. cc) in
          lookup-same d w.registry (subject q) (
            old_row (subject q) (λ e. cc (
              s.named q v old,
              lookup-absent w.registry (subject p) free,
              ap (OidcSub.lookup w.registry) e,
            )))
          ∙ s.named q v old;
    }

  module _ (w : World) (p : ℕ) (mine : w.phase p ≡ holding) (s : IsSafe subject tenant w) where
    -- No process that returned has the subject of one that holds a reservation.
    returned_other : (q : ℕ) (v : String) → w.phase q ≡ returned v → subject p ≢ subject q
    returned_other q v h e = cc (
      s.named q v h,
      lookup-reserved w.registry (subject p) (tenant p) (s.held p mine),
      ap (OidcSub.lookup w.registry) e,
    )

    holding_other : (q : ℕ) → q ≢ p → w.phase q ≡ holding → subject p ≢ subject q
    holding_other q ne h e = ne (s.alone q p h mine (sym e))

    confirm_row :
        (u j : String)
        → subject p ≢ j
        → Dict.get (OidcSub.confirm w.registry (subject p) u) j ≡ Dict.get w.registry j
    confirm_row u j ne =
        rw (get-confirm w.registry (subject p) u j) (ground (arith, eq_iff (subject p) j))

    release_row :
        (j : String)
        → subject p ≢ j
        → Dict.get (OidcSub.release w.registry (subject p)) j ≡ Dict.get w.registry j
    release_row j ne =
        rw (get-release w.registry (subject p) j s.keyed) (ground (arith, eq_iff (subject p) j))

    confirmed_lookup :
        (u : String)
        → OidcSub.lookup (OidcSub.confirm w.registry (subject p) u) (subject p) ≡ some u
    unfolding OidcSub.lookup
    confirmed_lookup u =
        rw (get-confirm w.registry (subject p) u (subject p), eq_refl (subject p), s.held p mine)

    pub confirm-IsSafe :
        (u : String)
        → IsSafe subject tenant (record {
          registry = OidcSub.confirm w.registry (subject p) u;
          phase = set_phase w.phase p (returned u);
        })
    confirm-IsSafe u = record {
      keyed = confirm-Keyed w.registry (subject p) u s.keyed;
      held = λ q h. elim (set_phase-cases w.phase p q (returned u) holding h) [
        | inl (same, e) ↦ cc
        | inr (other, old) ↦ confirm_row u (subject q) (holding_other q other old) ∙ s.held q old
      ];
      alone = λ q r h k e.
          s.alone q r (set_phase-old w.phase p q (returned u) holding h (λ e. cc))
            (set_phase-old w.phase p r (returned u) holding k (λ e. cc)) e;
      named = λ q v h. elim (set_phase-cases w.phase p q (returned u) (returned v) h) [
        | inl (same, e) ↦ rw same (confirmed_lookup u ∙ ground arith)
        | inr (other, old) ↦
            lookup-same (OidcSub.confirm w.registry (subject p) u) w.registry (subject q)
              (confirm_row u (subject q) (returned_other q v old))
            ∙ s.named q v old
      ];
    }

    pub release-IsSafe : IsSafe subject tenant (record {
      registry = OidcSub.release w.registry (subject p);
      phase = set_phase w.phase p failed;
    })
    release-IsSafe = record {
      keyed = release-Keyed w.registry (subject p) s.keyed;
      held = λ q h. elim (set_phase-cases w.phase p q failed holding h) [
        | inl (same, e) ↦ cc
        | inr (other, old) ↦ release_row (subject q) (holding_other q other old) ∙ s.held q old
      ];
      alone = λ q r h k e.
          s.alone q r (set_phase-old w.phase p q failed holding h (λ e. cc))
            (set_phase-old w.phase p r failed holding k (λ e. cc)) e;
      named = λ q v h. elim (set_phase-cases w.phase p q failed (returned v) h) [
        | inl (same, e) ↦ cc
        | inr (other, old) ↦
            lookup-same (OidcSub.release w.registry (subject p)) w.registry (subject q)
              (release_row (subject q) (returned_other q v old))
            ∙ s.named q v old
      ];
    }
