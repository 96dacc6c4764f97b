-- ===== src/Provisioning/RowLeft.antt =====
-- What a provisioning call that fails leaves of the row of a subject.
use praecepta.Prelude.{
  ◌⊎◌, refl, true, str_eq, Bool-cases, String, ◌≡◌, ◌∙◌, some, arith, eq_iff, inl, inr,
}
use praecepta.Dict
use praecepta.Dict.{Dict, get-put}
use praecepta.Errors.{Result, ok, err, Error}
use praecepta.Registry.{Keyed}
use praecepta.Registry.OidcSub
use praecepta.Registry.OidcSub.{
  SubRow, get-release, get-reserve, get-confirm, confirm-Keyed, reserve-Keyed, reserve-ok,
}
use praecepta.User.{User}
use praecepta.Provisioning.{
  Store, Faults, Write, done, lost, late, released, compensate, confirm_user, save_user,
}
use praecepta.Provisioning.Outcomes.{alone}

module _ {V : Type 0} (faults : Faults) (k t new_id : String) (s : Store V) where
  -- Releasing a reservation that was just made restores every row.
  released-rows :
      (e : Dict SubRow) (j : String)
      → Keyed s.registry
      → OidcSub.reserve s.registry k t ≡ ok e
      → Dict.get (OidcSub.release e k) j ≡ Dict.get s.registry j
  released-rows e j keyed hr =
      rw
        (get-release e k j (reserve-Keyed s.registry k t keyed hr), get-reserve s.registry k t j hr)
        (ground (arith, (reserve-ok s.registry k t hr).0, eq_iff k j))

  -- What a call that raised `x` may leave of the row of a subject `j`: what was there; or the reservation,
  -- if the release was lost; or the confirmed row, if the confirmation raised after it was committed.
  abbrev pub RowLeft : Error → Dict SubRow → (j : String) → Type 0
  RowLeft x d j =
      (Dict.get d j ≡ Dict.get s.registry j)
      ⊎ (k ≡ j) × (faults.release ≡ lost x) × (Dict.get d j ≡ some (OidcSub.reserved_row t))
      ⊎ (k ≡ j)
        × ((y : Error) × (faults.confirm ≡ late y))
        × (Dict.get d j ≡ some (record { user_id = some new_id; tenant_id = t; confirmed = true }))

  reserved-RowLeft :
      (w : Write) (y x : Error) (e : Dict SubRow) (users : Dict (User V)) (j : String)
      → Keyed s.registry
      → OidcSub.reserve s.registry k t ≡ ok e
      → faults.release ≡ w
      → (released k w y (record { registry = e; users = users })).0 ≡ err x
      → RowLeft x (released k w y (record { registry = e; users = users })).1.registry j
  reserved-RowLeft done y x e users j keyed hr hw failed = inl (released-rows e j keyed hr)
  reserved-RowLeft (late z) y x e users j keyed hr hw failed = inl (released-rows e j keyed hr)
  reserved-RowLeft (lost z) y x e users j keyed hr hw failed = elim (Bool-cases (str_eq k j)) [
    | inl same ↦
        inr (
          inl
            ((eq_iff k j).0 same, cc (hw, failed), get-reserve s.registry k t j hr ∙ rw same refl))
    | inr other ↦ inl (get-reserve s.registry k t j hr ∙ rw other refl)
  ]

  -- A confirmed row is not released.
  confirmed-rows :
      (e : Dict SubRow) (j : String)
      → Keyed s.registry
      → OidcSub.reserve s.registry k t ≡ ok e
      → Dict.get (OidcSub.release (OidcSub.confirm e k new_id) k) j
        ≡ Dict.get (OidcSub.confirm e k new_id) j
  confirmed-rows e j keyed hr = ground (
    arith,
    get-release (OidcSub.confirm e k new_id) k j
        (confirm-Keyed e k new_id (reserve-Keyed s.registry k t keyed hr)),
    get-confirm e k new_id j,
    get-reserve s.registry k t j hr,
  )

  named-RowLeft :
      (y x : Error) (e d : Dict SubRow) (j : String)
      → OidcSub.reserve s.registry k t ≡ ok e
      → faults.confirm ≡ late y
      → Dict.get d j ≡ Dict.get (OidcSub.confirm e k new_id) j
      → RowLeft x d j
  named-RowLeft y x e d j hr hc left = elim (Bool-cases (str_eq k j)) [
    | inl same ↦ inr (
        inr (
          (eq_iff k j).0 same,
          (y, hc),
          ground (arith, left, get-confirm e k new_id j, get-reserve s.registry k t j hr, same),
        ))
    | inr other ↦
        inl (ground (arith, left, get-confirm e k new_id j, get-reserve s.registry k t j hr, other))
  ]

  confirmed-RowLeft :
      (w : Write) (y z x : Error) (e : Dict SubRow) (users : Dict (User V)) (j : String)
      → Keyed s.registry
      → OidcSub.reserve s.registry k t ≡ ok e
      → faults.confirm ≡ late z
      → RowLeft x
          (released k w y
            (record { registry = OidcSub.confirm e k new_id; users = users })).1.registry
          j
  confirmed-RowLeft done y z x e users j keyed hr hc =
      named-RowLeft z x e _ j hr hc (confirmed-rows e j keyed hr)
  confirmed-RowLeft (late _) y z x e users j keyed hr hc =
      named-RowLeft z x e _ j hr hc (confirmed-rows e j keyed hr)
  confirmed-RowLeft (lost _) y z x e users j keyed hr hc = named-RowLeft z x e _ j hr hc refl

  confirm-RowLeft :
      (w : Write) (x : Error) (e : Dict SubRow) (users : Dict (User V)) (j : String)
      → Keyed s.registry
      → OidcSub.reserve s.registry k t ≡ ok e
      → faults.confirm ≡ w
      → (confirm_user alone faults k new_id w (record { registry = e; users = users })).0 ≡ err x
      → RowLeft x
          (confirm_user alone faults k new_id w (record { registry = e; users = users })).1.registry
          j
  unfolding confirm_user compensate
  confirm-RowLeft done x e users j keyed hr hw failed = absurd (cc failed)
  confirm-RowLeft (lost z) x e users j keyed hr hw failed =
      reserved-RowLeft faults.release z x e users j keyed hr refl failed
  confirm-RowLeft (late z) x e users j keyed hr hw failed =
      confirmed-RowLeft faults.release z z x e users j keyed hr hw

  pub save-RowLeft :
      (r : Result (User V)) (w : Write) (x : Error) (e : Dict SubRow) (j : String)
      → Keyed s.registry
      → OidcSub.reserve s.registry k t ≡ ok e
      → (save_user alone faults k new_id r w (record s { registry = e })).0 ≡ err x
      → RowLeft x (save_user alone faults k new_id r w (record s { registry = e })).1.registry j
  unfolding save_user compensate
  save-RowLeft (err y) w x e j keyed hr failed =
      reserved-RowLeft faults.release y x e s.users j keyed hr refl failed
  save-RowLeft (ok u) done x e j keyed hr failed =
      confirm-RowLeft faults.confirm x e (Dict.put s.users new_id u) j keyed hr refl failed
  save-RowLeft (ok u) (lost y) x e j keyed hr failed =
      reserved-RowLeft faults.release y x e s.users j keyed hr refl failed
  save-RowLeft (ok u) (late y) x e j keyed hr failed =
      reserved-RowLeft faults.release y x e (Dict.put s.users new_id u) j keyed hr refl failed
