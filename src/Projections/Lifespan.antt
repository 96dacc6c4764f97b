-- ===== src/Projections/Lifespan.antt =====
-- projection_lifespan.py and subscription_runner.py: what starts, and what is stopped.
use praecepta.Prelude.{
  and→both, ℕ, String, ◌≡◌, refl, sym, ap, subst, ◌∙◌, Bool, true, false, not, ◌||◌, List, [], ◌∷◌,
  ◌++◌, Option, none, some, arith, Bool-cases, inl, inr, length, length-append, map, ltb, take,
}
use praecepta.Prelude.{all}
use praecepta.Text.Membership.{is_some}
use mathlib.Core.List.{append-nil, append_assoc, reverse, reverse_aux}
use praecepta.Projections.Chosen.{flat, limited-take, take-nil}
use praecepta.Projections.{
  Act, entered, exited, Projection, exits, Runner, new_runner, some_running, discovered, group_from,
  total, cap, limited, start_each, watch, start, stop, stop_all, start_all, stopped, run_groups,
  lifespan,
}
use mathlib.Core.List.{append-nil, append_assoc, reverse, reverse_aux}
use praecepta.Errors.{ok, Error}

-- a runner after a start
abbrev started_runner : List String → Runner
started_runner ps = record {
  projections = ps;
  runners = ps;
  started = true;
  monitored = some_running ps || false;
}

abbrev started_runners : List (String × List String) → List Runner
started_runners [] = []
started_runners ((a, ps) ∷ gs) = started_runner ps ∷ started_runners gs

exits-append : (ps qs : List String) → exits (ps ++ qs) ≡ exits qs ++ exits ps
unfolding exits
exits-append [] qs = sym (append-nil (exits qs))
exits-append (p ∷ ps) qs =
    ap (λ l. l ++ exited p ∷ []) (exits-append ps qs)
    ∙ append_assoc (exits qs) (exits ps) (exited p ∷ [])

stop_all-started :
    (gs : List (String × List String)) (log : List Act)
    → stop_all (started_runners gs) log ≡ log ++ exits (flat gs)
unfolding stop_all stop exits
stop_all-started [] log = sym (append-nil log)
stop_all-started ((a, ps) ∷ gs) log =
    ap (λ l. l ++ exits ps) (stop_all-started gs log)
    ∙ append_assoc log (exits (flat gs)) (exits ps)
    ∙ ap (λ l. log ++ l) (sym (exits-append ps (flat gs)))

map-append {ℓ ℓ'} :
    {A : Type ℓ} {B : Type ℓ'} (f : A → B) (xs ys : List A)
    → map f (xs ++ ys) ≡ map f xs ++ map f ys
map-append f [] ys = refl
map-append f (x ∷ xs) ys = ap (λ l. f x ∷ l) (map-append f xs ys)

limited-nil : (max : ℕ) → limited max [] ≡ []
unfolding limited cap
limited-nil max = elim (Bool-cases (ltb max (total []))) [ inl e ↦ rw e refl | inr e ↦ rw e refl ]

exits-reverse_aux :
    (ps qs : List String) → exits ps ++ map exited qs ≡ map exited (reverse_aux ps qs)
unfolding exits
exits-reverse_aux [] qs = refl
exits-reverse_aux (p ∷ ps) qs =
    append_assoc (exits ps) (exited p ∷ []) (map exited qs) ∙ exits-reverse_aux ps (p ∷ qs)

exits-reverse : (ps : List String) → exits ps ≡ map exited (reverse ps)
exits-reverse ps = sym (append-nil (exits ps)) ∙ exits-reverse_aux ps []

none-some {ℓ} : {A : Type ℓ} (o : Option A) → not (is_some o) ≡ true → o ≡ none
none-some none h = refl
none-some (some a) h = cc h

module _ (enters : String → Option Error) where
  -- making and entering the runners raises nothing
  abbrev pub all_enter : List String → Bool
  all_enter ps = all (λ p. not (is_some (enters p))) ps

  all_enter-append :
      (ps qs : List String)
      → all_enter (ps ++ qs) ≡ true
      → (all_enter ps ≡ true) × (all_enter qs ≡ true)
  all_enter-append [] qs h = (refl, h)
  all_enter-append (p ∷ ps) qs h =
      let (here, rest) = and→both (not (is_some (enters p))) _ h in
      let (first, last) = all_enter-append ps qs rest in (rw (here, first) refl, last)

  start_each-append :
      (ps qs : List String) (r : Runner) (log : List Act)
      → all_enter ps ≡ true
      → start_each enters (ps ++ qs) r log
        ≡ start_each enters qs (record r { runners = r.runners ++ ps }) (log ++ map entered ps)
  unfolding start_each
  start_each-append [] qs r log h = rw (append-nil r.runners, append-nil log) refl
  start_each-append (p ∷ ps) qs r log h =
      let (here, rest) = and→both _ _ h in
      rw (none-some (enters p) here) (
        start_each-append ps qs (record r { runners = r.runners ++ p ∷ [] }) (log ++ entered p ∷ [])
          rest
        ∙ ap
            (λ l.
              start_each enters qs (record r { runners = l })
                ((log ++ entered p ∷ []) ++ map entered ps))
            (append_assoc r.runners (p ∷ []) ps)
        ∙ ap (λ l. start_each enters qs (record r { runners = r.runners ++ p ∷ ps }) l)
            (append_assoc log (entered p ∷ []) (map entered ps)))

  start-new :
      (ps : List String) (log : List Act)
      → all_enter ps ≡ true
      → start enters (new_runner ps) log ≡ (none, started_runner ps, log ++ map entered ps)
  unfolding start start_each
  start-new ps log h = ap (watch enters) (
      subst
        (λ l.
          start_each enters l (new_runner ps) log
          ≡ (none, record (new_runner ps) { runners = ps }, log ++ map entered ps))
        (append-nil ps) (start_each-append ps [] (new_runner ps) log h))

  start-fails :
      (qs rest : List String) (p : String) (e : Error) (log : List Act)
      → all_enter qs ≡ true
      → enters p ≡ some e
      → start enters (new_runner (qs ++ p ∷ rest)) log
        ≡ (some e, record (new_runner (qs ++ p ∷ rest)) { runners = qs }, log ++ map entered qs)
  unfolding start start_each
  start-fails qs rest p e log h f =
      rw (start_each-append qs (p ∷ rest) (new_runner (qs ++ p ∷ rest)) log h, f) refl

  start_all-append :
      (done gs : List (String × List String)) (rs : List Runner) (log : List Act)
      → all_enter (flat done) ≡ true
      → start_all enters (done ++ gs) rs log
        ≡ start_all enters gs (rs ++ started_runners done) (log ++ map entered (flat done))
  unfolding start_all
  start_all-append [] gs rs log h = rw (append-nil rs, append-nil log) refl
  start_all-append ((a, ps) ∷ done) gs rs log h =
      let (here, rest) = all_enter-append ps (flat done) h in
      rw (start-new ps log here) (
        start_all-append done gs (rs ++ started_runner ps ∷ []) (log ++ map entered ps) rest
        ∙ ap (λ l. start_all enters gs l ((log ++ map entered ps) ++ map entered (flat done)))
            (append_assoc rs (started_runner ps ∷ []) (started_runners done))
        ∙ ap (λ l. start_all enters gs (rs ++ started_runner ps ∷ started_runners done) l)
            (append_assoc log (map entered ps) (map entered (flat done))
              ∙ ap (λ l. log ++ l) (sym (map-append entered ps (flat done)))))

  start_all-all :
      (gs : List (String × List String))
      → all_enter (flat gs) ≡ true
      → start_all enters gs [] [] ≡ (none, started_runners gs, map entered (flat gs))
  unfolding start_all
  start_all-all gs h =
      subst (λ l. start_all enters l [] [] ≡ (none, started_runners gs, map entered (flat gs)))
        (append-nil gs) (start_all-append gs [] [] [] h)

  start_all-fails :
      (done more : List (String × List String)) (a p : String) (qs rest : List String) (e : Error)
      → all_enter (flat done ++ qs) ≡ true
      → enters p ≡ some e
      → start_all enters (done ++ (a, qs ++ p ∷ rest) ∷ more) [] []
        ≡ (some e, started_runners done, map entered (flat done ++ qs))
  unfolding start_all
  start_all-fails done more a p qs rest e h f =
      let (before, here) = all_enter-append (flat done) qs h in
      start_all-append done ((a, qs ++ p ∷ rest) ∷ more) [] [] before
      ∙ rw (start-fails qs rest p e (map entered (flat done)) here f)
          (ap (λ l. (some e, started_runners done, l)) (sym (map-append entered (flat done) qs)))

  run_groups-stops :
      (max : ℕ) (body : Option Error) (gs : List (String × List String))
      → all_enter (take max (flat gs)) ≡ true
      → run_groups enters (ok max) none body gs
        ≡ (body, map entered (take max (flat gs)) ++ exits (take max (flat gs)))
  unfolding run_groups stopped exits
  run_groups-stops max body [] h = rw (take-nil max) refl
  run_groups-stops max body (g ∷ gs) h =
      let same = limited-take max (g ∷ gs) in
      rw
        (
          start_all-all (limited max (g ∷ gs)) (rw same h),
          stop_all-started (limited max (g ∷ gs)),
          same,
        )
        refl

  run_groups-leaks :
      (max : ℕ) (body : Option Error) (gs done more : List (String × List String)) (a p : String)
      (qs rest : List String) (e : Error)
      → limited max gs ≡ done ++ (a, qs ++ p ∷ rest) ∷ more
      → all_enter (flat done ++ qs) ≡ true
      → enters p ≡ some e
      → run_groups enters (ok max) none body gs
        ≡ (some e, map entered (flat done ++ qs) ++ exits (flat done))
  unfolding run_groups stopped limited
  run_groups-leaks max body [] done more a p qs rest e split h f =
      let longer = ap length (sym (limited-nil max) ∙ split) in
      absurd (omega (arith, longer, length-append done ((a, qs ++ p ∷ rest) ∷ more)))
  run_groups-leaks max body (g ∷ gs) done more a p qs rest e split h f =
      rw (split, start_all-fails done more a p qs rest e h f, stop_all-started done) refl

  -- The projections that run are those that declare an application, cut to the limit, which their groups
  -- share in order. If all their runners enter, then each is entered once, in that order; when the
  -- application ends, with an exception or without, each is exited, in the reverse order; and the lifespan
  -- ends as the application does.
  pub lifespan-stops :
      (max : ℕ) (body : Option Error) (cs : List (Option Projection))
      → all_enter (take max (flat (group_from (discovered cs) []))) ≡ true
      → lifespan enters (ok max) none body cs ≡ (
        body,
        map entered (take max (flat (group_from (discovered cs) [])))
            ++ map exited (reverse (take max (flat (group_from (discovered cs) [])))),
      )
  unfolding lifespan
  lifespan-stops max body cs h =
      run_groups-stops max body (group_from (discovered cs) []) h
      ∙ ap (λ l. (body, map entered (take max (flat (group_from (discovered cs) []))) ++ l))
          (exits-reverse (take max (flat (group_from (discovered cs) []))))

  -- If the runners of some groups enter and then those of a group up to one that raises: the exception
  -- leaves the lifespan, the runners of the groups before are exited in the reverse order, and those that
  -- the failing group had already entered are never exited.
  pub lifespan-leaks :
      (max : ℕ) (body : Option Error) (cs : List (Option Projection))
      (done more : List (String × List String)) (a p : String) (qs rest : List String) (e : Error)
      → limited max (group_from (discovered cs) []) ≡ done ++ (a, qs ++ p ∷ rest) ∷ more
      → all_enter (flat done ++ qs) ≡ true
      → enters p ≡ some e
      → lifespan enters (ok max) none body cs
        ≡ (some e, map entered (flat done ++ qs) ++ map exited (reverse (flat done)))
  unfolding lifespan
  lifespan-leaks max body cs done more a p qs rest e split h f =
      run_groups-leaks max body (group_from (discovered cs) []) done more a p qs rest e split h f
      ∙ ap (λ l. (some e, map entered (flat done ++ qs) ++ l)) (exits-reverse (flat done))
