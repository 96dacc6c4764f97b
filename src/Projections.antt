-- ===== src/Projections.antt =====
-- projections/subscription_runner.py and projection_lifespan.py (packages/infra-eventsourcing): which
-- projections run, and the order in which their runners start and stop.
pub mod Chosen
pub mod Lifespan
mod Tests
use praecepta.Prelude.{
  ◌⊎◌, and→both, ℕ, zero, suc, ◌+◌, ◌-◌, ◌≤◌, ◌<◌, String, ◌≡◌, ◌≢◌, refl, sym, ap, subst, ◌∙◌,
  Bool, true, false, not, ◌&&◌, ◌||◌, List, [], ◌∷◌, ◌++◌, Option, none, some, arith, str_eq,
  eq_iff, eq_refl, if◌then◌else◌, Option-cases, Bool-cases, inl, inr, length, length-append, map,
  ltb, leb, ◌==◌, get_elem?, take,
}
use praecepta.Errors.{Result, ok, err, Error, runtime_error}

-- A call that the code makes on the runner of a projection, a context manager of the eventsourcing library.
pub data Act : Type 0 where
  entered : (projection : String) → Act
  exited : (projection : String) → Act

pub record Projection : Type 0 where
  pub name : String
  pub upstream_application : Option String

-- `SubscriptionProjectionRunner`; `monitored` is whether there is a thread that watches the runners.
pub record Runner : Type 0 where
  pub projections : List String
  pub runners : List String
  pub started : Bool
  pub monitored : Bool

abbrev pub new_runner : (projections : List String) → Runner
new_runner projections = record {
  projections = projections;
  runners = [];
  started = false;
  monitored = false;
}

abbrev pub some_running : List String → Bool
some_running [] = false
some_running (p ∷ ps) = true

-- `for runner in reversed(self._runners)`, where an exception of `__exit__` is caught
unfoldable pub exits : List String → List Act
exits [] = []
exits (p ∷ ps) = exits ps ++ exited p ∷ []

-- What a call raised, and the state after it.
abbrev pub Outcome : Type 0 → Type 0
Outcome S = Option Error × S × List Act

-- `_discover_projections`, where a contribution that is no projection is none
unfoldable pub discovered : List (Option Projection) → List Projection
discovered [] = []
discovered (none ∷ cs) = discovered cs
discovered (some p ∷ cs) = p ∷ discovered cs

-- `grouped[app_cls].append(proj_cls)`
unfoldable pub add_to :
    (app name : String) → List (String × List String) → List (String × List String)
add_to app name [] = (app, name ∷ []) ∷ []
add_to app name ((a, ps) ∷ gs) =
    if str_eq a app then (a, ps ++ name ∷ []) ∷ gs else (a, ps) ∷ add_to app name gs

abbrev pub add_projection :
    (name : String) → Option String → List (String × List String) → List (String × List String)
add_projection name none gs = gs
add_projection name (some app) gs = add_to app name gs

-- `_group_projections_by_application`, from the groups so far
unfoldable pub group_from :
    List Projection → List (String × List String) → List (String × List String)
group_from [] gs = gs
group_from (p ∷ ps) gs = group_from ps (add_projection p.name p.upstream_application gs)

unfoldable pub total : List (String × List String) → ℕ
total [] = 0
total ((a, ps) ∷ gs) = length ps + total gs

unfoldable pub cap : (max count : ℕ) → List (String × List String) → List (String × List String)
cap max count [] = []
cap max count ((a, ps) ∷ gs) =
    if leb max count
    then []
    else (a, take (max - count) ps) ∷ cap max (count + length (take (max - count) ps)) gs

-- A limit below 0 does what 0 does.
unfoldable pub limited : (max : ℕ) → List (String × List String) → List (String × List String)
limited max gs = if ltb max (total gs) then cap max 0 gs else gs

unfoldable pub stop : Runner → List Act → Runner × List Act
stop r log =
    if r.started
    then (record r { runners = []; started = false; monitored = false }, log ++ exits r.runners)
    else (r, log)

-- `for runner in reversed(runners): runner.stop()`
unfoldable pub stop_all : List Runner → List Act → List Act
stop_all [] log = log
stop_all (r ∷ rs) log = (stop r (stop_all rs log)).1

-- the handler of an exception, and the `finally`; `body` is what the application raises while it runs
unfoldable pub stopped : (body : Option Error) → Outcome (List Runner) → Option Error × List Act
stopped body (some e, rs, log) = (some e, stop_all rs log)
stopped body (none, rs, log) = (body, stop_all rs log)

-- `enters` is what making and entering the runner of a projection raises.
module _ (enters : String → Option Error) where
  abbrev pub start_one : Option Error → (rest : Outcome Runner) → Runner → List Act → Outcome Runner
  start_one none rest r log = rest
  start_one (some e) rest r log = (some e, r, log)

  -- the loop of `start`
  unfoldable pub start_each : List String → Runner → List Act → Outcome Runner
  start_each [] r log = (none, r, log)
  start_each (p ∷ ps) r log =
      start_one (enters p)
        (start_each ps (record r { runners = r.runners ++ p ∷ [] }) (log ++ entered p ∷ [])) r log

  abbrev pub watch : Outcome Runner → Outcome Runner
  watch (some e, r, log) = (some e, r, log)
  watch (none, r, log) =
      (none, record r { started = true; monitored = some_running r.runners || r.monitored }, log)

  unfoldable pub start : Runner → List Act → Outcome Runner
  start r log =
      if r.started
      then (some (runtime_error "SubscriptionProjectionRunner already started"), r, log)
      else watch (start_each r.projections r log)

  abbrev pub start_next :
      Outcome Runner
      → (rest : Runner → List Act → Outcome (List Runner)) → List Runner
      → Outcome (List Runner)
  start_next (some e, r, log) rest rs = (some e, rs, log)
  start_next (none, r, log) rest rs = rest r log

  -- the loop of the lifespan, with the runners that were appended so far
  unfoldable pub start_all :
      List (String × List String) → List Runner → List Act → Outcome (List Runner)
  start_all [] rs log = (none, rs, log)
  start_all ((a, ps) ∷ gs) rs log =
      start_next (start (new_runner ps) log) (λ r log'. start_all gs (rs ++ r ∷ []) log') rs

  -- from the limit in the environment and the reading of the settings, either of which may raise
  unfoldable pub run_groups :
      Result ℕ
      → (settings body : Option Error) → List (String × List String)
      → Option Error × List Act
  run_groups limit settings body [] = (body, [])
  run_groups (err e) settings body (g ∷ gs) = (some e, [])
  run_groups (ok max) (some e) body (g ∷ gs) = (some e, [])
  run_groups (ok max) none body (g ∷ gs) = stopped body (start_all (limited max (g ∷ gs)) [] [])

  -- `projection_runner_lifespan`
  unfoldable pub lifespan :
      Result ℕ → (settings body : Option Error) → List (Option Projection) → Option Error × List Act
  lifespan limit settings body contributions =
      run_groups limit settings body (group_from (discovered contributions) [])
