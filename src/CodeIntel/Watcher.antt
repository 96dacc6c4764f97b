-- ===== src/CodeIntel/Watcher.antt =====
-- watcher/file_watcher.py (packages/infra-codeintel): the handler that collects the events of a directory
-- and hands them on when it has been quiet for a while.
pub mod Settled
mod Tests
use praecepta.Prelude.{
  ◌⊎◌, and→both, ℕ, zero, suc, ◌+◌, ◌-◌, ◌≤◌, ◌<◌, String, ◌≡◌, ◌≢◌, refl, sym, ap, subst, ◌∙◌,
  Bool, true, false, not, ◌&&◌, ◌||◌, List, [], ◌∷◌, ◌++◌, Option, none, some, arith, str_eq,
  eq_iff, eq_refl, if◌then◌else◌, Option-cases, Bool-cases, inl, inr, length, length-append, map,
  ltb, leb, ◌==◌, get_elem?, take,
}
use praecepta.Dict
use praecepta.Dict.{Dict}
use praecepta.CodeIntel.Pipeline.{EventType, created, modified, deleted, FileEvent}

-- an event of watchdog
pub record Seen : Type 0 where
  pub event_type : String
  pub src_path : String
  pub is_directory : Bool
  pub time : ℕ

-- `_DebouncedHandler`: the timer is when it will go off, and `sent` the batches that were handed on, the
-- latest first.
pub record Handler : Type 0 where
  pub pending : Dict FileEvent
  pub timer : Option ℕ
  pub sent : List (List FileEvent)

abbrev pub new_handler : Handler
new_handler = record { pending = []; timer = none; sent = [] }

-- `LANGUAGE_EXTENSIONS`, by its keys
unfoldable pub is_extension : String → Bool
is_extension s =
    str_eq s ".py"
    || str_eq s ".pyi"
    || str_eq s ".ts"
    || str_eq s ".tsx"
    || str_eq s ".js"
    || str_eq s ".jsx"
    || str_eq s ".mjs"
    || str_eq s ".cjs"

-- `_map_event_type`
unfoldable pub map_event_type : String → EventType
map_event_type s =
    if str_eq s "created" then created else if str_eq s "deleted" then deleted else modified

-- `list(d.values())`
unfoldable pub values : Dict FileEvent → List FileEvent
values [] = []
values ((k, e) ∷ d) = e ∷ values d

-- `if events: ...`
abbrev pub hand_on : List FileEvent → List (List FileEvent) → List (List FileEvent)
hand_on [] sent = sent
hand_on (e ∷ es) sent = (e ∷ es) ∷ sent

unfoldable pub flush : Handler → Handler
flush h = record h { pending = []; sent = hand_on (values h.pending) h.sent }

-- `not fnmatch.fnmatch(path, pattern)` for every pattern
unfoldable pub none_matches : (fnmatch : String → String → Bool) → String → List String → Bool
none_matches fnmatch path [] = true
none_matches fnmatch path (p ∷ ps) = not (fnmatch path p) && none_matches fnmatch path ps

-- the event that is handed on; nothing reads its time
abbrev pub file_event : Seen → FileEvent
file_event e = record { path = e.src_path; event_type = map_event_type e.event_type }

-- A call on the handler; the flush of a timer may run late, when the timer was already cancelled.
pub data Call : Type 0 where
  notified : Seen → Call
  fired : Call

-- The parameters are `Path(path).suffix.lower()`, fnmatch and the settings.
module _ (suffix : String → String) (fnmatch : String → String → Bool)
    (exclude_patterns : List String) where
  unfoldable pub should_process : (path : String) → Bool
  should_process path = is_extension (suffix path) && none_matches fnmatch path exclude_patterns

module _ (suffix : String → String) (fnmatch : String → String → Bool)
    (exclude_patterns : List String) (debounce : ℕ) where
  unfoldable pub on_any_event : Seen → Handler → Handler
  on_any_event e h =
      if e.is_directory
      then h
      else if not (should_process suffix fnmatch exclude_patterns e.src_path)
      then h
      else record h {
        pending = Dict.put h.pending e.src_path (file_event e);
        timer = some (e.time + debounce);
      }

  unfoldable pub call : Call → Handler → Handler
  call (notified e) h = on_any_event e h
  call fired h = flush h

  -- the calls of a history, the last one first
  unfoldable pub after : List Call → Handler
  after [] = new_handler
  after (c ∷ history) = call c (after history)
