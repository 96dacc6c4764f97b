-- ===== src/CodeIntel/Watcher/Tests.antt =====
-- The handler at concrete inputs.
use praecepta.Prelude.{String, ◌≡◌, refl, Bool, false, List, [], ◌∷◌, str_eq, if◌then◌else◌}
use praecepta.CodeIntel.Pipeline.{modified}
use praecepta.CodeIntel.Watcher.{map_event_type, Call, notified, fired, after}
use praecepta.CodeIntel.Watcher.Settled.{last_sent, last_seen, settled-last}

abbrev suffix : String → String
suffix p = if str_eq p "/r/a.py" then ".py" else ""

abbrev equal : String → String → Bool
equal p q = str_eq p q

abbrev history : List Call
history =
    notified
      (record { event_type = "modified"; src_path = "/r/note.txt"; is_directory = false; time = 3 })
    ∷ notified
        (record { event_type = "deleted"; src_path = "/r/a.py"; is_directory = false; time = 2 })
    ∷ notified
        (record { event_type = "created"; src_path = "/r/a.py"; is_directory = false; time = 1 })
    ∷ []

settled-last_example :
    last_sent "/r/a.py" (after suffix equal [] 500 (fired ∷ history)).sent
    ≡ last_seen suffix equal [] "/r/a.py" history
settled-last_example = settled-last suffix equal [] 500 history "/r/a.py"

-- A rename reaches the pipeline as a change of the old path.
moved_away : map_event_type "moved" ≡ modified
unfolding map_event_type
moved_away = refl
