-- ===== src/CodeIntel/Watcher/Settled.antt =====
-- file_watcher.py: what was handed on, once the handler has settled.
use praecepta.Prelude.{
  ℕ, ◌+◌, String, ◌≡◌, refl, ap, ◌∙◌, Bool, true, false, not, ◌&&◌, List, [], ◌∷◌, Option, none,
  some, arith, str_eq, eq_iff, eq_refl, if◌then◌else◌, Bool-cases, inl, inr,
}
use praecepta.Dict
use praecepta.Dict.{Dict, get-put}
use praecepta.CodeIntel.Extraction.{or_else}
use praecepta.CodeIntel.Pipeline.{FileEvent}
use praecepta.CodeIntel.Watcher.{
  Seen, Handler, values, hand_on, flush, Call, notified, fired, should_process, file_event,
  on_any_event, call, after,
}

-- the event of a path in a batch
abbrev pub find_path : String → List FileEvent → Option FileEvent
find_path k [] = none
find_path k (e ∷ es) = if str_eq e.path k then some e else find_path k es

-- the last event of a path that was handed on
abbrev pub last_sent : String → List (List FileEvent) → Option FileEvent
last_sent k [] = none
last_sent k (b ∷ sent) = or_else (find_path k b) (last_sent k sent)

-- each event is pending under its own path
abbrev all_own : Dict FileEvent → Bool
all_own [] = true
all_own ((k, e) ∷ d) = str_eq e.path k && all_own d

find_path-values :
    (k : String) (d : Dict FileEvent) → all_own d ≡ true → find_path k (values d) ≡ Dict.get d k
unfolding values Dict.get
find_path-values k [] own = refl
find_path-values k ((j, e) ∷ d) own =
    ground (arith, eq_iff e.path j, eq_iff e.path k, eq_iff j k, find_path-values k d)

own-put :
    (d : Dict FileEvent) (e : FileEvent) → all_own d ≡ true → all_own (Dict.put d e.path e) ≡ true
unfolding Dict.put
own-put [] e own = ground (arith, eq_refl e.path)
own-put ((k, w) ∷ d) e own = elim (Bool-cases (str_eq k e.path)) [
  | inl same ↦ rw same (ground (arith, eq_iff k e.path, eq_iff e.path k))
  | inr other ↦ rw other (ground (arith, own-put d e))
]

last_sent-hand_on :
    (k : String) (b : List FileEvent) (sent : List (List FileEvent))
    → last_sent k (hand_on b sent) ≡ or_else (find_path k b) (last_sent k sent)
last_sent-hand_on k [] sent = refl
last_sent-hand_on k (e ∷ es) sent = refl

module _ (suffix : String → String) (fnmatch : String → String → Bool)
    (exclude_patterns : List String) where
  abbrev is_accepted : Seen → Bool
  is_accepted e = not e.is_directory && should_process suffix fnmatch exclude_patterns e.src_path

  -- the last event of a path that is no directory, has an extension of a known language and is not excluded
  abbrev pub last_seen : String → List Call → Option FileEvent
  last_seen k [] = none
  last_seen k (fired ∷ h) = last_seen k h
  last_seen k (notified e ∷ h) =
      let rest = last_seen k h in
      if is_accepted e && str_eq e.src_path k then some (file_event e) else rest

  record IsSettled (h : Handler) (history : List Call) : Type 0 where
    own : all_own h.pending ≡ true
    last : (k : String) → or_else (Dict.get h.pending k) (last_sent k h.sent) ≡ last_seen k history

  put-IsSettled :
      (e : Seen) (h : Handler) (history : List Call) (t : Option ℕ)
      → is_accepted e ≡ true
      → IsSettled h history
      → IsSettled
          (record h { pending = Dict.put h.pending e.src_path (file_event e); timer = t })
          (notified e ∷ history)
  put-IsSettled e h history t taken old = record {
    own = own-put h.pending (file_event e) old.own;
    last = λ k. elim (Bool-cases (str_eq e.src_path k)) [
      | inl same ↦ rw (get-put h.pending e.src_path (file_event e) k, taken, same) refl
      | inr other ↦ rw (get-put h.pending e.src_path (file_event e) k, taken, other) (old.last k)
    ];
  }

  skip-IsSettled :
      (e : Seen) (h : Handler) (history : List Call)
      → is_accepted e ≡ false
      → IsSettled h history
      → IsSettled h (notified e ∷ history)
  skip-IsSettled e h history refused old = record {
    own = old.own;
    last = λ k. rw refused (old.last k);
  }

  flush-IsSettled :
      (h : Handler) (history : List Call)
      → IsSettled h history
      → IsSettled (flush h) (fired ∷ history)
  unfolding flush Dict.get values
  flush-IsSettled h history old = record {
    own = refl;
    last = λ k.
        last_sent-hand_on k (values h.pending) h.sent
        ∙ ap (λ o. or_else o (last_sent k h.sent)) (find_path-values k h.pending old.own)
        ∙ old.last k;
  }

  module _ (debounce : ℕ) where
    seen-IsSettled :
        (e : Seen) (h : Handler) (history : List Call)
        → IsSettled h history
        → IsSettled
            (on_any_event suffix fnmatch exclude_patterns debounce e h)
            (notified e ∷ history)
    unfolding on_any_event
    seen-IsSettled e h history old = elim (Bool-cases e.is_directory) [
      | inl folder ↦
          let same : on_any_event suffix fnmatch exclude_patterns debounce e h ≡ h =
            ground (arith, folder) in
          rw same (skip-IsSettled e h history (ground (arith, folder)) old)
      | inr file ↦ elim (Bool-cases (should_process suffix fnmatch exclude_patterns e.src_path)) [
        | inl chosen ↦
            let put : on_any_event suffix fnmatch exclude_patterns debounce e h ≡ record h {
              pending = Dict.put h.pending e.src_path (file_event e);
              timer = some (e.time + debounce);
            } =
              ground (arith, file, chosen) in
            rw put (
              put-IsSettled e h history (some (e.time + debounce)) (ground (arith, file, chosen))
                old)
        | inr other ↦
            let same : on_any_event suffix fnmatch exclude_patterns debounce e h ≡ h =
              ground (arith, file, other) in
            rw same (skip-IsSettled e h history (ground (arith, file, other)) old)
      ]
    ]

    after-IsSettled :
        (history : List Call)
        → IsSettled (after suffix fnmatch exclude_patterns debounce history) history
    unfolding after call on_any_event Dict.get
    after-IsSettled [] = record { own = refl; last = λ k. refl }
    after-IsSettled (fired ∷ history) =
        flush-IsSettled (after suffix fnmatch exclude_patterns debounce history) history
          (after-IsSettled history)
    after-IsSettled (notified e ∷ history) =
        seen-IsSettled e (after suffix fnmatch exclude_patterns debounce history) history
          (after-IsSettled history)

    -- Whatever events come in, and whenever timers go off between them: once a timer has gone off after the
    -- last one, the last event that was handed on for a path is the last one that came in for it and passed
    -- the filter, and there is none if none did.
    pub settled-last :
        (history : List Call) (k : String)
        → last_sent k (after suffix fnmatch exclude_patterns debounce (fired ∷ history)).sent
          ≡ last_seen k history
    unfolding after call flush Dict.get
    settled-last history k = (after-IsSettled (fired ∷ history)).last k
