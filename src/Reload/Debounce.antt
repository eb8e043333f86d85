-- ===== src/Reload/Debounce.antt =====
-- reloader.go: `debounceEvents`, as the steps of its loop, of the clock, and of the goroutines of its
-- timers. The mutex makes each access to the map of timers one step.
use pushup.Base.{
  ℕ, ◌+◌, ◌-◌, ◌≤◌, ◌≡◌, ◌≢◌, Bool, true, false, not, ◌&&◌, Option, none, some, List, [], ◌∷◌, ◌++◌,
  ◌==◌, if◌then◌else◌, Bytes, equal,
}

-- An event of package fsnotify: its name, and whether it has the operations Create and Write.
pub record Event : Type 0 where
  pub name : Bytes
  pub create : Bool
  pub write : Bool

-- A timer with the event that its function was made with, and the time that it is set to.
pub record Timer : Type 0 where
  pub event : Event
  pub due : Option ℕ

-- The clock, the map of timers by name, the timers that were made, how many were made, how many calls
-- of the function of each have not deleted its name yet, the calls of `fn` with their times, and whether the
-- loop has returned.
pub record Watch : Type 0 where
  pub now : ℕ
  pub timers : Bytes → Option ℕ
  pub store : ℕ → Timer
  pub made : ℕ
  pub running : ℕ → ℕ
  pub calls : List (ℕ × Event)
  pub stopped : Bool

abbrev pub is_watched : Event → Bool
is_watched ev = not (not ev.create && not ev.write)

abbrev pub put : {A : Type 0} → ℕ → A → (ℕ → A) → ℕ → A
put k a f j = if j == k then a else f j

abbrev pub set_name : Bytes → Option ℕ → (Bytes → Option ℕ) → Bytes → Option ℕ
set_name name o f other = if equal name other then o else f other

module _ (interval : ℕ) where
  -- `t.Reset(interval)`
  unfoldable pub reset : ℕ → Watch → Watch
  reset id s = record s {
    store = put id (record (s.store id) { due = some (s.now + interval) }) s.store;
  }

  -- `time.AfterFunc` with the longest time, `t.Stop()`, and the entry in the map.
  unfoldable pub new_timer : Event → Watch → Watch
  new_timer ev s = record s {
    timers = set_name ev.name (some s.made) s.timers;
    store = put s.made (record { event = ev; due = none }) s.store;
    made = s.made + 1;
  }

  unfoldable pub arm : Event → Option ℕ → Watch → Watch
  unfolding reset new_timer
  arm ev (some id) s = reset id s
  arm ev none s = reset s.made (new_timer ev s)

  -- One event in the loop.
  unfoldable pub receive : Event → Watch → Watch
  unfolding arm
  receive ev s = if is_watched ev then arm ev (s.timers ev.name) s else s

  -- The function of a timer: the call of `fn`, and then the deletion of its name.
  unfoldable pub fire : ℕ → Watch → Watch
  fire id s = record s {
    store = put id (record (s.store id) { due = none }) s.store;
    running = put id (s.running id + 1) s.running;
    calls = s.calls ++ (s.now, (s.store id).event) ∷ [];
  }

  unfoldable pub delete_name : ℕ → Watch → Watch
  delete_name id s = record s {
    timers = set_name (s.store id).event.name none s.timers;
    running = put id (s.running id - 1) s.running;
  }

  pub data Step : Watch → Watch → Type 0 where
    pass : (s : Watch) → Step s (record s { now = s.now + 1 })
    event : (ev : Event) (s : Watch) → s.stopped ≡ false → Step s (receive ev s)
    expire :
        (id due : ℕ) (s : Watch) → (s.store id).due ≡ some due → due ≤ s.now → Step s (fire id s)
    returned : (id : ℕ) (s : Watch) → s.running id ≢ 0 → Step s (delete_name id s)
    stop : (s : Watch) → Step s (record s { stopped = true })

  pub data Run (s : Watch) : Watch → Type 0 where
    here : Run s s
    next : {t u : Watch} → Run s t → Step t u → Run s u

abbrev pub new_watch : Watch
new_watch = record {
  now = 0;
  timers = λ name. none;
  store = λ id. record { event = record { name = []; create = false; write = false }; due = none };
  made = 0;
  running = λ id. 0;
  calls = [];
  stopped = false;
}
