-- ===== src/Reload/Calls.antt =====
-- reloader.go: when `debounceEvents` calls its function.
use pushup.Base.{
  ℕ, zero, suc, ◌+◌, ◌≡◌, refl, ap, Bool, true, false, Option, none, some, [], ◌∷◌, ◌++◌,
  if◌then◌else◌, equal_refl, arith,
}
use mathlib.Core.Path.{subst}
use pushup.Reload.Debounce.{
  Event, Watch, is_watched, reset, new_timer, arm, receive, fire, Step, Run, new_watch, pass, event,
  expire, returned, stop, here, next,
}
use pushup.Reload.Armed.{
  IsWellFormed, reset-IsSound, new_timer-IsSound, fire-IsSound, delete_name-IsSound,
}

module _ (interval : ℕ) where
  -- The timer that an event sets: it is set to the interval from now.
  abbrev pub IsArmed : Event → ℕ → Watch → Type 0
  IsArmed ev id s = (s.timers ev.name ≡ some id) × ((s.store id).due ≡ some (s.now + interval))

  pub arm-IsSound :
      (ev : Event) (s : Watch)
      → is_watched ev ≡ true
      → IsWellFormed interval s
      → IsWellFormed interval (arm interval ev (s.timers ev.name) s)
        × ((id : ℕ) × IsArmed ev id (arm interval ev (s.timers ev.name) s))
  unfolding arm reset new_timer
  arm-IsSound ev s w h = by_name (s.timers ev.name) refl
    where
      by_name :
          (o : Option ℕ)
          → s.timers ev.name ≡ o
          → IsWellFormed interval (arm interval ev o s)
            × ((id : ℕ) × IsArmed ev id (arm interval ev o s))
      by_name none q = (
        reset-IsSound interval s.made (new_timer interval ev s) (omega arith)
            (new_timer-IsSound interval ev s w h),
        (s.made, (rw equal_refl refl, ground arith)),
      )
      by_name (some id) q =
          let (l, e, a) = h.named ev.name id q in
          (
            reset-IsSound interval id s l (record {
              named = λ name j e. let (l, k, a) = h.named name j e in (l, k, λ n. a tt);
              bounded = h.bounded;
              unmade = h.unmade;
              watched = h.watched;
              called = h.called;
            }),
            (id, (q, ground arith)),
          )

  receive-IsWellFormed :
      (ev : Event) (s : Watch)
      → IsWellFormed interval s
      → IsWellFormed interval (receive interval ev s)
  unfolding receive
  receive-IsWellFormed ev s h = by_test (is_watched ev) refl
    where
      by_test :
          (t : Bool)
          → is_watched ev ≡ t
          → IsWellFormed interval (if t then arm interval ev (s.timers ev.name) s else s)
      by_test true q = (arm-IsSound ev s q h).0
      by_test false q = h

  Step-IsWellFormed :
      {s t : Watch} → Step interval s t → IsWellFormed interval s → IsWellFormed interval t
  Step-IsWellFormed (pass s) h = record {
    named = h.named;
    bounded = λ id d e. omega (arith, h.bounded id d e);
    unmade = h.unmade;
    watched = h.watched;
    called = h.called;
  }
  Step-IsWellFormed (event ev s go) h = receive-IsWellFormed ev s h
  Step-IsWellFormed (expire id due s e l) h = fire-IsSound interval id due s e h
  Step-IsWellFormed (returned id s r) h = delete_name-IsSound interval id s h
  Step-IsWellFormed (stop s) h = record {
    named = h.named;
    bounded = h.bounded;
    unmade = h.unmade;
    watched = h.watched;
    called = h.called;
  }

  new_watch-IsWellFormed : IsWellFormed interval new_watch
  new_watch-IsWellFormed = record {
    named = λ name id e. absurd (ground (arith, e));
    bounded = λ id d e. absurd (ground (arith, e));
    unmade = λ id l. refl;
    watched = λ id l. absurd (omega (arith, l));
    called = tt;
  }

  -- At any time the timer of each name in the map will go off or has a call that is running, it has an
  -- event of that name, no timer is set to more than the interval from now, and fn was called with Create
  -- and Write events only.
  pub Run-IsWellFormed : {s : Watch} → Run interval new_watch s → IsWellFormed interval s
  Run-IsWellFormed here = new_watch-IsWellFormed
  Run-IsWellFormed (next r st) = Step-IsWellFormed st (Run-IsWellFormed r)

  abbrev later : ℕ → Watch → Watch
  later n s = record s { now = s.now + n }

  wait : (n : ℕ) (s t : Watch) → Run interval s t → Run interval s (later n t)
  wait zero s t r =
      let same : t.now ≡ t.now + 0 = omega arith in
      subst (λ k. Run interval s (record t { now = k })) same r
  wait (suc n) s t r =
      let same : t.now + n + 1 ≡ t.now + suc n = omega arith in
      subst (λ k. Run interval s (record t { now = k })) same
        (next (wait n s t r) (pass (later n t)))

  pub arm-now : (ev : Event) (o : Option ℕ) (s : Watch) → (arm interval ev o s).now ≡ s.now
  unfolding arm reset new_timer
  arm-now ev none s = refl
  arm-now ev (some id) s = refl

  arm-calls :
      (ev : Event) (s : Watch)
      → is_watched ev ≡ true
      → IsWellFormed interval s
      → (t : Watch) × (e : Event) × Run interval (arm interval ev (s.timers ev.name) s) t
        × (t.calls ≡ (arm interval ev (s.timers ev.name) s).calls ++ (s.now + interval, e) ∷ [])
        × (e.name ≡ ev.name)
  unfolding fire
  arm-calls ev s w h =
      let v = arm interval ev (s.timers ev.name) s in
      let (k, (id, (q, e))) = arm-IsSound ev s w h in
      let (l, name, a) = k.named ev.name id q in
      (
        fire interval id (later interval v),
        (v.store id).event,
        next (wait interval v v here)
            (expire id (v.now + interval) (later interval v) e (omega arith)),
        ap (λ n. v.calls ++ (n + interval, (v.store id).event) ∷ [])
            (arm-now ev (s.timers ev.name) s),
        name,
      )

  -- After an event with Create or Write there is a run in which fn is called an interval later, with an event
  -- of the same name.
  pub receive-calls :
      {s : Watch} (ev : Event)
      → Run interval new_watch s
      → is_watched ev ≡ true
      → (t : Watch) × (e : Event) × Run interval (receive interval ev s) t
        × (t.calls ≡ (receive interval ev s).calls ++ (s.now + interval, e) ∷ [])
        × (e.name ≡ ev.name)
  unfolding receive
  receive-calls {s} ev r w = rw w (arm-calls ev s w (Run-IsWellFormed r))
