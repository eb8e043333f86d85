-- ===== src/Reload/Quiet.antt =====
-- reloader.go: what keeps `debounceEvents` from calling its function early.
use pushup.Base.{
  ℕ, ◌+◌, ◌≤◌, ◌<◌, ◌≡◌, refl, sym, ap, ◌∙◌, Bool, true, false, Option, none, some, if◌then◌else◌,
  arith,
}
use mathlib.Core.Path.{subst}
use pushup.Reload.Debounce.{
  Event, Timer, Watch, is_watched, reset, new_timer, arm, receive, fire, delete_name, Step, Run,
  new_watch, pass, event, expire, returned, stop, here, next,
}
use pushup.Reload.Armed.{put-elim, IsWellFormed}
use pushup.Reload.Calls.{arm-now, arm-IsSound, Run-IsWellFormed}

module _ (interval : ℕ) where
  -- A timer that is set to `bound` or later.
  abbrev IsDue : ℕ → Timer → Type 0
  IsDue bound t = (d : ℕ) × (t.due ≡ some d) × (bound ≤ d)

  abbrev IsSetTo : ℕ → ℕ → Watch → Type 0
  IsSetTo bound id s = (id < s.made) × (bound ≤ s.now + interval) × IsDue bound (s.store id)

  arm-IsSetTo :
      (bound id : ℕ) (ev : Event) (o : Option ℕ) (s : Watch)
      → IsSetTo bound id s
      → IsSetTo bound id (arm interval ev o s)
  unfolding arm reset new_timer
  arm-IsSetTo bound id ev none s (l, b, h) =
      let v = new_timer interval ev s in
      (
        omega (arith, l),
        b,
        put-elim (IsDue bound) s.made (record (v.store s.made) { due = some (v.now + interval) })
            v.store id (λ q. absurd (omega (arith, q, l)))
            (λ n.
              put-elim (IsDue bound) s.made (record { event = ev; due = none }) s.store id
                (λ q. absurd (n q)) (λ q. h)),
      )
  arm-IsSetTo bound id ev (some k) s (l, b, h) = (
    l,
    b,
    put-elim (IsDue bound) k (record (s.store k) { due = some (s.now + interval) }) s.store id
        (λ q. (s.now + interval, refl, b)) (λ q. h),
  )

  receive-IsSetTo :
      (bound id : ℕ) (ev : Event) (s : Watch)
      → IsSetTo bound id s
      → IsSetTo bound id (receive interval ev s)
  unfolding receive
  receive-IsSetTo bound id ev s h = by_test (is_watched ev)
    where
      by_test :
          (t : Bool) → IsSetTo bound id (if t then arm interval ev (s.timers ev.name) s else s)
      by_test true = arm-IsSetTo bound id ev (s.timers ev.name) s h
      by_test false = h

  Step-IsSetTo :
      (bound id : ℕ) {s t : Watch}
      → Step interval s t
      → t.now < bound
      → IsSetTo bound id s
      → IsSetTo bound id t
  unfolding fire delete_name
  Step-IsSetTo bound id (pass s) lt (l, b, h) = (l, omega (arith, b), h)
  Step-IsSetTo bound id (event ev s go) lt h = receive-IsSetTo bound id ev s h
  Step-IsSetTo bound id (expire k due s e le) lt (l, b, (d, q, g)) = (
    l,
    b,
    put-elim (IsDue bound) k (record (s.store k) { due = none }) s.store id
        (λ same. absurd (ground (arith, same, e, q, g, lt, le))) (λ n. (d, q, g)),
  )
  Step-IsSetTo bound id (returned k s r) lt h = h
  Step-IsSetTo bound id (stop s) lt h = h

  receive-now : (ev : Event) (s : Watch) → (receive interval ev s).now ≡ s.now
  unfolding receive
  receive-now ev s = by_test (is_watched ev)
    where
      by_test : (t : Bool) → (if t then arm interval ev (s.timers ev.name) s else s).now ≡ s.now
      by_test true = arm-now interval ev (s.timers ev.name) s
      by_test false = refl

  Step-now : {s t : Watch} → Step interval s t → s.now ≤ t.now
  unfolding fire delete_name
  Step-now (pass s) = omega arith
  Step-now (event ev s go) = omega (arith, receive-now ev s)
  Step-now (expire k due s e le) = omega arith
  Step-now (returned k s r) = omega arith
  Step-now (stop s) = omega arith

  Run-IsSetTo :
      (bound id : ℕ) {s t : Watch}
      → Run interval s t
      → t.now < bound
      → IsSetTo bound id s
      → IsSetTo bound id t
  Run-IsSetTo bound id here lt h = h
  Run-IsSetTo bound id (next r st) lt h =
      Step-IsSetTo bound id st lt (Run-IsSetTo bound id r (omega (arith, Step-now st, lt)) h)

  receive-arm :
      (ev : Event) (s : Watch)
      → is_watched ev ≡ true
      → receive interval ev s ≡ arm interval ev (s.timers ev.name) s
  unfolding receive
  receive-arm ev s w = rw w refl

  arm-quiet :
      (ev : Event) (s : Watch)
      → is_watched ev ≡ true
      → IsWellFormed interval s
      → (id : ℕ) × ((arm interval ev (s.timers ev.name) s).timers ev.name ≡ some id)
        × IsSetTo (s.now + interval) id (arm interval ev (s.timers ev.name) s)
  arm-quiet ev s w h =
      let v = arm interval ev (s.timers ev.name) s in
      let (k, (id, (q, e))) = arm-IsSound interval ev s w h in
      let (l, name, a) = k.named ev.name id q in
      let b : s.now + interval ≤ v.now + interval =
        omega (arith, arm-now interval ev (s.timers ev.name) s) in
      (id, q, (l, b, (v.now + interval, e, b)))

  -- Behind an event with Create or Write, and until the interval is over, whatever happens: the timer of
  -- that name is still set, to the end of the interval or later.
  pub receive-quiet :
      {s t : Watch} (ev : Event)
      → Run interval new_watch s
      → is_watched ev ≡ true
      → Run interval (receive interval ev s) t
      → t.now < s.now + interval
      → (id : ℕ) × ((receive interval ev s).timers ev.name ≡ some id)
        × ((d : ℕ) × ((t.store id).due ≡ some d) × (s.now + interval ≤ d))
  receive-quiet {s} {t} ev r w run lt =
      let (id, q, set) = arm-quiet ev s w (Run-IsWellFormed interval r) in
      let same = receive-arm ev s w in
      let (l, b, set') =
        Run-IsSetTo (s.now + interval) id run lt
          (subst (IsSetTo (s.now + interval) id) (sym same) set) in
      (id, ap (λ v. v.timers ev.name) same ∙ q, set')
