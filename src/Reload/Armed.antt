-- ===== src/Reload/Armed.antt =====
-- reloader.go: what holds of the timers of `debounceEvents` at any time.
use pushup.Base.{
  ℕ, ◌+◌, ◌-◌, ◌≤◌, ◌<◌, ◌≡◌, ◌≢◌, ◌⊎◌, inl, inr, refl, sym, ap, ◌∙◌, Bool, true, false, Option,
  none, some, [], ◌∷◌, ◌==◌, if◌then◌else◌, All, All-append, Bytes, equal, equal_iff, arith,
}
use pushup.Reload.Debounce.{
  Event, Timer, Watch, is_watched, put, set_name, reset, new_timer, fire, delete_name,
}

-- A timer will call its function, or a call of it has not deleted its name yet.
abbrev pub HasTimer : Timer → ℕ → Type 0
HasTimer t running = ((d : ℕ) × (t.due ≡ some d)) ⊎ (1 ≤ running)

abbrev pub IsAlive : Watch → ℕ → Type 0
IsAlive s id = HasTimer (s.store id) (s.running id)

pub put-elim :
    {A : Type 0} (P : A → Type 0) (k : ℕ) (a : A) (f : ℕ → A) (j : ℕ)
    → (j ≡ k → P a)
    → (j ≢ k → P (f j))
    → P (put k a f j)
put-elim P k a f j hit miss = by_test (j == k) refl
  where
    by_test : (t : Bool) → (j == k) ≡ t → P (if t then a else f j)
    by_test true q = hit (ground (arith, q))
    by_test false q = miss (λ e. ground (arith, q, e))

pub set_name-elim :
    (P : Option ℕ → Type 0) (name : Bytes) (o : Option ℕ) (f : Bytes → Option ℕ) (other : Bytes)
    → (name ≡ other → P o)
    → (name ≢ other → P (f other))
    → P (set_name name o f other)
set_name-elim P name o f other hit miss = by_test (equal name other) refl
  where
    by_test : (t : Bool) → equal name other ≡ t → P (if t then o else f other)
    by_test true q = hit ((equal_iff name other).0 q)
    by_test false q = miss (λ e. ground (arith, q, (equal_iff name other).1 e))

module _ (interval : ℕ) where
  -- `must` says of which timers in the map it holds that they are alive.
  pub record IsSound (must : ℕ → Type 0) (s : Watch) : Type 0 where
    pub named :
        (name : Bytes) (id : ℕ)
        → s.timers name ≡ some id
        → (id < s.made) × ((s.store id).event.name ≡ name) × (must id → IsAlive s id)
    pub bounded : (id d : ℕ) → (s.store id).due ≡ some d → d ≤ s.now + interval
    pub unmade : (id : ℕ) → s.made ≤ id → (s.store id).due ≡ none
    pub watched : (id : ℕ) → id < s.made → is_watched (s.store id).event ≡ true
    pub called : All (λ (c : ℕ × Event). is_watched c.1 ≡ true) s.calls

  -- The timer of each name in the map is alive and has an event of that name; each time that a timer is
  -- set to is at most the interval away; and the events of the timers and of the calls are watched.
  abbrev pub IsWellFormed : Watch → Type 0
  IsWellFormed s = IsSound (λ id. Unit) s

  pub reset-IsSound :
      (id : ℕ) (s : Watch)
      → id < s.made
      → IsSound (λ j. j ≢ id) s
      → IsWellFormed (reset interval id s)
  unfolding reset
  reset-IsSound id s lt h = record {
    named = λ name j e. named name j (h.named name j e);
    bounded = λ j d.
        put-elim (λ t. t.due ≡ some d → d ≤ s.now + interval) id armed s.store j
          (λ q e. ground (arith, e)) (λ q e. h.bounded j d e);
    unmade = λ j l.
        put-elim (λ t. t.due ≡ none) id armed s.store j (λ q. absurd (omega (arith, q, l, lt)))
          (λ q. h.unmade j l);
    watched = λ j l.
        put-elim (λ t. is_watched t.event ≡ true) id armed s.store j (λ q. h.watched id lt)
          (λ q. h.watched j l);
    called = h.called;
  }
    where
      armed : Timer
      armed = record (s.store id) { due = some (s.now + interval) }

      named :
          (name : Bytes) (j : ℕ)
          → (j < s.made) × ((s.store j).event.name ≡ name) × (j ≢ id → IsAlive s j)
          → (j < s.made)
            × ((put id armed s.store j).event.name ≡ name)
            × (Unit {0} → HasTimer (put id armed s.store j) (s.running j))
      named name j (l, e, a) = (
        l,
        put-elim (λ t. t.event.name ≡ name) id armed s.store j
            (λ q. ap (λ k. (s.store k).event.name) (sym q) ∙ e) (λ q. e),
        λ u.
            put-elim (λ t. HasTimer t (s.running j)) id armed s.store j
              (λ q. inl (s.now + interval, refl)) a,
      )

  pub new_timer-IsSound :
      (ev : Event) (s : Watch)
      → is_watched ev ≡ true
      → IsWellFormed s
      → IsSound (λ j. j ≢ s.made) (new_timer interval ev s)
  unfolding new_timer
  new_timer-IsSound ev s w h = record {
    named = λ name j.
        set_name-elim (λ o. o ≡ some j → IsNamed name j) ev.name (some s.made) s.timers name
          (λ q e. fresh name j q (ground (arith, e))) (λ q e. old name j (h.named name j e));
    bounded = λ j d.
        put-elim (λ t. t.due ≡ some d → d ≤ s.now + interval) s.made stopped s.store j
          (λ q e. absurd (ground (arith, e))) (λ q e. h.bounded j d e);
    unmade = λ j l.
        put-elim (λ t. t.due ≡ none) s.made stopped s.store j (λ q. refl)
          (λ q. h.unmade j (omega (arith, l)));
    watched = λ j l.
        put-elim (λ t. is_watched t.event ≡ true) s.made stopped s.store j (λ q. w)
          (λ q. h.watched j (ground (arith, l, q)));
    called = h.called;
  }
    where
      stopped : Timer
      stopped = record { event = ev; due = none }

      IsNamed : Bytes → ℕ → Type 0
      IsNamed name j =
          (j < s.made + 1)
          × ((put s.made stopped s.store j).event.name ≡ name)
          × (j ≢ s.made → HasTimer (put s.made stopped s.store j) (s.running j))

      fresh : (name : Bytes) (j : ℕ) → ev.name ≡ name → s.made ≡ j → IsNamed name j
      fresh name j q e = (
        omega (arith, e),
        put-elim (λ t. t.event.name ≡ name) s.made stopped s.store j (λ _. q)
            (λ n. absurd (n (sym e))),
        λ n. absurd (n (sym e)),
      )

      old :
          (name : Bytes) (j : ℕ)
          → (j < s.made) × ((s.store j).event.name ≡ name) × (Unit {0} → IsAlive s j)
          → IsNamed name j
      old name j (l, e, a) = (
        omega (arith, l),
        put-elim (λ t. t.event.name ≡ name) s.made stopped s.store j
            (λ q. absurd (omega (arith, q, l))) (λ q. e),
        λ n.
            put-elim (λ t. HasTimer t (s.running j)) s.made stopped s.store j (λ q. absurd (n q))
              (λ q. a tt),
      )

  pub fire-IsSound :
      (id d : ℕ) (s : Watch)
      → (s.store id).due ≡ some d
      → IsWellFormed s
      → IsWellFormed (fire interval id s)
  unfolding fire
  fire-IsSound id d s e h = record {
    named = λ name j e. named name j (h.named name j e);
    bounded = λ j d.
        put-elim (λ t. t.due ≡ some d → d ≤ s.now + interval) id expired s.store j
          (λ q e. absurd (ground (arith, e))) (λ q e. h.bounded j d e);
    unmade =
        λ j l. put-elim (λ t. t.due ≡ none) id expired s.store j (λ q. refl) (λ q. h.unmade j l);
    watched = λ j l.
        put-elim (λ t. is_watched t.event ≡ true) id expired s.store j
          (λ q. ap (λ k. is_watched (s.store k).event) (sym q) ∙ h.watched j l)
          (λ q. h.watched j l);
    called =
        All-append (λ (c : ℕ × Event). is_watched c.1 ≡ true) s.calls
          ((s.now, (s.store id).event) ∷ []) h.called (h.watched id made, tt);
  }
    where
      made : id < s.made
      made = ground (arith, e, h.unmade id)

      expired : Timer
      expired = record (s.store id) { due = none }

      named :
          (name : Bytes) (j : ℕ)
          → (j < s.made) × ((s.store j).event.name ≡ name) × (Unit {0} → IsAlive s j)
          → (j < s.made)
            × ((put id expired s.store j).event.name ≡ name)
            × (Unit {0}
                → HasTimer (put id expired s.store j) (put id (s.running id + 1) s.running j))
      named name j (l, e, a) = (
        l,
        put-elim (λ t. t.event.name ≡ name) id expired s.store j
            (λ q. ap (λ k. (s.store k).event.name) (sym q) ∙ e) (λ q. e),
        λ u.
            put-elim (λ r. HasTimer (put id expired s.store j) r) id (s.running id + 1) s.running j
              (λ q. inr (omega arith))
              (λ n.
                put-elim (λ t. HasTimer t (s.running j)) id expired s.store j (λ q. absurd (n q))
                  (λ q. a tt)),
      )

  pub delete_name-IsSound :
      (id : ℕ) (s : Watch) → IsWellFormed s → IsWellFormed (delete_name interval id s)
  unfolding delete_name
  delete_name-IsSound id s h = record {
    named = λ name j.
        set_name-elim (λ o. o ≡ some j → IsNamed name j) (s.store id).event.name none s.timers name
          (λ q e. absurd (ground (arith, e))) (λ q e. old name j q (h.named name j e));
    bounded = h.bounded;
    unmade = h.unmade;
    watched = h.watched;
    called = h.called;
  }
    where
      IsNamed : Bytes → ℕ → Type 0
      IsNamed name j =
          (j < s.made)
          × ((s.store j).event.name ≡ name)
          × (Unit {0} → HasTimer (s.store j) (put id (s.running id - 1) s.running j))

      old :
          (name : Bytes) (j : ℕ)
          → (s.store id).event.name ≢ name
          → (j < s.made) × ((s.store j).event.name ≡ name) × (Unit {0} → IsAlive s j)
          → IsNamed name j
      old name j n (l, e, a) = (
        l,
        e,
        λ u.
            put-elim (λ r. HasTimer (s.store j) r) id (s.running id - 1) s.running j
              (λ q. absurd (n (ap (λ k. (s.store k).event.name) (sym q) ∙ e))) (λ q. a tt),
      )
