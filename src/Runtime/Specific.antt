-- ===== src/Runtime/Specific.antt =====
-- _runtime/pushup_support.go: `getRouteFromPath`, on all its branches.
use pushup.Base.{
  ==_iff, get_elem?-lt, ltb→lt, get_elem?-last, get_elem?-none, length-zero, ℕ, ◌-◌, ◌≤◌, ◌<◌, ◌≡◌,
  ◌≢◌, ◌⊎◌, inl, inr, refl, sym, ap, ◌∙◌, Bool, true, false, Option, none, some, List, [], ◌∷◌,
  ◌++◌, ltb, ◌==◌, if◌then◌else◌, length, take, get_elem?, Bytes, All, All-append, append-nil,
  append_assoc, arith,
}
use mathlib.Core.Path.{subst}
use pushup.Runtime.Route.{Route}
use pushup.Runtime.Match.{
  Find, RouteMatch, route_not_found, redirect_trailing_slash, route_found, matches, matched_routes,
  most_loop, most_specific_match, any_matches, without_slash, choose, get_route_from_path,
}
use pushup.Runtime.Matched.{
  Unmatched, MatchesHave, matched_routes-Unmatched, matched_routes-MatchesHave,
  matched_routes-Parts,
}

module _ {R : Type 0} where
  -- The route has fewer slugs than each of the first list, and no more than any of the second.
  abbrev pub IsLeast : List (Route R) → Route R → List (Route R) → Type 0
  IsLeast before r after =
      All (λ s. length r.slugs < length s.slugs) before
      × All (λ s. length r.slugs ≤ length s.slugs) after

  abbrev Found : List (Route R) → Route R → Type 0
  Found routes r =
      (b : List (Route R)) × (a : List (Route R)) × (routes ≡ b ++ r ∷ a) × IsLeast b r a

  All-weaken :
      (P Q : Route R → Type 0)
      → ((x : Route R) → P x → Q x)
      → (xs : List (Route R)) → All P xs
      → All Q xs
  All-weaken P Q k [] h = tt
  All-weaken P Q k (x ∷ xs) (p, h) = (k x p, All-weaken P Q k xs h)

  -- A route with fewer slugs than the least route so far is the least of all up to it.
  IsLeast-lower :
      (b : List (Route R)) (most : Route R) (a : List (Route R)) (r : Route R)
      → IsLeast b most a
      → length r.slugs < length most.slugs
      → IsLeast (b ++ most ∷ a) r []
  IsLeast-lower b most a r (hb, ha) lower = (
    All-append (λ s. length r.slugs < length s.slugs) b (most ∷ a)
        (All-weaken (λ s. length most.slugs < length s.slugs) (λ s. length r.slugs < length s.slugs)
          (λ s h. omega (arith, h, lower)) b hb)
        (
          lower,
          All-weaken (λ s. length most.slugs ≤ length s.slugs)
              (λ s. length r.slugs < length s.slugs) (λ s h. omega (arith, h, lower)) a ha,
        ),
    tt,
  )

  -- The loop at `most`, the least of the routes `b ++ most ∷ a` that it has passed.
  loop_lem :
      (b : List (Route R)) (most : Route R) (a rest : List (Route R))
      → IsLeast b most a
      → Found (b ++ most ∷ (a ++ rest)) (most_loop most rest)
  unfolding most_loop
  loop_lem b most a [] h = (b, a, ap (λ l. b ++ most ∷ l) (append-nil a), h)
  loop_lem b most a (r ∷ rs) h =
      by_test (ltb (length r.slugs) (length most.slugs)) refl (loop_lem (b ++ most ∷ a) r [] rs)
        (loop_lem b most (a ++ r ∷ []) rs)
    where
      by_test :
          (t : Bool)
          → ltb (length r.slugs) (length most.slugs) ≡ t
          → (IsLeast (b ++ most ∷ a) r [] → Found ((b ++ most ∷ a) ++ r ∷ rs) (most_loop r rs))
          → (IsLeast b most (a ++ r ∷ [])
              → Found (b ++ most ∷ ((a ++ r ∷ []) ++ rs)) (most_loop most rs))
          → Found (b ++ most ∷ (a ++ r ∷ rs)) (most_loop (if t then r else most) rs)
      by_test true e lower higher =
          let (b', a', q, l) =
            lower (IsLeast-lower b most a r h (ltb→lt (length r.slugs) (length most.slugs) e)) in
          (b', a', sym (append_assoc b (most ∷ a) (r ∷ rs)) ∙ q, l)
      by_test false e lower higher =
          let kept =
            All-append (λ s. length most.slugs ≤ length s.slugs) a (r ∷ []) h.1
              (ground (arith, e), tt) in
          let (b', a', q, l) = higher (h.0, kept) in
          (b', a', ap (λ l. b ++ most ∷ l) (sym (append_assoc a (r ∷ []) rs)) ∙ q, l)

  most_specific_match-Found :
      (r : Route R) (rs : List (Route R)) → Found (r ∷ rs) (most_specific_match r rs)
  unfolding most_specific_match most_loop
  most_specific_match-Found r [] = ([], [], refl, (tt, tt))
  most_specific_match-Found r (s ∷ rs) = loop_lem [] r [] (s ∷ rs) (tt, tt)

module _ {R : Type 0} (find : Find) where
  -- What each answer says of the table and the path.
  abbrev pub Answers : List (Route R) → Bytes → Option (RouteMatch R) → Type 0
  Answers routes path none = (path ≡ []) × Unmatched find path routes
  Answers routes path (some route_not_found) =
      Unmatched find path routes
      × ((get_elem? path (length path - 1) ≢ some b'/')
          ⊎ Unmatched find (take (length path - 1) path) routes)
  Answers routes path (some (redirect_trailing_slash p)) =
      Unmatched find path routes × (path ≡ p ++ b'/' ∷ []) × (any_matches find routes p ≡ true)
  Answers routes path (some (route_found r)) =
      (b : List (Route R)) × (a : List (Route R)) × (routes ≡ b ++ r ∷ a)
      × (matches find r path ≡ true)
      × MatchesHave find path (λ s. length r.slugs < length s.slugs) b
      × MatchesHave find path (λ s. length r.slugs ≤ length s.slugs) a

  any_matches-Unmatched :
      (routes : List (Route R)) (path : Bytes)
      → any_matches find routes path ≡ false
      → Unmatched find path routes
  unfolding any_matches
  any_matches-Unmatched [] path h = tt
  any_matches-Unmatched (r ∷ rs) path h = ground (arith, h, any_matches-Unmatched rs path)

  without_slash-Answers :
      (routes : List (Route R)) (path : Bytes) (last : Option ℕ)
      → get_elem? path (length path - 1) ≡ last
      → Unmatched find path routes
      → Answers routes path (without_slash find routes path last)
  unfolding without_slash
  without_slash-Answers routes path none e u =
      (length-zero path (omega (arith, get_elem?-none (length path - 1) path e)), u)
  without_slash-Answers routes path (some c) e u =
      by_test (c == b'/') refl (any_matches find routes (take (length path - 1) path)) refl
    where
      by_test :
          (t : Bool)
          → (c == b'/') ≡ t
          → (m : Bool) → any_matches find routes (take (length path - 1) path) ≡ m
          → Answers routes path (
              if t
              then (if m
                  then some (redirect_trailing_slash (take (length path - 1) path))
                  else some route_not_found)
              else some route_not_found)
      by_test true t true m = (
        u,
        get_elem?-last (length path - 1) path b'/'
            (omega (arith, get_elem?-lt (length path - 1) path c e))
            (e ∙ ap some ((==_iff c b'/').0 t)),
        m,
      )
      by_test true t false m =
          (u, inr (any_matches-Unmatched routes (take (length path - 1) path) m))
      by_test false t m k = (u, inl (λ q. ground (arith, t, sym e ∙ q)))

  choose-Answers :
      (routes : List (Route R)) (path : Bytes) (ms : List (Route R))
      → matched_routes find routes path ≡ ms
      → Answers routes path (choose find routes ms path)
  unfolding choose
  choose-Answers routes path [] e =
      without_slash-Answers routes path (get_elem? path (length path - 1)) refl
        (matched_routes-Unmatched find path routes e)
  choose-Answers routes path (m ∷ ms) e =
      let w = most_specific_match m ms in
      let (b, a, q, least) = most_specific_match-Found m ms in
      let (b', a', q', m', hb, ha) = matched_routes-Parts find path routes b w a (e ∙ q) in
      (
        b',
        a',
        q',
        m',
        matched_routes-MatchesHave find path (λ s. length w.slugs < length s.slugs) b'
            (subst (All (λ s. length w.slugs < length s.slugs)) (sym hb) least.0),
        matched_routes-MatchesHave find path (λ s. length w.slugs ≤ length s.slugs) a'
            (subst (All (λ s. length w.slugs ≤ length s.slugs)) (sym ha) least.1),
      )

  -- Whatever the table, the path and the regular expressions: a page found is a route of the table
  -- that matches, with fewer slugs than each match before it and no more than any behind it; a
  -- redirect drops the slash at the end of a path that no route matches, to a path that one does;
  -- "not found" has no match for the path, nor, if it ends in a slash, for the path without; and an
  -- index out of range is met at the empty path alone, and only without a match.
  pub get_route_from_path_lem :
      (routes : List (Route R)) (path : Bytes)
      → Answers routes path (get_route_from_path find routes path)
  unfolding get_route_from_path
  get_route_from_path_lem routes path =
      choose-Answers routes path (matched_routes find routes path) refl
