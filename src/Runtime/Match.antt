-- ===== src/Runtime/Match.antt =====
-- _runtime/pushup_support.go: `getRouteFromPath` and `mostSpecificMatch`.
use pushup.Base.{
  ℕ, ◌-◌, Bool, true, false, Option, none, some, List, [], ◌∷◌, ltb, ◌==◌, if◌then◌else◌, length,
  take, get_elem?, Bytes,
}
use pushup.Runtime.Route.{Route}

-- What `regexp.Regexp` does here: `FindStringSubmatch` of a compiled expression on a text, nil where
-- it does not match.
abbrev pub Find : Type 0
Find = Bytes → Bytes → Option (List Bytes)

pub data RouteMatch (R : Type 0) : Type 0 where
  route_not_found : RouteMatch R
  redirect_trailing_slash : Bytes → RouteMatch R
  route_found : Route R → RouteMatch R

module _ {R : Type 0} where
  -- The loop of `mostSpecificMatch`: a later route is taken if it has fewer slugs.
  unfoldable pub most_loop : Route R → List (Route R) → Route R
  most_loop most [] = most
  most_loop most (r ∷ rs) =
      most_loop (if ltb (length r.slugs) (length most.slugs) then r else most) rs

  -- The caller's list is not empty.
  unfoldable pub most_specific_match : Route R → List (Route R) → Route R
  unfolding most_loop
  most_specific_match first [] = first
  most_specific_match first (r ∷ rs) = most_loop first (r ∷ rs)

module _ {R : Type 0} (find : Find) where
  -- `r.regex.MatchString(path)`
  abbrev pub matches : Route R → Bytes → Bool
  matches r path = elim (find r.regex path) [ none ↦ false | some _ ↦ true ]

  unfoldable pub matched_routes : List (Route R) → Bytes → List (Route R)
  matched_routes [] path = []
  matched_routes (r ∷ rs) path =
      let rest = matched_routes rs path in if matches r path then r ∷ rest else rest

  unfoldable pub any_matches : List (Route R) → Bytes → Bool
  any_matches [] path = false
  any_matches (r ∷ rs) path =
      let rest = any_matches rs path in if matches r path then true else rest

  -- `path[len(path)-1] == '/'` and the loop behind it, at a path with the last byte `last`.
  unfoldable pub without_slash : List (Route R) → Bytes → Option ℕ → Option (RouteMatch R)
  unfolding any_matches
  without_slash routes path none = none
  without_slash routes path (some last) =
      let less_slash = take (length path - 1) path in
      if last == b'/'
      then (if any_matches routes less_slash
          then some (redirect_trailing_slash less_slash)
          else some route_not_found)
      else some route_not_found

  unfoldable pub choose : List (Route R) → List (Route R) → Bytes → Option (RouteMatch R)
  unfolding without_slash
  choose routes [] path = without_slash routes path (get_elem? path (length path - 1))
  choose routes (r ∷ rs) path = some (route_found (most_specific_match r rs))

  -- `none` is the index out of range at an empty path that no route matches.
  unfoldable pub get_route_from_path : List (Route R) → Bytes → Option (RouteMatch R)
  unfolding choose
  get_route_from_path routes path = choose routes (matched_routes routes path) path
