-- ===== src/Runtime/Respond.antt =====
-- _runtime/pushup_support.go: `Respond`, which answers a request.
use pushup.Base.{
  ℕ, suc, ◌≡◌, ◌≢◌, refl, sym, ap, ◌∙◌, Bool, true, false, ◌&&◌, ◌||◌, Option, none, some, List, [],
  ◌∷◌, ◌++◌, leb, ◌==◌, length, Bytes, All, All-middle, Lacks, count, count-append, arith,
}
use mathlib.Core.Path.{subst}
use pushup.Runtime.Route.{
  Route, RouteRole, route_page, route_partial, regex_pat_from_route, new_route,
}
use pushup.Runtime.Match.{
  Find, RouteMatch, route_not_found, redirect_trailing_slash, route_found, matches,
  get_route_from_path,
}
use pushup.Runtime.Params.{Params, zip_map, zip_map_total}
use pushup.Runtime.Slugs.{regex_pat_from_route-groups}
use pushup.Runtime.Specific.{Answers, get_route_from_path_lem}

-- ErrNotFound; a redirect with the status 301; a page's responder called with the parameters, after
-- the header of a partial was set or not. `Respond` then returns what the responder does.
pub data Response (R : Type 0) : Type 0 where
  page_not_found : Response R
  moved_permanently : Bytes → Response R
  handled : R → Bool → Params → Response R

abbrev pub is_partial : RouteRole → Bool
is_partial route_page = false
is_partial route_partial = true

module _ {R : Type 0} where
  call_responder : Route R → Option Params → Option (Response R)
  call_responder r none = none
  call_responder r (some params) = some (handled r.responder (is_partial r.role) params)

  -- `matches[1:]` is out of range where the expression does not match.
  handle : Route R → Option (List Bytes) → Option (Response R)
  unfolding call_responder
  handle r none = none
  handle r (some []) = none
  handle r (some (whole ∷ groups)) = call_responder r (zip_map r.slugs groups)

  answer : Find → Bytes → Option (RouteMatch R) → Option (Response R)
  unfolding handle
  answer find path none = none
  answer find path (some route_not_found) = some page_not_found
  answer find path (some (redirect_trailing_slash p)) = some (moved_permanently p)
  answer find path (some (route_found r)) = handle r (find r.regex path)

  -- `none` is a panic.
  unfoldable pub respond : Find → List (Route R) → Bytes → Option (Response R)
  unfolding answer
  respond find routes path = answer find path (get_route_from_path find routes path)

-- A byte of a route that opens no group, class, repetition or escape in a regular expression.
abbrev pub is_plain : ℕ → Bool
is_plain c =
    (leb b'a' c && leb c b'z')
    || (leb b'A' c && leb c b'Z')
    || (leb b'-' c && leb c b':')
    || c == b'_'
    || c == b'~'

abbrev pub IsPlain : Bytes → Type 0
IsPlain s = All (λ c. is_plain c ≡ true) s

abbrev pub regex_of : Bytes → Bytes
regex_of route = b'^' ∷ ((regex_pat_from_route route).pat ++ b'$' ∷ [])

-- FindStringSubmatch returns the whole match and then a text for each group of the expression,
-- here for the expressions of plain routes, whose groups are their opening brackets.
abbrev pub HasAllGroups : Find → Type 0
HasAllGroups find =
    (route path : Bytes) (ms : List Bytes)
    → IsPlain route
    → find (regex_of route) path ≡ some ms
    → length ms ≡ suc (count b'(' (regex_of route))

module _ {R : Type 0} where
  -- A route as newRoute makes it, of a plain text.
  abbrev pub IsRegistered : Route R → Type 0
  IsRegistered r = IsPlain r.path × (r ≡ new_route r.path r.responder r.role)

IsPlain-Lacks : (s : Bytes) → IsPlain s → Lacks b'(' s
IsPlain-Lacks [] h = tt
IsPlain-Lacks (c ∷ s) (p, h) = (ground (arith, p), IsPlain-Lacks s h)

count-regex_of :
    (route : Bytes)
    → IsPlain route
    → count b'(' (regex_of route) ≡ length (regex_pat_from_route route).slugs
unfolding count
count-regex_of route h = omega (
  arith,
  count-append b'(' (regex_pat_from_route route).pat (b'$' ∷ []),
  regex_pat_from_route-groups route (IsPlain-Lacks route h),
)

module _ {R : Type 0} (find : Find) (groups : HasAllGroups find) where
  abbrev IsHandled : Option (Response R) → Type 0
  IsHandled o = (resp : Response R) × (o ≡ some resp)

  handle-new_route :
      (path route : Bytes) (h : R) (role : RouteRole) (o : Option (List Bytes))
      → IsPlain route
      → find (regex_of route) path ≡ o
      → o ≢ none
      → IsHandled (handle (new_route route h role) o)
  unfolding handle new_route call_responder
  handle-new_route path route h role none p e n = absurd (n refl)
  handle-new_route path route h role (some ms) p e n =
      by_groups ms (groups route path ms p e ∙ ap suc (count-regex_of route p))
    where
      by_groups :
          (ms : List Bytes)
          → length ms ≡ suc (length (regex_pat_from_route route).slugs)
          → IsHandled (handle (new_route route h role) (some ms))
      by_groups [] l = ground arith
      by_groups (whole ∷ gs) l =
          let (z, q) = zip_map_total (regex_pat_from_route route).slugs gs (omega (arith, l)) in
          (handled h (is_partial role) z, ap (call_responder (new_route route h role)) q)

  handle-IsRegistered :
      (path : Bytes) (r : Route R)
      → IsRegistered r
      → matches find r path ≡ true
      → IsHandled (handle r (find r.regex path))
  unfolding new_route
  handle-IsRegistered path r (p, q) m =
      subst (λ s. IsHandled (handle s (find s.regex path))) (sym q)
        (handle-new_route path r.path r.responder r.role (find (regex_of r.path) path) p refl
          (λ z. ground (arith, m, ap (λ (s : Route R). find s.regex path) q ∙ z)))

  answer_total :
      (routes : List (Route R)) (path : Bytes) (o : Option (RouteMatch R))
      → All IsRegistered routes
      → path ≢ []
      → Answers find routes path o
      → IsHandled (answer find path o)
  unfolding answer
  answer_total routes path none reg n (e, u) = absurd (n e)
  answer_total routes path (some route_not_found) reg n a = (page_not_found, refl)
  answer_total routes path (some (redirect_trailing_slash p)) reg n a = (moved_permanently p, refl)
  answer_total routes path (some (route_found r)) reg n (b, c, e, m, _, _) =
      handle-IsRegistered path r (All-middle IsRegistered b r c (subst (All IsRegistered) e reg)) m

  -- For a table whose routes were all made by newRoute from plain texts, a regexp package whose
  -- FindStringSubmatch gives a text for each group of such a route's expression, and a path that is
  -- not empty, Respond meets no index out of range: it returns ErrNotFound, redirects, or calls the
  -- responder of a route.
  pub respond_total :
      (routes : List (Route R)) (path : Bytes)
      → All IsRegistered routes
      → path ≢ []
      → (resp : Response R) × (respond find routes path ≡ some resp)
  unfolding respond
  respond_total routes path reg n =
      answer_total routes path (get_route_from_path find routes path) reg n
        (get_route_from_path_lem find routes path)
