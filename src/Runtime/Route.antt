-- ===== src/Runtime/Route.antt =====
-- _runtime/pushup_support.go: routes and the regular expressions that they are matched by.
use pushup.Base.{
  Bool, List, [], ◌∷◌, ◌++◌, drop, if◌then◌else◌, Bytes, codes, has_prefix, split, join,
}

pub data RouteRole : Type 0 where
  route_page route_partial : RouteRole

pub record RoutePat : Type 0 where
  pub pat : Bytes
  pub slugs : List Bytes

-- The text of a slug's capture group.
abbrev pub capture : Bytes
capture = codes "([^/]+)"

abbrev pub is_slug : Bytes → Bool
is_slug sub = has_prefix sub (codes ":")

-- The loop of `regexPatFromRoute`.
unfoldable pub pat_loop : List Bytes → List Bytes → List Bytes → RoutePat
pat_loop [] out slugs = record { pat = join b'/' out; slugs = slugs }
pat_loop (sub ∷ subs) out slugs =
    let slug = pat_loop subs (out ++ capture ∷ []) (slugs ++ drop 1 sub ∷ []) in
    let plain = pat_loop subs (out ++ sub ∷ []) slugs in if is_slug sub then slug else plain

unfoldable pub regex_pat_from_route : Bytes → RoutePat
unfolding pat_loop
regex_pat_from_route route = pat_loop (split b'/' route) [] []

-- A responder is a value of the type `R`; a compiled expression is the text that it compiles.
pub record Route (R : Type 0) : Type 0 where
  pub path : Bytes
  pub regex : Bytes
  pub slugs : List Bytes
  pub responder : R
  pub role : RouteRole

module _ {R : Type 0} where
  unfoldable pub new_route : Bytes → R → RouteRole → Route R
  new_route path responder role =
      let p = regex_pat_from_route path in
      record {
        path = path;
        regex = b'^' ∷ (p.pat ++ b'$' ∷ []);
        slugs = p.slugs;
        responder = responder;
        role = role;
      }

  -- `routeList.add`
  unfoldable pub add : List (Route R) → Bytes → R → RouteRole → List (Route R)
  add routes path responder role = routes ++ new_route path responder role ∷ []
