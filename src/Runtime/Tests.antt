-- ===== src/Runtime/Tests.antt =====
-- Runs of the router on a table of two routes, and the theorems on it at concrete requests.
use pushup.Base.{
  ℕ, suc, ◌≡◌, refl, ap, ◌∙◌, Bool, true, false, ◌&&◌, none, some, List, [], ◌∷◌, ◌==◌, ◌||◌,
  if◌then◌else◌, length, Bytes, codes, All, equal, equal_iff, count, split, join, has_prefix, arith,
}
use pushup.Runtime.Route.{
  Route, route_page, route_partial, regex_pat_from_route, new_route, add, pat_loop,
}
use pushup.Runtime.Match.{
  Find, redirect_trailing_slash, get_route_from_path, matched_routes, most_specific_match,
}
use pushup.Runtime.Params.{Params, zip_map, get_param, zip_map-get_param}
use pushup.Runtime.Respond.{
  Response, page_not_found, handled, respond, regex_of, HasAllGroups, IsRegistered, respond_total,
}
use pushup.Runtime.Prefix.{
  strip, seg_loop, segments_of_path, all_match, Compiles, matched_within,
  match_url_path_segment_prefix,
}
use pushup.Runtime.Specific.{Answers, get_route_from_path_lem}

abbrev crud_route : Bytes
crud_route = codes "/crud/:id"

abbrev crud_path : Bytes
crud_path = codes "/crud/7"

-- The responders are numbers.
abbrev table : List (Route ℕ)
table = add (add [] (codes "/") 0 route_page) crud_route 1 route_partial

-- The text that the expression of `crud_route` is, and a regexp package that knows it alone.
abbrev crud_regex : Bytes
crud_regex = codes "^/crud/([^/]+)$"

regex_of_crud : regex_of crud_route ≡ crud_regex
unfolding regex_pat_from_route pat_loop has_prefix split join
regex_of_crud = refl

abbrev find_crud : Find
find_crud re path =
    if equal re crud_regex && equal path crud_path then some (crud_path ∷ codes "7" ∷ []) else none

found_crud :
    respond find_crud table crud_path ≡ some (handled 1 true ((codes "id", codes "7") ∷ []))
unfolding respond add new_route equal get_route_from_path matched_routes regex_pat_from_route split
    has_prefix join most_specific_match zip_map
found_crud = refl

redirected_crud :
    get_route_from_path find_crud table (codes "/crud/7/")
    ≡ some (redirect_trailing_slash crud_path)
unfolding get_route_from_path add new_route equal matched_routes regex_pat_from_route split
    has_prefix join
redirected_crud = refl

no_page : respond find_crud table (codes "/crud") ≡ some page_not_found
unfolding respond add new_route equal get_route_from_path matched_routes regex_pat_from_route split
    has_prefix join
no_page = refl

one_group : count b'(' crud_regex ≡ 1
unfolding count
one_group = refl

-- This package gives the groups: it matches one expression, which has one group.
find_crud-HasAllGroups : HasAllGroups find_crud
find_crud-HasAllGroups route path ms p e =
    by_tests (equal (regex_of route) crud_regex) (equal path crud_path) refl e
  where
    by_tests :
        (r q : Bool)
        → equal (regex_of route) crud_regex ≡ r
        → (if r && q then some (crud_path ∷ codes "7" ∷ []) else none) ≡ some ms
        → length ms ≡ suc (count b'(' (regex_of route))
    by_tests true true t h =
        let c = ap (count b'(') ((equal_iff (regex_of route) crud_regex).0 t) ∙ one_group in
        ground (arith, h, c)
    by_tests true false t h = ground arith
    by_tests false q t h = ground arith

table-IsRegistered : All IsRegistered table
unfolding add new_route
table-IsRegistered = (
  ((refl, tt), refl),
  (((refl, (refl, (refl, (refl, (refl, (refl, (refl, (refl, (refl, tt))))))))), refl), tt),
)

respond_total_example : (resp : Response ℕ) × (respond find_crud table crud_path ≡ some resp)
respond_total_example =
    respond_total find_crud find_crud-HasAllGroups table crud_path table-IsRegistered (ground arith)

get_route_from_path_lem_example :
    Answers find_crud table
      (codes "/crud/7/")
      (get_route_from_path find_crud table (codes "/crud/7/"))
get_route_from_path_lem_example = get_route_from_path_lem find_crud table (codes "/crud/7/")

zip_map-get_param_example :
    (m : Params) × (zip_map (codes "a" ∷ codes "b" ∷ []) (codes "1" ∷ codes "2" ∷ []) ≡ some m)
    × (get_param m (codes "a") ≡ codes "1")
zip_map-get_param_example =
    zip_map-get_param [] (codes "a") (codes "b" ∷ []) [] (codes "1") (codes "2" ∷ []) refl
      (omega arith) ((ground arith, tt))

-- An expression matches a segment if both are the same text, or the expression is a capture's.
abbrev find_segment : Find
find_segment re seg =
    if equal re (codes "[^/]+")
    then some (seg ∷ [])
    else if equal re seg
    then some (seg ∷ [])
    else none

-- An expression with a bracket that is not closed is refused.
has_close : Bytes → Bool
has_close [] = false
has_close (c ∷ re) = c == b']' || has_close re

compiles_segment : Compiles
compiles_segment [] = true
compiles_segment (c ∷ re) = if c == b'[' then has_close re else compiles_segment re

shown_crud :
    match_url_path_segment_prefix find_segment compiles_segment crud_regex (codes "/crud/")
    ≡ some true
unfolding compiles_segment has_close all_match matched_within match_url_path_segment_prefix strip
    seg_loop segments_of_path split equal
shown_crud = refl

not_shown_crud :
    match_url_path_segment_prefix find_segment compiles_segment crud_regex (codes "/crud/7/edit")
    ≡ some false
unfolding compiles_segment has_close all_match matched_within match_url_path_segment_prefix strip
    seg_loop segments_of_path split equal
not_shown_crud = refl

-- A class that holds a slash is cut in two, and its first part is no expression.
bad_segment :
    match_url_path_segment_prefix find_segment compiles_segment (codes "^/a[b/c]d$") (codes "/x")
    ≡ none
unfolding compiles_segment has_close all_match matched_within match_url_path_segment_prefix strip
    seg_loop segments_of_path split equal
bad_segment = refl
