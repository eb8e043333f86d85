-- ===== src/Project/Patterns.antt =====
-- codegen.go and _runtime/pushup_support.go: the expression and the slugs that the runtime makes of the
-- route of a page.
use pushup.Base.{
  ℕ, zero, suc, ◌-◌, ◌≡◌, refl, sym, ap, ◌∙◌, Bool, true, false, ◌&&◌, ◌||◌, List, [], ◌∷◌, ◌++◌,
  map, ◌==◌, if◌then◌else◌, length, take, drop, Bytes, codes, All, Lacks, equal, equal_iff,
  has_prefix, has_suffix, trim_suffix, ext, split, join, arith, append_assoc, append-nil,
}
use pushup.Runtime.Route.{RoutePat, capture, is_slug, pat_loop, regex_pat_from_route}
use pushup.Runtime.Resegments.{piece, pat_loop-join}
use pushup.Project.Split.{split-append, split-join}
use pushup.Project.Clean.{IsName}
use pushup.Project.Below.{in_dirs}
use pushup.Project.Files.{stem, with_colon, route_for_page}
use pushup.Project.Pages.{page_route, route_for_page-in_dirs}

-- A name of a directory or a file that stands for any segment of a path.
abbrev pub is_param : Bytes → Bool
is_param d = has_prefix d (codes "$") || has_prefix d (codes ":")

unfoldable pub param_names : List Bytes → List Bytes
param_names [] = []
param_names (d ∷ ds) = let rest = param_names ds in if is_param d then drop 1 d ∷ rest else rest

abbrev pub segment_pattern : Bytes → Bytes
segment_pattern d = if is_param d then capture else d

-- The expression of a page's route, by its directories and its name.
unfoldable pub page_pattern : List Bytes → Bytes → Bytes
page_pattern [] name = if equal name (codes "index") then [] else segment_pattern name
page_pattern (d ∷ dirs) name = segment_pattern d ++ b'/' ∷ page_pattern dirs name

route_parts : List Bytes → Bytes → List Bytes
route_parts [] name = (if equal name (codes "index") then [] else with_colon name) ∷ []
route_parts (d ∷ dirs) name = with_colon d ∷ route_parts dirs name

join-route_parts :
    (dirs : List Bytes) (name : Bytes) → join b'/' (route_parts dirs name) ≡ page_route dirs name
unfolding route_parts page_route join
join-route_parts [] name = refl
join-route_parts (d ∷ []) name = refl
join-route_parts (d ∷ e ∷ dirs) name =
    ap (λ s. with_colon d ++ b'/' ∷ s) (join-route_parts (e ∷ dirs) name)

with_colon-Lacks : (d : Bytes) → Lacks b'/' d → Lacks b'/' (with_colon d)
unfolding with_colon has_prefix
with_colon-Lacks [] h = tt
with_colon-Lacks (c ∷ d) (n, h) = by_test (c == b'$' && true)
  where
    by_test : (t : Bool) → Lacks b'/' (if t then b':' ∷ d else c ∷ d)
    by_test true = (ground arith, h)
    by_test false = (n, h)

route_parts-Lacks :
    (dirs : List Bytes) (name : Bytes)
    → All IsName dirs
    → Lacks b'/' name
    → All (Lacks b'/') (route_parts dirs name)
unfolding route_parts
route_parts-Lacks [] name h k = (by_test (equal name (codes "index")), tt)
  where
    by_test : (t : Bool) → Lacks b'/' (if t then [] else with_colon name)
    by_test true = tt
    by_test false = with_colon-Lacks name k
route_parts-Lacks (d ∷ dirs) name ((l, _, _, _), h) k =
    (with_colon-Lacks d l, route_parts-Lacks dirs name h k)

split-page_route :
    (dirs : List Bytes) (name : Bytes)
    → All IsName dirs
    → Lacks b'/' name
    → split b'/' (b'/' ∷ page_route dirs name) ≡ [] ∷ route_parts dirs name
unfolding route_parts split
split-page_route dirs name h k =
    ap (λ s. split b'/' (b'/' ∷ s)) (sym (join-route_parts dirs name))
    ∙ split-append b'/' [] (join b'/' (route_parts dirs name))
    ∙ ap (◌∷◌ []) (again dirs (route_parts-Lacks dirs name h k))
  where
    again :
        (dirs : List Bytes)
        → All (Lacks b'/') (route_parts dirs name)
        → split b'/' (join b'/' (route_parts dirs name)) ≡ route_parts dirs name
    again [] l = split-join b'/' (if equal name (codes "index") then [] else with_colon name) [] l
    again (d ∷ dirs) l = split-join b'/' (with_colon d) (route_parts dirs name) l

-- What the runtime makes of a name.
piece-with_colon : (d : Bytes) → piece (with_colon d) ≡ segment_pattern d
unfolding with_colon has_prefix
piece-with_colon [] = refl
piece-with_colon (c ∷ d) = by_test (c == b'$' && true)
  where
    by_test :
        (t : Bool)
        → piece (if t then b':' ∷ d else c ∷ d)
          ≡ (if t || (c == b':' && true) then capture else c ∷ d)
    by_test true = refl
    by_test false = refl

map-route_parts :
    (dirs : List Bytes) (name : Bytes)
    → join b'/' (map piece (route_parts dirs name)) ≡ page_pattern dirs name
unfolding route_parts page_pattern join has_prefix
map-route_parts [] name = by_test (equal name (codes "index"))
  where
    by_test :
        (t : Bool)
        → piece (if t then [] else with_colon name) ≡ (if t then [] else segment_pattern name)
    by_test true = refl
    by_test false = piece-with_colon name
map-route_parts (d ∷ []) name =
    ap (λ s. s ++ b'/' ∷ join b'/' (map piece (route_parts [] name))) (piece-with_colon d)
    ∙ ap (λ s. segment_pattern d ++ b'/' ∷ s) (map-route_parts [] name)
map-route_parts (d ∷ e ∷ dirs) name =
    ap (λ s. s ++ b'/' ∷ join b'/' (map piece (route_parts (e ∷ dirs) name))) (piece-with_colon d)
    ∙ ap (λ s. segment_pattern d ++ b'/' ∷ s) (map-route_parts (e ∷ dirs) name)

slug_of : Bytes → List Bytes
slug_of d = if is_slug d then drop 1 d ∷ [] else []

slugs_of : List Bytes → List Bytes
slugs_of [] = []
slugs_of (d ∷ ds) = slug_of d ++ slugs_of ds

pat_loop-slugs :
    (subs out slugs : List Bytes) → (pat_loop subs out slugs).slugs ≡ slugs ++ slugs_of subs
unfolding pat_loop slugs_of slug_of
pat_loop-slugs [] out slugs = sym (append-nil slugs)
pat_loop-slugs (sub ∷ subs) out slugs =
    by_test (is_slug sub) (pat_loop-slugs subs (out ++ capture ∷ []) (slugs ++ drop 1 sub ∷ []))
      (pat_loop-slugs subs (out ++ sub ∷ []) slugs)
  where
    by_test :
        (t : Bool)
        → (pat_loop subs (out ++ capture ∷ []) (slugs ++ drop 1 sub ∷ [])).slugs
          ≡ (slugs ++ drop 1 sub ∷ []) ++ slugs_of subs
        → (pat_loop subs (out ++ sub ∷ []) slugs).slugs ≡ slugs ++ slugs_of subs
        → (if t
            then pat_loop subs (out ++ capture ∷ []) (slugs ++ drop 1 sub ∷ [])
            else pat_loop subs (out ++ sub ∷ []) slugs).slugs
          ≡ slugs ++ ((if t then drop 1 sub ∷ [] else []) ++ slugs_of subs)
    by_test true slug plain = slug ∙ append_assoc slugs (drop 1 sub ∷ []) (slugs_of subs)
    by_test false slug plain = plain

slug_of-with_colon :
    (d : Bytes) → slug_of (with_colon d) ≡ (if is_param d then drop 1 d ∷ [] else [])
unfolding with_colon has_prefix slug_of
slug_of-with_colon [] = refl
slug_of-with_colon (c ∷ d) = by_test (c == b'$' && true)
  where
    by_test :
        (t : Bool)
        → (let e = if t then b':' ∷ d else c ∷ d in if is_slug e then drop 1 e ∷ [] else [])
          ≡ (if t || (c == b':' && true) then d ∷ [] else [])
    by_test true = refl
    by_test false = refl

param_names-cons :
    (d : Bytes) (ds : List Bytes)
    → (if is_param d then drop 1 d ∷ [] else []) ++ param_names ds ≡ param_names (d ∷ ds)
unfolding param_names
param_names-cons d ds = by_test (is_param d)
  where
    by_test :
        (t : Bool)
        → (if t then drop 1 d ∷ [] else []) ++ param_names ds
          ≡ (if t then drop 1 d ∷ param_names ds else param_names ds)
    by_test true = refl
    by_test false = refl

slugs_of-route_parts :
    (dirs : List Bytes) (name : Bytes)
    → slugs_of (route_parts dirs name) ≡ param_names (dirs ++ name ∷ [])
unfolding route_parts slugs_of slug_of param_names has_prefix
slugs_of-route_parts [] name = by_test (equal name (codes "index")) refl
  where
    by_test :
        (t : Bool)
        → equal name (codes "index") ≡ t
        → slug_of (if t then [] else with_colon name) ++ [] ≡ param_names (name ∷ [])
    by_test true e = rw ((equal_iff name (codes "index")).0 e) refl
    by_test false e = ap (λ s. s ++ []) (slug_of-with_colon name) ∙ param_names-cons name []
slugs_of-route_parts (d ∷ dirs) name =
    ap (λ s. s ++ slugs_of (route_parts dirs name)) (slug_of-with_colon d)
    ∙ ap (λ s. (if is_param d then drop 1 d ∷ [] else []) ++ s) (slugs_of-route_parts dirs name)
    ∙ param_names-cons d (dirs ++ name ∷ [])

take-Lacks : (n : ℕ) (s : Bytes) → Lacks b'/' s → Lacks b'/' (take n s)
take-Lacks zero s h = tt
take-Lacks (suc n) [] h = tt
take-Lacks (suc n) (c ∷ s) (m, h) = (m, take-Lacks n s h)

stem-Lacks : (file : Bytes) → Lacks b'/' file → Lacks b'/' (stem file)
unfolding stem trim_suffix
stem-Lacks file h = by_test (has_suffix file (ext file))
  where
    by_test :
        (t : Bool) → Lacks b'/' (if t then take (length file - length (ext file)) file else file)
    by_test true = take-Lacks (length file - length (ext file)) file h
    by_test false = h

RoutePat-eq :
    (r : RoutePat) (p : Bytes) (ss : List Bytes)
    → r.pat ≡ p
    → r.slugs ≡ ss
    → r ≡ record { pat = p; slugs = ss }
RoutePat-eq r p ss e f = λ i. record { pat = e i; slugs = f i }

-- The runtime's expression for the route of a page, and the names of its slugs, by the names of the
-- directories and of the file that the page stands in: a name that starts with `$` or `:` becomes a
-- group that takes one segment, and the names that do, less that byte, are the slugs, in their order.
pub regex_pat_from_route-route_for_page :
    (dirs : List Bytes) (file : Bytes)
    → All IsName dirs
    → IsName file
    → regex_pat_from_route (route_for_page (in_dirs dirs file)) ≡ record {
      pat = b'/' ∷ page_pattern dirs (stem file);
      slugs = param_names (dirs ++ stem file ∷ []);
    }
unfolding regex_pat_from_route slugs_of slug_of has_prefix join route_parts
regex_pat_from_route-route_for_page dirs file h k =
    let name = stem file in
    let parts = [] ∷ route_parts dirs name in
    ap regex_pat_from_route (route_for_page-in_dirs dirs file h k)
    ∙ ap (λ subs. pat_loop subs [] []) (split-page_route dirs name h (stem-Lacks file k.0))
    ∙ RoutePat-eq (pat_loop parts [] []) (b'/' ∷ page_pattern dirs name)
        (param_names (dirs ++ name ∷ []))
        (pat_loop-join parts [] [] ∙ root dirs (map-route_parts dirs name))
        (pat_loop-slugs parts [] [] ∙ slugs_of-route_parts dirs name)
  where
    root :
        (dirs : List Bytes)
        → join b'/' (map piece (route_parts dirs (stem file))) ≡ page_pattern dirs (stem file)
        → join b'/' ([] ∷ map piece (route_parts dirs (stem file)))
          ≡ b'/' ∷ page_pattern dirs (stem file)
    root [] e = ap (◌∷◌ b'/') e
    root (d ∷ dirs) e = ap (◌∷◌ b'/') e
