-- ===== src/Runtime/Prefix.antt =====
-- _runtime/pushup_support.go: `matchURLPathSegmentPrefix`, and the two callers that ask where a
-- partial is to be shown.
use pushup.Base.{
  ℕ, ◌-◌, Bool, true, false, not, Option, none, some, List, [], ◌∷◌, ◌++◌, leb, ◌==◌, if◌then◌else◌,
  length, take, get_elem?, Bytes, equal, split,
}
use pushup.Runtime.Route.{Route}
use pushup.Runtime.Match.{
  Find, RouteMatch, route_not_found, redirect_trailing_slash, route_found, get_route_from_path,
}

-- The byte `^` at the start and `$` at the end are dropped. `none` is an index out of range.
unfoldable pub strip_start : Bytes → Option Bytes
strip_start [] = none
strip_start (c ∷ res) = some (if c == b'^' then res else c ∷ res)

unfoldable pub strip_end : Bytes → Option ℕ → Option Bytes
strip_end res none = none
strip_end res (some last) = some (if last == b'$' then take (length res - 1) res else res)

unfoldable pub strip_both : Option Bytes → Option Bytes
unfolding strip_end
strip_both none = none
strip_both (some res) = strip_end res (get_elem? res (length res - 1))

unfoldable pub strip : Bytes → Option Bytes
unfolding strip_start strip_both
strip res = strip_both (strip_start res)

-- `if len(accum) > 0`
abbrev pub flush : Bytes → List Bytes → List Bytes
flush [] segs = segs
flush (c ∷ accum) segs = segs ++ (c ∷ accum) ∷ []

-- The state machine over the text of the expression: in a capture or not, accum and reSegments. An
-- empty capture is not left at its `)`.
unfoldable pub capture_end : Bytes → Bool
capture_end [] = true
capture_end (c ∷ accum) = false

unfoldable pub seg_loop : Bool → Bytes → List Bytes → Bytes → List Bytes
unfolding capture_end
seg_loop in_capture accum segs [] = flush accum segs
seg_loop false accum segs (r ∷ res) =
    let new = seg_loop false [] (flush accum segs) res in
    let opened = seg_loop true accum segs res in
    let more = seg_loop false (accum ++ r ∷ []) segs res in
    if r == b'/' then new else if r == b'(' then opened else more
seg_loop true accum segs (r ∷ res) =
    let closed = seg_loop (capture_end accum) [] (flush accum segs) res in
    let more = seg_loop true (accum ++ r ∷ []) segs res in if r == b')' then closed else more

-- strings.Trim at one byte.
trim_left : ℕ → Bytes → Bytes
trim_left b [] = []
trim_left b (c ∷ s) = let rest = trim_left b s in if c == b then rest else c ∷ s

cons_unless : ℕ → ℕ → Bytes → Bytes
cons_unless b c [] = if c == b then [] else c ∷ []
cons_unless b c (d ∷ s) = c ∷ d ∷ s

trim_right : ℕ → Bytes → Bytes
unfolding cons_unless
trim_right b [] = []
trim_right b (c ∷ s) = cons_unless b c (trim_right b s)

path_segments : Bytes → List Bytes
path_segments [] = []
path_segments (c ∷ s) = split b'/' (c ∷ s)

unfoldable pub segments_of_path : Bytes → List Bytes
unfolding trim_left trim_right path_segments
segments_of_path s = path_segments (trim_right b'/' (trim_left b'/' s))

abbrev pub is_some : Option (List Bytes) → Bool
is_some none = false
is_some (some ms) = true

-- Whether `regexp.MustCompile` accepts an expression; it panics otherwise.
abbrev pub Compiles : Type 0
Compiles = Bytes → Bool

-- The loop over the segments that both have; `none` is a panic.
unfoldable pub all_match : Find → Compiles → List Bytes → List Bytes → Option Bool
all_match find compiles [] segs = some true
all_match find compiles (reseg ∷ resegs) [] = some true
all_match find compiles (reseg ∷ resegs) (seg ∷ segs) =
    let rest = all_match find compiles resegs segs in
    if compiles reseg then (if is_some (find reseg seg) then rest else some false) else none

unfoldable pub matched_within : ℕ → ℕ → Option Bool → Option Bool
matched_within segs resegs none = none
matched_within segs resegs (some false) = some false
matched_within segs resegs (some true) = some (leb segs resegs)

unfoldable pub match_segments : Find → Compiles → List Bytes → Option Bytes → Option Bool
unfolding all_match matched_within
match_segments find compiles segs none = none
match_segments find compiles segs (some res) =
    let resegs = seg_loop false [] [] res in
    matched_within (length segs) (length resegs) (all_match find compiles resegs segs)

unfoldable pub match_url_path_segment_prefix : Find → Compiles → Bytes → Bytes → Option Bool
unfolding match_segments
match_url_path_segment_prefix find compiles re s =
    match_segments find compiles (segments_of_path s) (strip re)

partial_path : Bytes → Bytes → Option ℕ → Option Bytes
partial_path main_route path none = none
partial_path main_route path (some last) =
    some (if last == b'/' then main_route ++ path else main_route ++ b'/' ∷ path)

module _ {R : Type 0} where
  differs : Bytes → Option (RouteMatch R) → Option Bool
  differs main_route (some (route_found r)) = some (not (equal r.path main_route))
  differs main_route (some route_not_found) = none
  differs main_route (some (redirect_trailing_slash p)) = none
  differs main_route none = none

  -- `none` is a panic, also where the path is not that of a route.
  unfoldable pub is_partial_route : Find → List (Route R) → Bytes → Bytes → Option Bool
  unfolding differs
  is_partial_route find routes main_route request_path =
      differs main_route (get_route_from_path find routes request_path)

  shows : Find → Compiles → Bytes → Option (RouteMatch R) → Option Bool
  shows find compiles request_path (some (route_found r)) =
      match_url_path_segment_prefix find compiles r.regex request_path
  shows find compiles request_path (some route_not_found) = none
  shows find compiles request_path (some (redirect_trailing_slash p)) = none
  shows find compiles request_path none = none

  shows_at : Find → Compiles → List (Route R) → Bytes → Option Bytes → Option Bool
  unfolding shows
  shows_at find compiles routes request_path none = none
  shows_at find compiles routes request_path (some path) =
      shows find compiles request_path (get_route_from_path find routes path)

  unfoldable pub display_partial_here :
      Find → Compiles → List (Route R) → Bytes → Bytes → Bytes → Option Bool
  unfolding shows_at partial_path
  display_partial_here find compiles routes main_route path request_path =
      shows_at find compiles routes request_path
        (partial_path main_route path (get_elem? main_route (length main_route - 1)))
