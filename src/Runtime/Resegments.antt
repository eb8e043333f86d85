-- ===== src/Runtime/Resegments.antt =====
-- _runtime/pushup_support.go: `matchURLPathSegmentPrefix` on the expression of a route.
use pushup.Base.{
  ◌≡◌, ◌≢◌, refl, sym, ap, ◌∙◌, Bool, true, false, List, [], ◌∷◌, ◌++◌, if◌then◌else◌, drop, Bytes,
  codes, All, join, map, append-nil, append_assoc,
}
use pushup.Runtime.Route.{capture, is_slug, pat_loop}
use pushup.Runtime.Prefix.{capture_end, flush, seg_loop}

-- What newRoute makes of a part of a route.
abbrev pub piece : Bytes → Bytes
piece sub = if is_slug sub then capture else sub

pub pat_loop-join :
    (subs out slugs : List Bytes)
    → (pat_loop subs out slugs).pat ≡ join b'/' (out ++ map piece subs)
unfolding pat_loop
pat_loop-join [] out slugs = ap (join b'/') (sym (append-nil out))
pat_loop-join (sub ∷ subs) out slugs =
    by_test (is_slug sub) (pat_loop-join subs (out ++ capture ∷ []) (slugs ++ drop 1 sub ∷ []))
      (pat_loop-join subs (out ++ sub ∷ []) slugs)
  where
    by_test :
        (t : Bool)
        → (pat_loop subs (out ++ capture ∷ []) (slugs ++ drop 1 sub ∷ [])).pat
          ≡ join b'/' ((out ++ capture ∷ []) ++ map piece subs)
        → (pat_loop subs (out ++ sub ∷ []) slugs).pat
          ≡ join b'/' ((out ++ sub ∷ []) ++ map piece subs)
        → (if t
            then pat_loop subs (out ++ capture ∷ []) (slugs ++ drop 1 sub ∷ [])
            else pat_loop subs (out ++ sub ∷ []) slugs).pat
          ≡ join b'/' (out ++ (if t then capture else sub) ∷ map piece subs)
    by_test true slug plain =
        slug ∙ ap (join b'/') (append_assoc out (capture ∷ []) (map piece subs))
    by_test false slug plain = plain ∙ ap (join b'/') (append_assoc out (sub ∷ []) (map piece subs))

-- A part of a route that is no slug: no byte that ends a segment or starts a capture.
abbrev IsPart : Bytes → Type 0
IsPart sub = All (λ c. (c ≢ b'/') × (c ≢ b'(')) sub

seg_loop-capture :
    (segs : List Bytes) (res : Bytes)
    → seg_loop false [] segs (capture ++ res) ≡ seg_loop false [] (segs ++ codes "[^/]+" ∷ []) res
unfolding seg_loop capture_end
seg_loop-capture segs res = refl

-- The segment of a part: none for an empty one.
abbrev pub segment_of : Bytes → List Bytes
segment_of sub = if is_slug sub then codes "[^/]+" ∷ [] else flush sub []

abbrev pub segments_of : List Bytes → List Bytes
segments_of [] = []
segments_of (sub ∷ subs) = segment_of sub ++ segments_of subs
