-- ===== src/Runtime/Slugs.antt =====
-- _runtime/pushup_support.go: the groups of a route's expression, and its slugs.
use pushup.Base.{
  ℕ, ◌+◌, ◌≡◌, ◌≢◌, refl, ◌∙◌, Bool, true, false, List, [], ◌∷◌, ◌++◌, ◌==◌, if◌then◌else◌, length,
  length-append, drop, Bytes, All, Lacks, split, cons_first, join, count, count-append, arith,
}
use pushup.Runtime.Route.{RoutePat, capture, is_slug, pat_loop, regex_pat_from_route}

-- The expression has as many groups as the route has slugs.
abbrev pub HasGroups : RoutePat → Type 0
HasGroups p = count b'(' p.pat ≡ length p.slugs

-- The occurrences of a byte in all parts.
abbrev counts : ℕ → List Bytes → ℕ
counts b [] = 0
counts b (p ∷ ps) = count b p + counts b ps

counts-append : (b : ℕ) (ps qs : List Bytes) → counts b (ps ++ qs) ≡ counts b ps + counts b qs
counts-append b [] qs = omega arith
counts-append b (p ∷ ps) qs = omega (arith, counts-append b ps qs)

count-Lacks : (b : ℕ) (s : Bytes) → Lacks b s → count b s ≡ 0
unfolding count
count-Lacks b [] h = refl
count-Lacks b (c ∷ s) (n, h) = ground (arith, n, count-Lacks b s h)

count-join : (b sep : ℕ) (ps : List Bytes) → sep ≢ b → count b (join sep ps) ≡ counts b ps
unfolding count join
count-join b sep [] n = refl
count-join b sep (p ∷ []) n = omega arith
count-join b sep (p ∷ q ∷ ps) n =
    ground (arith, n, count-append b p (sep ∷ join sep (q ∷ ps)), count-join b sep (q ∷ ps) n)

cons_first-Lacks :
    (b c : ℕ) (ps : List Bytes) → c ≢ b → All (Lacks b) ps → All (Lacks b) (cons_first c ps)
unfolding cons_first
cons_first-Lacks b c [] n h = ((n, tt), tt)
cons_first-Lacks b c (p ∷ ps) n (q, h) = ((n, q), h)

split-Lacks : (b sep : ℕ) (s : Bytes) → Lacks b s → All (Lacks b) (split sep s)
unfolding split
split-Lacks b sep [] h = (tt, tt)
split-Lacks b sep (c ∷ s) (n, h) = by_test (c == sep) (split-Lacks b sep s h)
  where
    by_test :
        (t : Bool)
        → All (Lacks b) (split sep s)
        → All (Lacks b) (if t then [] ∷ split sep s else cons_first c (split sep s))
    by_test true rec = (tt, rec)
    by_test false rec = cons_first-Lacks b c (split sep s) n rec

capture-groups : counts b'(' (capture ∷ []) ≡ 1
unfolding count
capture-groups = refl

pat_loop-groups :
    (subs out slugs : List Bytes)
    → All (Lacks b'(') subs
    → counts b'(' out ≡ length slugs
    → HasGroups (pat_loop subs out slugs)
unfolding pat_loop
pat_loop-groups [] out slugs h e = count-join b'(' b'/' out (ground arith) ∙ e
pat_loop-groups (sub ∷ subs) out slugs (p, h) e =
    by_test (is_slug sub)
      (pat_loop-groups subs (out ++ capture ∷ []) (slugs ++ drop 1 sub ∷ []) h (
        omega (
          arith,
          e,
          counts-append b'(' out (capture ∷ []),
          length-append slugs (drop 1 sub ∷ []),
          capture-groups,
        )))
      (pat_loop-groups subs (out ++ sub ∷ []) slugs h
        (omega (arith, e, counts-append b'(' out (sub ∷ []), count-Lacks b'(' sub p)))
  where
    by_test :
        (t : Bool)
        → HasGroups (pat_loop subs (out ++ capture ∷ []) (slugs ++ drop 1 sub ∷ []))
        → HasGroups (pat_loop subs (out ++ sub ∷ []) slugs)
        → HasGroups (
            if t
            then pat_loop subs (out ++ capture ∷ []) (slugs ++ drop 1 sub ∷ [])
            else pat_loop subs (out ++ sub ∷ []) slugs)
    by_test true slug plain = slug
    by_test false slug plain = plain

pub regex_pat_from_route-groups :
    (route : Bytes) → Lacks b'(' route → HasGroups (regex_pat_from_route route)
unfolding regex_pat_from_route
regex_pat_from_route-groups route h =
    pat_loop-groups (split b'/' route) [] [] (split-Lacks b'(' b'/' route h) refl
