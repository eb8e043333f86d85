-- ===== src/Project/Pages.antt =====
-- codegen.go: `routeForPage` on the path of a page below the directory of the pages.
use pushup.Base.{
  ℕ, suc, ◌-◌, ◌≡◌, ◌≢◌, refl, sym, ap, ◌∙◌, Bool, true, false, ◌&&◌, Option, none, some, List, [],
  ◌∷◌, ◌++◌, ◌==◌, if◌then◌else◌, length, get_elem?, Bytes, codes, All, Lacks, equal, has_prefix,
  join, arith, append_assoc,
}
use pushup.Project.Clean.{IsName}
use pushup.Project.Files.{stem, with_colon, with_colons, close_index, closing_slash, route_for_page}
use pushup.Project.Below.{in_dirs, dir-in_dirs, base-in_dirs}

-- The route of a page, by its directories and its name.
unfoldable pub page_route : List Bytes → Bytes → Bytes
page_route [] name = if equal name (codes "index") then [] else with_colon name
page_route (d ∷ dirs) name = with_colon d ++ b'/' ∷ page_route dirs name

-- Not empty, and its last byte is no slash.
IsClosed : Bytes → Type 0
IsClosed [] = ⊥
IsClosed (c ∷ []) = c ≢ b'/'
IsClosed (c ∷ d ∷ s) = IsClosed (d ∷ s)

IsClosed-append : (a f : Bytes) → IsClosed f → IsClosed (a ++ f)
unfolding IsClosed
IsClosed-append [] f h = h
IsClosed-append (c ∷ []) [] h = elim h [ ]
IsClosed-append (c ∷ []) (d ∷ f) h = h
IsClosed-append (c ∷ d ∷ a) f h = IsClosed-append (d ∷ a) f h

IsClosed-Lacks : (c : ℕ) (f : Bytes) → c ≢ b'/' → Lacks b'/' f → IsClosed (c ∷ f)
unfolding IsClosed
IsClosed-Lacks c [] n h = n
IsClosed-Lacks c (d ∷ f) n (m, h) = IsClosed-Lacks d f m h

IsClosed-with_colon : (d : Bytes) → IsName d → IsClosed (with_colon d)
unfolding with_colon has_prefix equal
IsClosed-with_colon [] (l, n, _, _) = ground (arith, n)
IsClosed-with_colon (c ∷ d) ((m, l), _, _, _) = by_test (c == b'$' && true)
  where
    by_test : (t : Bool) → IsClosed (if t then b':' ∷ d else c ∷ d)
    by_test true = IsClosed-Lacks b':' d (ground arith) l
    by_test false = IsClosed-Lacks c d m l

IsClosed-join :
    (d : Bytes) (ds : List Bytes)
    → All IsName (d ∷ ds)
    → IsClosed (join b'/' (with_colons (d ∷ ds)))
unfolding with_colons join
IsClosed-join d [] (h, _) = IsClosed-with_colon d h
IsClosed-join d (e ∷ ds) (_, h) =
    IsClosed-append (with_colon d) (b'/' ∷ join b'/' (with_colons (e ∷ ds)))
      (IsClosed-append (b'/' ∷ []) (join b'/' (with_colons (e ∷ ds))) (IsClosed-join e ds h))

IsNoSlash : Option ℕ → Type 0
IsNoSlash none = ⊥
IsNoSlash (some last) = (last == b'/') ≡ false

last-IsClosed : (c : ℕ) (s : Bytes) → IsClosed (c ∷ s) → IsNoSlash (get_elem? (c ∷ s) (length s))
unfolding IsClosed IsNoSlash
last-IsClosed c [] h = ground (arith, h)
last-IsClosed c (d ∷ s) h = last-IsClosed d s h

close_index-IsNoSlash :
    (s : Bytes) (o : Option ℕ) → IsNoSlash o → close_index true s o ≡ s ++ b'/' ∷ []
unfolding close_index IsNoSlash
close_index-IsNoSlash s none h = elim h [ ]
close_index-IsNoSlash s (some last) h = rw h refl

closing_slash-IsClosed :
    (name s : Bytes)
    → equal name (codes "index") ≡ true
    → IsClosed s
    → closing_slash name s ≡ s ++ b'/' ∷ []
unfolding closing_slash IsClosed
closing_slash-IsClosed name [] e h = elim h [ ]
closing_slash-IsClosed name (c ∷ s) e h =
    let last : suc (length s) - 1 ≡ length s = omega arith in
    rw (e, last)
      (close_index-IsNoSlash (c ∷ s) (get_elem? (c ∷ s) (length s)) (last-IsClosed c s h))

closing_slash-other :
    (name s : Bytes) → equal name (codes "index") ≡ false → closing_slash name s ≡ s
unfolding closing_slash close_index
closing_slash-other name s e = ap (λ t. close_index t s (get_elem? s (length s - 1))) e

page_route-index :
    (d : Bytes) (ds : List Bytes) (name : Bytes)
    → equal name (codes "index") ≡ true
    → page_route (d ∷ ds) name ≡ join b'/' (with_colons (d ∷ ds)) ++ b'/' ∷ []
unfolding page_route with_colons join
page_route-index d [] name e = rw e refl
page_route-index d (f ∷ ds) name e =
    ap (λ s. with_colon d ++ b'/' ∷ s) (page_route-index f ds name e)
    ∙ sym (append_assoc (with_colon d) (b'/' ∷ join b'/' (with_colons (f ∷ ds))) (b'/' ∷ []))

page_route-other :
    (dirs : List Bytes) (name : Bytes)
    → equal name (codes "index") ≡ false
    → page_route dirs name ≡ join b'/' (with_colons (dirs ++ name ∷ []))
unfolding page_route with_colons join
page_route-other [] name e = rw e refl
page_route-other (d ∷ []) name e = rw e refl
page_route-other (d ∷ f ∷ ds) name e =
    ap (λ s. with_colon d ++ b'/' ∷ s) (page_route-other (f ∷ ds) name e)

closing_slash-page_route :
    (dirs : List Bytes) (name : Bytes)
    → All IsName dirs
    → closing_slash name (
        b'/'
        ∷ join b'/' (with_colons (if equal name (codes "index") then dirs else dirs ++ name ∷ [])))
      ≡ b'/' ∷ page_route dirs name
unfolding page_route with_colons join closing_slash close_index
closing_slash-page_route dirs name h = by_test (equal name (codes "index")) refl dirs h
  where
    by_test :
        (t : Bool)
        → equal name (codes "index") ≡ t
        → (dirs : List Bytes) → All IsName dirs
        → closing_slash name
            (b'/' ∷ join b'/' (with_colons (if t then dirs else dirs ++ name ∷ [])))
          ≡ b'/' ∷ page_route dirs name
    by_test true e [] h = rw e refl
    by_test true e (d ∷ ds) h =
        closing_slash-IsClosed name (b'/' ∷ join b'/' (with_colons (d ∷ ds))) e
          (IsClosed-append (b'/' ∷ []) (join b'/' (with_colons (d ∷ ds))) (IsClosed-join d ds h))
        ∙ ap (◌∷◌ b'/') (sym (page_route-index d ds name e))
    by_test false e dirs h =
        closing_slash-other name (b'/' ∷ join b'/' (with_colons (dirs ++ name ∷ []))) e
        ∙ ap (◌∷◌ b'/') (sym (page_route-other dirs name e))

-- For names of directories and of a file, routeForPage gives a slash, each directory with a slash
-- behind it, and the file's name without its extension, or nothing if that is `index`; a `$` that a
-- name starts with is a colon.
pub route_for_page-in_dirs :
    (dirs : List Bytes) (file : Bytes)
    → All IsName dirs
    → IsName file
    → route_for_page (in_dirs dirs file) ≡ b'/' ∷ page_route dirs (stem file)
unfolding route_for_page
route_for_page-in_dirs dirs file h k =
    rw (dir-in_dirs dirs file h k, base-in_dirs dirs file h k)
      (closing_slash-page_route dirs (stem file) h)
