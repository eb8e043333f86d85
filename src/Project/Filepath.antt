-- ===== src/Project/Filepath.antt =====
-- The functions of Go's package path/filepath that the source calls, as they are on Unix. A path is its
-- elements between slashes; `Clean` keeps those it has read as a stack.
use mathlib.Core.List.{reverse}
use pushup.Base.{
  Bool, true, false, ◌&&◌, ◌||◌, Option, none, some, List, [], ◌∷◌, ◌++◌, ◌==◌, if◌then◌else◌,
  Bytes, codes, equal, has_prefix, split, join,
}

abbrev pub dot : Bytes
dot = codes "."

abbrev pub dot_dot : Bytes
dot_dot = codes ".."

-- An element `..` takes back the one before it, unless that is `..` too; at the root it is dropped.
unfoldable pub up : Bool → List Bytes → List Bytes
up rooted [] = if rooted then [] else dot_dot ∷ []
up rooted (e ∷ out) = if equal e dot_dot then dot_dot ∷ e ∷ out else out

unfoldable pub clean_step : Bool → List Bytes → Bytes → List Bytes
unfolding up
clean_step rooted out e =
    if equal e [] || equal e dot then out else (if equal e dot_dot then up rooted out else e ∷ out)

unfoldable pub clean_loop : Bool → List Bytes → List Bytes → List Bytes
unfolding clean_step
clean_loop rooted out [] = out
clean_loop rooted out (e ∷ es) = clean_loop rooted (clean_step rooted out e) es

abbrev pub is_rooted : Bytes → Bool
is_rooted path = has_prefix path (codes "/")

-- The elements of a path that Clean leaves.
unfoldable pub elements : Bytes → List Bytes
unfolding clean_loop
elements path = reverse (clean_loop (is_rooted path) [] (split b'/' path))

unfoldable pub path_of : Bool → List Bytes → Bytes
path_of true es = b'/' ∷ join b'/' es
path_of false [] = dot
path_of false (e ∷ es) = join b'/' (e ∷ es)

unfoldable pub clean : Bytes → Bytes
unfolding path_of elements
clean path = path_of (is_rooted path) (elements path)

-- `Join`, which leaves out the empty ones in front.
unfoldable pub join_paths : List Bytes → Bytes
unfolding clean
join_paths [] = []
join_paths (e ∷ es) =
    let rest = join_paths es in if equal e [] then rest else clean (join b'/' (e ∷ es))

-- What goes up from the elements left of the base, with those left of the target behind.
unfoldable pub climb : List Bytes → List Bytes → Bytes
climb [] ts = join b'/' ts
climb (b ∷ bs) ts = join b'/' (map_up (b ∷ bs) ++ ts)
  where
    map_up : List Bytes → List Bytes
    map_up [] = []
    map_up (b ∷ bs) = dot_dot ∷ map_up bs

-- The loops of `Rel` on the elements; `none` is its error.
unfoldable pub rel_loop : List Bytes → List Bytes → Option Bytes
unfolding climb
rel_loop [] ts = some (climb [] ts)
rel_loop (b ∷ bs) [] = some (climb (b ∷ bs) [])
rel_loop (b ∷ bs) (t ∷ ts) =
    let rest = rel_loop bs ts in
    if equal b t then rest else (if equal b dot_dot then none else some (climb (b ∷ bs) (t ∷ ts)))

-- Clean gives "." for a path of no elements, which Rel reads as an element of the target.
unfoldable pub or_dot : Bool → List Bytes → List Bytes
or_dot true es = es
or_dot false [] = dot ∷ []
or_dot false (e ∷ es) = e ∷ es

unfoldable pub rel_roots : Bool → Bool → List Bytes → List Bytes → Option Bytes
unfolding rel_loop
rel_roots true true es ts = rel_loop es ts
rel_roots true false es ts = none
rel_roots false true es ts = none
rel_roots false false es ts = rel_loop es ts

unfoldable pub rel : Bytes → Bytes → Option Bytes
unfolding clean elements or_dot rel_roots
rel base target =
    if equal (clean target) (clean base)
    then some dot
    else rel_roots (is_rooted base) (is_rooted target) (elements base)
        (or_dot (is_rooted target) (elements target))

-- The path up to its last slash.
unfoldable pub before_base : Bytes → Bytes
before_base [] = []
before_base (c ∷ s) =
    let rest = before_base s in
    if c == b'/' then c ∷ rest else (if equal rest [] then [] else c ∷ rest)

-- `Dir`
unfoldable pub dir : Bytes → Bytes
unfolding before_base clean
dir path = clean (before_base path)

unfoldable pub last_element : List Bytes → Bytes
last_element [] = []
last_element (e ∷ []) = e
last_element (e ∷ next ∷ es) = last_element (next ∷ es)

-- The loop that strips trailing slashes.
unfoldable pub strip_slashes : Bytes → Bytes
strip_slashes [] = []
strip_slashes (c ∷ s) =
    let rest = strip_slashes s in if c == b'/' && equal rest [] then [] else c ∷ rest

-- `Base`
unfoldable pub base : Bytes → Bytes
unfolding strip_slashes last_element
base [] = dot
base (c ∷ s) =
    let file = last_element (split b'/' (strip_slashes (c ∷ s))) in
    if equal file [] then codes "/" else file
