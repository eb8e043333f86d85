-- ===== src/Project/Rel.antt =====
-- `projectFile.relpath` on a file below the directory of its project.
use mathlib.Core.List.{reverse, reverse-append, reverse-reverse}
use pushup.Base.{
  ◌≡◌, ◌≢◌, refl, sym, ap, ◌∙◌, Bool, true, false, some, List, [], ◌∷◌, ◌++◌, length, length-append,
  Bytes, All, All-imp, Lacks, equal, equal_iff, equal_refl, has_prefix, split, join, arith,
}
use pushup.Project.Split.{split-append, split-join}
use pushup.Project.Filepath.{
  clean_step, clean_loop, is_rooted, elements, path_of, clean, join_paths, climb, rel_loop, or_dot,
  rel_roots, rel,
}
use pushup.Project.Clean.{
  IsName, clean_loop-append, clean_loop-IsStack, clean_loop-names, stack_of, stack_of-IsStack,
  nonempty, is_rooted-join, elements-path_of, elements-clean,
}
use pushup.Project.Files.{relpath}

pub split-names :
    (n : Bytes) (ns : List Bytes) → All IsName (n ∷ ns) → split b'/' (join b'/' (n ∷ ns)) ≡ n ∷ ns
split-names n ns h = split-join b'/' n ns (All-imp IsName (Lacks b'/') (λ e k. k.0) (n ∷ ns) h)

pub join-names :
    (n : Bytes) (ns : List Bytes) → All IsName (n ∷ ns) → is_rooted (join b'/' (n ∷ ns)) ≡ false
join-names n ns ((l, k, _, _), h) = is_rooted-join n ns l (nonempty n k)

pub reverse-names : (stack ns : List Bytes) → reverse (reverse ns ++ stack) ≡ reverse stack ++ ns
reverse-names stack ns =
    reverse-append (reverse ns) stack ∙ ap (λ l. reverse stack ++ l) (reverse-reverse ns)

pub join-nonempty : (n : Bytes) (ns : List Bytes) → IsName n → equal (join b'/' (n ∷ ns)) [] ≡ false
unfolding join equal
join-nonempty [] ns (l, k, _, _) = ground (arith, k)
join-nonempty (c ∷ n) [] h = refl
join-nonempty (c ∷ n) (m ∷ ns) h = refl

pub elements-join :
    (n : Bytes) (ns : List Bytes) → All IsName (n ∷ ns) → elements (join b'/' (n ∷ ns)) ≡ n ∷ ns
unfolding elements
elements-join n ns h =
    let path = join b'/' (n ∷ ns) in
    ap (λ t. reverse (clean_loop t [] (split b'/' path))) (join-names n ns h)
    ∙ ap (λ l. reverse (clean_loop false [] l)) (split-names n ns h)
    ∙ ap reverse (clean_loop-names false (n ∷ ns) [] h)
    ∙ reverse-names [] (n ∷ ns)

pub clean-names :
    (n : Bytes) (ns : List Bytes)
    → All IsName (n ∷ ns)
    → clean (join b'/' (n ∷ ns)) ≡ join b'/' (n ∷ ns)
unfolding clean path_of
clean-names n ns h =
    let path = join b'/' (n ∷ ns) in
    ap (λ t. path_of t (elements path)) (join-names n ns h)
    ∙ ap (path_of false) (elements-join n ns h)

-- The path of a file: the elements of the directory with the names behind them.
pub join_paths-names :
    (dir n : Bytes) (ns : List Bytes)
    → All IsName (n ∷ ns)
    → join_paths (dir ∷ join b'/' (n ∷ ns) ∷ []) ≡ path_of (is_rooted dir) (elements dir ++ n ∷ ns)
unfolding join_paths clean join elements split clean_loop clean_step equal has_prefix
join_paths-names [] n ns h = rw (join-nonempty n ns h.0) (clean-names n ns h)
join_paths-names (c ∷ dir) n ns h =
    let below =
      split-append b'/' (c ∷ dir) (join b'/' (n ∷ ns))
      ∙ ap (λ l. split b'/' (c ∷ dir) ++ l) (split-names n ns h) in
    let rooted = is_rooted (c ∷ dir) in
    ap (path_of rooted) (
      ap (λ l. reverse (clean_loop rooted [] l)) below
      ∙ ap reverse (clean_loop-append rooted [] (split b'/' (c ∷ dir)) (n ∷ ns))
      ∙ ap reverse (clean_loop-names rooted (n ∷ ns) (stack_of rooted (c ∷ dir)) h)
      ∙ reverse-names (stack_of rooted (c ∷ dir)) (n ∷ ns))

rel_loop-append : (es ts : List Bytes) → rel_loop es (es ++ ts) ≡ some (join b'/' ts)
unfolding rel_loop climb
rel_loop-append [] ts = refl
rel_loop-append (e ∷ es) ts = rw (equal_refl e) (rel_loop-append es ts)

append-longer : (es : List Bytes) (n : Bytes) (ns : List Bytes) → es ++ n ∷ ns ≢ es
append-longer es n ns e = omega (arith, length-append es (n ∷ ns), ap length e)

pub equal-false : (a b : Bytes) → a ≢ b → equal a b ≡ false
equal-false a b n = by_test (equal a b) refl
  where
    by_test : (t : Bool) → equal a b ≡ t → t ≡ false
    by_test true e = elim (n ((equal_iff a b).0 e)) [ ]
    by_test false e = refl

or_dot-append :
    (rooted : Bool) (es : List Bytes) (n : Bytes) (ns : List Bytes)
    → or_dot rooted (es ++ n ∷ ns) ≡ es ++ n ∷ ns
unfolding or_dot
or_dot-append true es n ns = refl
or_dot-append false [] n ns = refl
or_dot-append false (e ∷ es) n ns = refl

rel_roots-same : (t : Bool) (es ts : List Bytes) → rel_roots t t es ts ≡ rel_loop es ts
unfolding rel_roots
rel_roots-same true es ts = refl
rel_roots-same false es ts = refl

-- A path below a base, by its elements.
rel-append :
    (base path n : Bytes) (ns : List Bytes)
    → elements path ≡ elements base ++ n ∷ ns
    → is_rooted path ≡ is_rooted base
    → rel base path ≡ some (join b'/' (n ∷ ns))
unfolding rel
rel-append base path n ns e r =
    let differ = equal-false (clean path) (clean base) λ k.
      append-longer (elements base) n ns
        (sym e ∙ sym (elements-clean path) ∙ ap elements k ∙ elements-clean base) in
    rw (differ, e, r, or_dot-append (is_rooted base) (elements base) n ns)
      (rel_roots-same (is_rooted base) (elements base) (elements base ++ n ∷ ns)
        ∙ rel_loop-append (elements base) (n ∷ ns))

elements-names :
    (dir n : Bytes) (ns : List Bytes)
    → All IsName (n ∷ ns)
    → let path = path_of (is_rooted dir) (elements dir ++ n ∷ ns) in
      (elements path ≡ elements dir ++ n ∷ ns) × (is_rooted path ≡ is_rooted dir)
unfolding elements
elements-names dir n ns h =
    let rooted = is_rooted dir in
    let stack = stack_of rooted dir in
    elements-path_of rooted (clean_loop rooted stack (n ∷ ns)) (reverse stack ++ n ∷ ns)
      (clean_loop-IsStack rooted (n ∷ ns) stack
        (All-imp IsName (Lacks b'/') (λ e k. k.0) (n ∷ ns) h) (stack_of-IsStack rooted dir))
      (ap reverse (clean_loop-names rooted (n ∷ ns) stack h) ∙ reverse-names stack (n ∷ ns))

-- For any directory, empty, rooted or with `..` in it, and a path of names below it, relpath of the file
-- that Join makes of the two finds the path back.
pub relpath-join_paths :
    (dir n : Bytes) (ns : List Bytes)
    → All IsName (n ∷ ns)
    → let path = join b'/' (n ∷ ns) in
      relpath (record { path = join_paths (dir ∷ path ∷ []); project_files_subdir = dir })
      ≡ some path
unfolding relpath
relpath-join_paths dir n ns h =
    let (e, r) = elements-names dir n ns h in
    ap (rel dir) (join_paths-names dir n ns h)
    ∙ rel-append dir (path_of (is_rooted dir) (elements dir ++ n ∷ ns)) n ns e r
