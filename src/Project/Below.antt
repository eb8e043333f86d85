-- ===== src/Project/Below.antt =====
-- `Dir` and `Base` of path/filepath on the path of a file below a directory.
use mathlib.Core.List.{reverse}
use pushup.Base.{
  ◌≡◌, refl, sym, ap, ◌∙◌, Bool, true, false, ◌&&◌, List, [], ◌∷◌, ◌++◌, ◌==◌, if◌then◌else◌, Bytes,
  All, Lacks, equal, equal_refl, has_prefix, split, cons_first, join, arith, append_assoc,
}
use pushup.Project.Split.{split-append, split-Lacks, join-append}
use pushup.Project.Filepath.{
  dot, clean_step, clean_loop, is_rooted, elements, path_of, clean, before_base, dir, last_element,
  strip_slashes, base,
}
use pushup.Project.Clean.{IsName, clean_loop-append, clean_loop-names}
use pushup.Project.Rel.{split-names, join-names, join-nonempty, reverse-names, equal-false}
use pushup.Project.Files.{dirs_of}

-- The path of a file `file` in the directories `dirs`.
abbrev pub in_dirs : List Bytes → Bytes → Bytes
in_dirs dirs file = join b'/' (dirs ++ file ∷ [])

before_base-Lacks : (f : Bytes) → Lacks b'/' f → before_base f ≡ []
unfolding before_base equal
before_base-Lacks [] h = refl
before_base-Lacks (c ∷ f) (n, h) = ground (arith, n, before_base-Lacks f h)

before_base-append : (a f : Bytes) → Lacks b'/' f → before_base (a ++ b'/' ∷ f) ≡ a ++ b'/' ∷ []
unfolding before_base equal
before_base-append [] f h = ap (◌∷◌ b'/') (before_base-Lacks f h)
before_base-append (c ∷ a) f h = rw (before_base-append a f h) (by_test (c == b'/') a)
  where
    by_test :
        (t : Bool) (a : Bytes)
        → (if t
            then c ∷ (a ++ b'/' ∷ [])
            else (if equal (a ++ b'/' ∷ []) [] then [] else c ∷ (a ++ b'/' ∷ [])))
          ≡ c ∷ (a ++ b'/' ∷ [])
    by_test true a = refl
    by_test false [] = refl
    by_test false (d ∷ a) = refl

pub append-nonempty : (a f : Bytes) → equal f [] ≡ false → equal (a ++ f) [] ≡ false
unfolding equal
append-nonempty [] f n = n
append-nonempty (c ∷ a) f n = refl

pub is_rooted-append : (a f : Bytes) → equal a [] ≡ false → is_rooted (a ++ f) ≡ is_rooted a
unfolding has_prefix equal
is_rooted-append [] f n = ground (arith, n)
is_rooted-append (c ∷ a) f n = refl

-- Clean drops the slash behind the directories.
clean-slash :
    (d : Bytes) (ds : List Bytes)
    → All IsName (d ∷ ds)
    → clean (join b'/' (d ∷ ds) ++ b'/' ∷ []) ≡ join b'/' (d ∷ ds)
unfolding clean elements path_of split clean_loop clean_step equal
clean-slash d ds h =
    let path = join b'/' (d ∷ ds) ++ b'/' ∷ [] in
    let parts =
      split-append b'/' (join b'/' (d ∷ ds)) [] ∙ ap (λ l. l ++ [] ∷ []) (split-names d ds h) in
    ap (λ t. path_of t (reverse (clean_loop t [] (split b'/' path))))
      (is_rooted-append (join b'/' (d ∷ ds)) (b'/' ∷ []) (join-nonempty d ds h.0)
        ∙ join-names d ds h)
    ∙ ap (λ l. path_of false (reverse (clean_loop false [] l))) parts
    ∙ ap (λ l. path_of false (reverse l)) (clean_loop-append false [] (d ∷ ds) ([] ∷ []))
    ∙ ap (λ l. path_of false (reverse l)) (clean_loop-names false (d ∷ ds) [] h)
    ∙ ap (path_of false) (reverse-names [] (d ∷ ds))

join-differs :
    (d : Bytes) (ds : List Bytes) → All IsName (d ∷ ds) → equal (join b'/' (d ∷ ds)) dot ≡ false
unfolding split cons_first
join-differs d ds ((l, n, k, m), h) = equal-false (join b'/' (d ∷ ds)) dot λ e.
    let first : List Bytes → Bytes = λ ps. elim ps [ [] ↦ dot | p ∷ ps ↦ p ] in
    let same : d ≡ dot = ap first (sym (split-names d ds ((l, n, k, m), h)) ∙ ap (split b'/') e) in
    ground (arith, k, ap (λ s. equal s dot) same ∙ equal_refl dot)

pub dir-in_dirs :
    (dirs : List Bytes) (file : Bytes)
    → All IsName dirs
    → IsName file
    → dirs_of (dir (in_dirs dirs file)) ≡ dirs
unfolding dirs_of dir clean elements path_of split clean_loop clean_step equal join has_prefix
dir-in_dirs [] file h k = rw (before_base-Lacks file k.0) refl
dir-in_dirs (d ∷ ds) file h k =
    let e =
      ap before_base (join-append b'/' d ds file [])
      ∙ before_base-append (join b'/' (d ∷ ds)) file k.0 in
    ap (λ s. dirs_of (clean s)) e
    ∙ ap dirs_of (clean-slash d ds h)
    ∙ ap (λ t. if t then [] else split b'/' (join b'/' (d ∷ ds))) (join-differs d ds h)
    ∙ split-names d ds h

strip_slashes-Lacks : (f : Bytes) → Lacks b'/' f → strip_slashes f ≡ f
unfolding strip_slashes equal
strip_slashes-Lacks [] h = refl
strip_slashes-Lacks (c ∷ f) (n, h) = ground (arith, n, strip_slashes-Lacks f h)

strip_slashes-append :
    (a f : Bytes) → Lacks b'/' f → equal f [] ≡ false → strip_slashes (a ++ f) ≡ a ++ f
unfolding strip_slashes
strip_slashes-append [] f h n = strip_slashes-Lacks f h
strip_slashes-append (c ∷ a) f h n =
    rw (strip_slashes-append a f h n, append-nonempty a f n) (unchanged (c == b'/'))
  where
    unchanged : (t : Bool) → (if t && false then [] else c ∷ (a ++ f)) ≡ c ∷ (a ++ f)
    unchanged true = refl
    unchanged false = refl

last_element-append : (ds : List Bytes) (f : Bytes) → last_element (ds ++ f ∷ []) ≡ f
unfolding last_element
last_element-append [] f = refl
last_element-append (d ∷ []) f = refl
last_element-append (d ∷ e ∷ ds) f = last_element-append (e ∷ ds) f

base-last :
    (s f : Bytes)
    → equal s [] ≡ false
    → last_element (split b'/' (strip_slashes s)) ≡ f
    → equal f [] ≡ false
    → base s ≡ f
unfolding base equal
base-last [] f n e k = ground (arith, n)
base-last (c ∷ s) f n e k = rw (e, k) refl

pub base-in_dirs :
    (dirs : List Bytes) (file : Bytes)
    → All IsName dirs
    → IsName file
    → base (in_dirs dirs file) ≡ file
unfolding join last_element equal
base-in_dirs [] file h (l, n, k, m) =
    base-last file file n
      (ap (λ s. last_element (split b'/' s)) (strip_slashes-Lacks file l)
        ∙ ap last_element (split-Lacks b'/' file l))
      n
base-in_dirs (d ∷ ds) file h (l, n, k, m) =
    let above = join b'/' (d ∷ ds) in
    let kept =
      ap strip_slashes (sym (append_assoc above (b'/' ∷ []) file))
      ∙ strip_slashes-append (above ++ b'/' ∷ []) file l n
      ∙ append_assoc above (b'/' ∷ []) file in
    let parts =
      ap (split b'/') kept
      ∙ split-append b'/' above file
      ∙ ap (λ ps. split b'/' above ++ ps) (split-Lacks b'/' file l) in
    ap base (join-append b'/' d ds file [])
    ∙ base-last (above ++ b'/' ∷ file) file (append-nonempty above (b'/' ∷ file) refl)
        (ap last_element parts ∙ last_element-append (split b'/' above) file) n
