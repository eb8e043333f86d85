-- ===== src/Project/Clean.antt =====
-- `Clean` of path/filepath: its elements, and that it changes no path that it has made.
use mathlib.Core.Path.{subst}
use mathlib.Core.List.{reverse, reverse-cons}
use pushup.Base.{
  ◌≡◌, ◌≢◌, refl, sym, ap, ◌∙◌, Bool, true, false, ◌||◌, List, [], ◌∷◌, ◌++◌, if◌then◌else◌, Bytes,
  All, Lacks, equal, has_prefix, split, join, arith, append_assoc, All-append, All-imp,
}
use pushup.Project.Split.{split-join, split-parts}
use pushup.Project.Filepath.{
  dot, dot_dot, up, clean_step, clean_loop, is_rooted, elements, path_of, clean,
}

-- The elements in the stack of Clean: each is a name, or a `..` that it cannot take back.
abbrev pub IsStack : Bool → List Bytes → Type 0
IsStack rooted [] = Unit
IsStack rooted (e ∷ out) =
    Lacks b'/' e × (e ≢ []) × (clean_step rooted out e ≡ e ∷ out) × IsStack rooted out

-- A name in a directory.
abbrev pub IsName : Bytes → Type 0
IsName e = Lacks b'/' e × (equal e [] ≡ false) × (equal e dot ≡ false) × (equal e dot_dot ≡ false)

pub clean_loop-append :
    (rooted : Bool) (out es fs : List Bytes)
    → clean_loop rooted out (es ++ fs) ≡ clean_loop rooted (clean_loop rooted out es) fs
unfolding clean_loop
clean_loop-append rooted out [] fs = refl
clean_loop-append rooted out (e ∷ es) fs = clean_loop-append rooted (clean_step rooted out e) es fs

clean_step-name :
    (rooted : Bool) (out : List Bytes) (e : Bytes) → IsName e → clean_step rooted out e ≡ e ∷ out
unfolding clean_step
clean_step-name rooted out e (l, n, d, dd) = rw (n, d, dd) refl

pub clean_loop-names :
    (rooted : Bool) (es out : List Bytes)
    → All IsName es
    → clean_loop rooted out es ≡ reverse es ++ out
unfolding clean_loop
clean_loop-names rooted [] out h = refl
clean_loop-names rooted (e ∷ es) out (n, h) =
    ap (λ o. clean_loop rooted o es) (clean_step-name rooted out e n)
    ∙ clean_loop-names rooted es (e ∷ out) h
    ∙ sym (ap (λ l. l ++ out) (reverse-cons e es) ∙ append_assoc (reverse es) (e ∷ []) out)

pub nonempty : (e : Bytes) → equal e [] ≡ false → e ≢ []
unfolding equal
nonempty e h k = ground (arith, h, k)

dot_dot-IsStack :
    (rooted : Bool) (out : List Bytes)
    → up rooted out ≡ dot_dot ∷ out
    → IsStack rooted out
    → IsStack rooted (dot_dot ∷ out)
unfolding clean_step equal
dot_dot-IsStack rooted out e h =
    ((ground arith, (ground arith, tt)), nonempty dot_dot (ground arith), e, h)

up-IsStack :
    (rooted : Bool) (out : List Bytes) → IsStack rooted out → IsStack rooted (up rooted out)
unfolding up
up-IsStack true [] h = tt
up-IsStack false [] h = dot_dot-IsStack false [] refl tt
up-IsStack rooted (e ∷ out) (l, n, c, h) = by_test (equal e dot_dot) refl
  where
    by_test :
        (t : Bool) → equal e dot_dot ≡ t → IsStack rooted (if t then dot_dot ∷ e ∷ out else out)
    by_test true q = dot_dot-IsStack rooted (e ∷ out) (rw q refl) (l, n, c, h)
    by_test false q = h

clean_step-IsStack :
    (rooted : Bool) (out : List Bytes) (e : Bytes)
    → Lacks b'/' e
    → IsStack rooted out
    → IsStack rooted (clean_step rooted out e)
unfolding clean_step
clean_step-IsStack rooted out e l h =
    by_tests (equal e []) (equal e dot) (equal e dot_dot) refl refl refl
  where
    by_tests :
        (empty here above : Bool)
        → equal e [] ≡ empty
        → equal e dot ≡ here
        → equal e dot_dot ≡ above
        → IsStack rooted (if empty || here then out else (if above then up rooted out else e ∷ out))
    by_tests true here above p q r = h
    by_tests false true above p q r = h
    by_tests false false true p q r = up-IsStack rooted out h
    by_tests false false false p q r =
        (l, nonempty e p, clean_step-name rooted out e (l, p, q, r), h)

pub clean_loop-IsStack :
    (rooted : Bool) (es out : List Bytes)
    → All (Lacks b'/') es
    → IsStack rooted out
    → IsStack rooted (clean_loop rooted out es)
unfolding clean_loop
clean_loop-IsStack rooted [] out l h = h
clean_loop-IsStack rooted (e ∷ es) out (k, l) h =
    clean_loop-IsStack rooted es (clean_step rooted out e) l (clean_step-IsStack rooted out e k h)

-- Clean reads a stack that it has made back.
clean_loop-reverse :
    (rooted : Bool) (out : List Bytes)
    → IsStack rooted out
    → clean_loop rooted [] (reverse out) ≡ out
unfolding clean_loop
clean_loop-reverse rooted [] h = refl
clean_loop-reverse rooted (e ∷ out) (l, n, c, h) =
    ap (clean_loop rooted []) (reverse-cons e out)
    ∙ clean_loop-append rooted [] (reverse out) (e ∷ [])
    ∙ ap (λ o. clean_step rooted o e) (clean_loop-reverse rooted out h)
    ∙ c

abbrev pub stack_of : Bool → Bytes → List Bytes
stack_of rooted path = clean_loop rooted [] (split b'/' path)

pub stack_of-IsStack : (rooted : Bool) (path : Bytes) → IsStack rooted (stack_of rooted path)
stack_of-IsStack rooted path =
    clean_loop-IsStack rooted (split b'/' path) [] (split-parts b'/' path) tt

reverse-stack-All :
    (rooted : Bool) (out : List Bytes)
    → IsStack rooted out
    → All (λ e. Lacks b'/' e × (e ≢ [])) (reverse out)
reverse-stack-All rooted [] h = tt
reverse-stack-All rooted (e ∷ out) (l, n, c, h) =
    subst (All (λ e. Lacks b'/' e × (e ≢ []))) (sym (reverse-cons e out)) (
      All-append (λ e. Lacks b'/' e × (e ≢ [])) (reverse out) (e ∷ [])
        (reverse-stack-All rooted out h) ((l, n), tt))

pub is_rooted-join :
    (e : Bytes) (es : List Bytes) → Lacks b'/' e → e ≢ [] → is_rooted (join b'/' (e ∷ es)) ≡ false
unfolding has_prefix join
is_rooted-join [] es l n = elim (n refl) [ ]
is_rooted-join (c ∷ e) [] (m, l) n = ground (arith, m)
is_rooted-join (c ∷ e) (f ∷ es) (m, l) n = ground (arith, m)

split-join_names :
    (e : Bytes) (es : List Bytes)
    → All (λ e. Lacks b'/' e × (e ≢ [])) (e ∷ es)
    → split b'/' (join b'/' (e ∷ es)) ≡ e ∷ es
split-join_names e es h =
    split-join b'/' e es
      (All-imp (λ f. Lacks b'/' f × (f ≢ [])) (Lacks b'/') (λ f k. k.0) (e ∷ es) h)

-- The path that Clean makes has the elements that it is made of.
pub elements-path_of :
    (rooted : Bool) (out es : List Bytes)
    → IsStack rooted out
    → reverse out ≡ es
    → (elements (path_of rooted es) ≡ es) × (is_rooted (path_of rooted es) ≡ rooted)
unfolding elements path_of has_prefix split join clean_loop clean_step equal
elements-path_of true out [] h e = (refl, refl)
elements-path_of false out [] h e = (refl, refl)
elements-path_of true out (f ∷ es) h e =
    let k = subst (All (λ e. Lacks b'/' e × (e ≢ []))) e (reverse-stack-All true out h) in
    (
      ap (λ l. reverse (clean_loop true [] l)) (split-join_names f es k ∙ sym e)
          ∙ ap reverse (clean_loop-reverse true out h)
          ∙ e,
      refl,
    )
elements-path_of false out (f ∷ es) h e =
    let k = subst (All (λ e. Lacks b'/' e × (e ≢ []))) e (reverse-stack-All false out h) in
    let r = is_rooted-join f es k.0.0 k.0.1 in
    (
      ap (λ t. reverse (clean_loop t [] (split b'/' (join b'/' (f ∷ es))))) r
          ∙ ap (λ l. reverse (clean_loop false [] l)) (split-join_names f es k ∙ sym e)
          ∙ ap reverse (clean_loop-reverse false out h)
          ∙ e,
      r,
    )

pub elements-clean : (path : Bytes) → elements (clean path) ≡ elements path
unfolding elements clean
elements-clean path =
    let rooted = is_rooted path in
    (elements-path_of rooted (stack_of rooted path) (reverse (stack_of rooted path))
      (stack_of-IsStack rooted path) refl).0
