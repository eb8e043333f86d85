-- ===== src/Gen/Braces.antt =====
-- codegen.go: the braces of what `genNode` prints.
use pushup.Base.{
  ℕ, zero, suc, ◌+◌, ◌≡◌, refl, sym, ap, ◌∙◌, Option, none, some, List, [], ◌∷◌, ◌++◌, Bytes, arith,
}
use mathlib.Core.Path.{subst}
use native.Mathlib.Numerals.{add-one}
use native.Mathlib.Nat.{add-zero}
use pushup.Gen.Defs.{
  Print, write_string, print_escaped, if_open, for_open, code_line, else_open, brace_close,
  line_directive, andthen,
}

-- The braces open behind some prints, from `d` on; none where one is closed that is not open.
unfoldable pub open_braces : List Print → ℕ → Option ℕ
open_braces [] d = some d
open_braces (if_open cond ∷ ps) d = open_braces ps (suc d)
open_braces (for_open clause ∷ ps) d = open_braces ps (suc d)
open_braces (else_open ∷ ps) zero = none
open_braces (else_open ∷ ps) (suc d) = open_braces ps (suc d)
open_braces (brace_close ∷ ps) zero = none
open_braces (brace_close ∷ ps) (suc d) = open_braces ps d
open_braces (p ∷ ps) d = open_braces ps d

open_braces-append :
    (xs ys : List Print) (d e : ℕ)
    → open_braces xs d ≡ some e
    → open_braces (xs ++ ys) d ≡ open_braces ys e
unfolding open_braces
open_braces-append [] ys d e h = ground (arith, h)
open_braces-append (if_open cond ∷ xs) ys d e h = open_braces-append xs ys (suc d) e h
open_braces-append (for_open clause ∷ xs) ys d e h = open_braces-append xs ys (suc d) e h
open_braces-append (else_open ∷ xs) ys zero e h = ground arith
open_braces-append (else_open ∷ xs) ys (suc d) e h = open_braces-append xs ys (suc d) e h
open_braces-append (brace_close ∷ xs) ys zero e h = ground arith
open_braces-append (brace_close ∷ xs) ys (suc d) e h = open_braces-append xs ys d e h
open_braces-append (write_string s ∷ xs) ys d e h = open_braces-append xs ys d e h
open_braces-append (print_escaped s ∷ xs) ys d e h = open_braces-append xs ys d e h
open_braces-append (code_line s ∷ xs) ys d e h = open_braces-append xs ys d e h
open_braces-append (line_directive n ∷ xs) ys d e h = open_braces-append xs ys d e h

-- No panic, and the prints leave the braces as they found them, but for `a` that they close first
-- and `b` that they open.
abbrev pub IsPrinted : ℕ → ℕ → Option (List Print) → Type 0
IsPrinted a b o =
    (ps : List Print) × (o ≡ some ps) × ((d : ℕ) → open_braces ps (d + a) ≡ some (d + b))

pub andthen-IsPrinted :
    (a b c : ℕ) (o q : Option (List Print))
    → IsPrinted a b o
    → IsPrinted b c q
    → IsPrinted a c (andthen o q)
andthen-IsPrinted a b c o q (xs, ox, hx) (ys, qy, hy) = (
  xs ++ ys,
  ap (λ z. andthen z q) ox ∙ ap (andthen (some xs)) qy,
  λ d. open_braces-append xs ys (d + a) (d + b) (hx d) ∙ hy d,
)

-- The same prints, where one brace more is open.
pub deeper : (o : Option (List Print)) → IsPrinted 0 0 o → IsPrinted 1 1 o
deeper o (ps, e, h) = (
  ps,
  e,
  λ d. ap (open_braces ps) (sym (add-zero (d + 1))) ∙ (h (d + 1) ∙ ap some (add-zero (d + 1))),
)

pub if_open-IsPrinted : (cond : Bytes) → IsPrinted 0 1 (some (if_open cond ∷ []))
unfolding open_braces
if_open-IsPrinted cond = (if_open cond ∷ [], refl, λ d. ap some (omega arith))

pub for_open-IsPrinted : (clause : Bytes) → IsPrinted 0 1 (some (for_open clause ∷ []))
unfolding open_braces
for_open-IsPrinted clause = (for_open clause ∷ [], refl, λ d. ap some (omega arith))

pub else_open-IsPrinted : IsPrinted 1 1 (some (else_open ∷ []))
unfolding open_braces
else_open-IsPrinted = (
  else_open ∷ [],
  refl,
  λ d. subst (λ n. open_braces (else_open ∷ []) n ≡ some n) (sym (add-one d)) refl,
)

pub brace_close-IsPrinted : IsPrinted 1 0 (some (brace_close ∷ []))
unfolding open_braces
brace_close-IsPrinted = (
  brace_close ∷ [],
  refl,
  λ d. ap (open_braces (brace_close ∷ [])) (add-one d) ∙ ap some (omega arith),
)

pub write_string-IsPrinted : (s : Bytes) → IsPrinted 0 0 (some (write_string s ∷ []))
unfolding open_braces
write_string-IsPrinted s = (write_string s ∷ [], refl, λ d. refl)

pub print_escaped-IsPrinted : (s : Bytes) → IsPrinted 0 0 (some (print_escaped s ∷ []))
unfolding open_braces
print_escaped-IsPrinted s = (print_escaped s ∷ [], refl, λ d. refl)

pub nothing-IsPrinted : IsPrinted 0 0 (some [])
unfolding open_braces
nothing-IsPrinted = ([], refl, λ d. refl)
