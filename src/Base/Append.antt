-- ===== src/Base/Append.antt =====
-- Positions in a list `xs ++ y ∷ ys`, at and behind the end of `xs`.
use Prim.Native.Nat.{ℕ, zero, suc, ◌+◌, ◌≤◌, ◌<◌}
use mathlib.Core.Path.{◌≡◌, refl, ap}
use mathlib.Core.List.{List, [], ◌∷◌, ◌++◌}
use mathlib.Core.Option.{none, some}
use native.Mathlib.Nat.{suc-add}
use native.Mathlib.Omega.{arith}
use pushup.Base.Lists.{length, get_elem?, set, take, drop}

module _ {ℓ} {A : Type ℓ} where
  pub get_elem?-append_end :
      (xs : List A) (y : A) (ys : List A) → get_elem? (xs ++ y ∷ ys) (length xs) ≡ some y
  get_elem?-append_end [] y ys = refl
  get_elem?-append_end (x ∷ xs) y ys = get_elem?-append_end xs y ys

  pub get_elem?-append_next :
      (xs : List A) (y z : A) (ys : List A) → get_elem? (xs ++ y ∷ z ∷ ys) (length xs + 1) ≡ some z
  get_elem?-append_next [] y z ys = refl
  get_elem?-append_next (x ∷ xs) y z ys = rw suc-add (get_elem?-append_next xs y z ys)

  pub set-append_end :
      (xs : List A) (y v : A) (ys : List A) → set (xs ++ y ∷ ys) (length xs) v ≡ xs ++ v ∷ ys
  set-append_end [] y v ys = refl
  set-append_end (x ∷ xs) y v ys = ap (◌∷◌ x) (set-append_end xs y v ys)

  pub take-append_end :
      (xs : List A) (y : A) (ys : List A) → take (length xs + 1) (xs ++ y ∷ ys) ≡ xs ++ y ∷ []
  take-append_end [] y ys = refl
  take-append_end (x ∷ xs) y ys = rw suc-add (ap (◌∷◌ x) (take-append_end xs y ys))

  pub drop-append_next :
      (xs : List A) (y z : A) (ys : List A) → drop (length xs + 2) (xs ++ y ∷ z ∷ ys) ≡ ys
  drop-append_next [] y z ys = refl
  drop-append_next (x ∷ xs) y z ys = rw suc-add (drop-append_next xs y z ys)

  -- The last element, and the elements before it.
  pub get_elem?-last :
      (n : ℕ) (xs : List A) (y : A)
      → length xs ≡ n + 1
      → get_elem? xs n ≡ some y
      → xs ≡ take n xs ++ y ∷ []
  get_elem?-last n [] y l h = ground arith
  get_elem?-last zero (x ∷ []) y l h = ground arith
  get_elem?-last zero (x ∷ z ∷ xs) y l h = ground arith
  get_elem?-last (suc n) (x ∷ xs) y l h = ap (◌∷◌ x) (get_elem?-last n xs y (omega (arith, l)) h)

  pub get_elem?-none : (n : ℕ) (xs : List A) → get_elem? xs n ≡ none → length xs ≤ n
  get_elem?-none n [] h = omega arith
  get_elem?-none zero (x ∷ xs) h = ground arith
  get_elem?-none (suc n) (x ∷ xs) h = omega (arith, get_elem?-none n xs h)

  pub length-zero : (xs : List A) → length xs ≡ 0 → xs ≡ []
  length-zero [] h = refl
  length-zero (x ∷ xs) h = ground arith

  pub get_elem?-lt : (n : ℕ) (xs : List A) (y : A) → get_elem? xs n ≡ some y → n < length xs
  get_elem?-lt n [] y h = ground arith
  get_elem?-lt zero (x ∷ xs) y h = omega arith
  get_elem?-lt (suc n) (x ∷ xs) y h = omega (arith, get_elem?-lt n xs y h)
