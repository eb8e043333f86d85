-- ===== src/Gen/Typenames.antt =====
-- codegen.go: `typenameFromPath`, on the characters of a path. The tests and the upper case of package
-- unicode are parameters.
use pushup.Base.{
  ℕ, ◌≡◌, refl, sym, ap, ◌∙◌, Bool, true, false, ◌||◌, List, [], ◌∷◌, ◌++◌, ◌==◌, if◌then◌else◌,
  codes,
}

-- strings.ReplaceAll of "$" by "DollarSign_".
unfoldable pub replace_dollar : List ℕ → List ℕ
replace_dollar [] = []
replace_dollar (r ∷ path) =
    let rest = replace_dollar path in if r == b'$' then codes "DollarSign_" ++ rest else r ∷ rest

module _ (is_letter is_number : ℕ → Bool) (to_upper : ℕ → ℕ) where
  abbrev pub in_name : ℕ → Bool
  in_name r = is_letter r || is_number r

  -- The loop, by the variable wordBoundary.
  unfoldable pub name_loop : Bool → List ℕ → List ℕ
  name_loop word_boundary [] = []
  name_loop word_boundary (r ∷ path) =
      let inside = name_loop false path in
      let outside = name_loop true path in
      if in_name r then (if word_boundary then to_upper r else r) ∷ inside else outside

  unfoldable pub typename_from_path : List ℕ → List ℕ
  typename_from_path path = name_loop true (replace_dollar path)

  replace_dollar-append :
      (a b : List ℕ) → replace_dollar (a ++ b) ≡ replace_dollar a ++ replace_dollar b
  unfolding replace_dollar
  replace_dollar-append [] b = refl
  replace_dollar-append (r ∷ a) b = by_test (r == b'$') (replace_dollar-append a b)
    where
      by_test :
          (t : Bool)
          → replace_dollar (a ++ b) ≡ replace_dollar a ++ replace_dollar b
          → (if t
              then codes "DollarSign_" ++ replace_dollar (a ++ b)
              else r ∷ replace_dollar (a ++ b))
            ≡ (if t then codes "DollarSign_" ++ replace_dollar a else r ∷ replace_dollar a)
              ++ replace_dollar b
      by_test true h = ap (λ rest. codes "DollarSign_" ++ rest) h
      by_test false h = ap (λ rest. r ∷ rest) h

  -- A character that is no part of a name.
  abbrev pub IsSeparator : ℕ → Type 0
  IsSeparator r = (in_name r ≡ false) × ((r == b'$') ≡ false)

  name_loop-separator :
      (word_boundary : Bool) (a b : List ℕ) (r r' : ℕ)
      → in_name r ≡ false
      → in_name r' ≡ false
      → name_loop word_boundary (a ++ r ∷ b) ≡ name_loop word_boundary (a ++ r' ∷ b)
  unfolding name_loop
  name_loop-separator word_boundary [] b r r' h h' = rw (h, h') refl
  name_loop-separator word_boundary (c ∷ a) b r r' h h' =
      rw (name_loop-separator true a b r r' h h', name_loop-separator false a b r r' h h') refl

  replace_dollar-cons :
      (r : ℕ) (b : List ℕ) → (r == b'$') ≡ false → replace_dollar (r ∷ b) ≡ r ∷ replace_dollar b
  unfolding replace_dollar
  replace_dollar-cons r b h = rw h refl

  -- Two paths that differ in a separator alone, say `a/b` and `a-b`, have the same type name: a character
  -- that is no letter, number or `$` leaves no trace but the word boundary.
  pub typename_from_path_lem :
      (a b : List ℕ) (r r' : ℕ)
      → IsSeparator r
      → IsSeparator r'
      → typename_from_path (a ++ r ∷ b) ≡ typename_from_path (a ++ r' ∷ b)
  unfolding typename_from_path
  typename_from_path_lem a b r r' (h, k) (h', k') =
      ap (name_loop true) (
        replace_dollar-append a (r ∷ b)
        ∙ ap (λ s. replace_dollar a ++ s) (replace_dollar-cons r b k))
      ∙ (name_loop-separator true (replace_dollar a) (replace_dollar b) r r' h h'
          ∙ ap (name_loop true) (
              sym (
                replace_dollar-append a (r' ∷ b)
                ∙ ap (λ s. replace_dollar a ++ s) (replace_dollar-cons r' b k'))))
