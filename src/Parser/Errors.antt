-- ===== src/Parser/Errors.antt =====
-- parser.go: the place of a syntax error, as `errorf` computes it.
use pushup.Base.{
  ℕ, zero, suc, ◌+◌, ◌-◌, ◌≤◌, ◌≡◌, ◌≢◌, ◌⊎◌, inl, inr, refl, Bool, true, false, Option, none, some,
  [], ◌∷◌, leb, if◌then◌else◌, length, take, Bytes, count, arith,
}
use pushup.Parser.State.{
  Complaint, Parser, SyntaxError, syntax_error, crashed, later_newline, last_newline, column_of,
  error_at, error_in, raise, errorf,
}

count-take : (b n : ℕ) (s : Bytes) → count b (take n s) ≤ count b s
unfolding count
count-take b zero s = omega arith
count-take b (suc n) [] = omega arith
count-take b (suc n) (c ∷ s) = ground (arith, count-take b n s)

-- A newline that was found stands in the text.
later_newline-lt :
    (o : Option ℕ) (c n i : ℕ)
    → ((j : ℕ) → o ≡ some j → j + 1 ≤ n)
    → later_newline o c ≡ some i
    → i + 1 ≤ suc n
unfolding later_newline
later_newline-lt none c n i k h = ground (arith, h)
later_newline-lt (some j) c n i k h = ground (arith, h, k j refl)

last_newline-lt : (s : Bytes) (i : ℕ) → last_newline s ≡ some i → i + 1 ≤ length s
unfolding last_newline
last_newline-lt [] i h = ground (arith, h)
last_newline-lt (c ∷ s) i h =
    later_newline-lt (last_newline s) c (length s) i (λ j q. last_newline-lt s j q) h

length-take-le : (n : ℕ) (s : Bytes) → length (take n s) ≤ n
length-take-le zero s = omega arith
length-take-le (suc n) [] = omega arith
length-take-le (suc n) (c ∷ s) = omega (arith, length-take-le n s)

column_of-pos :
    (offset n : ℕ) (o : Option ℕ)
    → n ≤ offset
    → ((j : ℕ) → o ≡ some j → j + 1 ≤ n)
    → 1 ≤ column_of offset o
column_of-pos offset n none h k = omega arith
column_of-pos offset n (some j) h k = omega (arith, h, k j refl)

-- The place is a line of the source, and a column from 1 on.
abbrev pub IsPlace : Complaint → Parser → SyntaxError → Type 0
IsPlace c p e = (e.err ≡ c) × (1 ≤ e.line_no) × (e.line_no ≤ count b'\n' p.src + 1) × (1 ≤ e.column)

error_at-IsPlace :
    (c : Complaint) (offset : ℕ) (p : Parser)
    → offset ≤ p.offset
    → IsPlace c p (error_at c offset p)
unfolding error_at
error_at-IsPlace c offset p h =
    let up = take offset p.src in
    (
      refl,
      omega arith,
      omega (arith, count-take b'\n' offset p.src),
      column_of-pos p.offset (length up) (last_newline up)
          (omega (arith, h, length-take-le offset p.src)) (λ j q. last_newline-lt up j q),
    )

pub error_in-IsPlace : (c : Complaint) (src : Bytes) (p : Parser) → IsPlace c p (error_in c src p)
unfolding error_in
error_in-IsPlace c src p = by_test (leb (length src) p.offset) refl
  where
    by_test :
        (t : Bool)
        → leb (length src) p.offset ≡ t
        → IsPlace c p (if t then error_at c (length src - 1) p else error_at c p.offset p)
    by_test true h = error_at-IsPlace c (length src - 1) p (ground (arith, h))
    by_test false h = error_at-IsPlace c p.offset p (omega arith)

raise-IsPlace :
    (c : Complaint) (src : Bytes) (p : Parser)
    → src ≢ []
    → (e : SyntaxError) × (raise {A = Unit {0}} c src p ≡ syntax_error e) × IsPlace c p e
unfolding raise
raise-IsPlace c [] p n = absurd (n refl)
raise-IsPlace c (b ∷ src) p n = (error_in c (b ∷ src) p, refl, error_in-IsPlace c (b ∷ src) p)

-- In a source that is not empty, errorf panics with a syntaxError of the complaint, at a line of the
-- source, counted from 1, and at a column from 1 on. In an empty source it crashes, since the slice
-- of the source up to the error is out of range.
pub errorf_lem :
    (c : Complaint) (p : Parser)
    → ((p.src ≡ []) × (errorf {A = Unit {0}} c p ≡ crashed))
      ⊎ ((e : SyntaxError) × (errorf {A = Unit {0}} c p ≡ syntax_error e) × IsPlace c p e)
unfolding errorf
errorf_lem c p = by_src p.src refl
  where
    by_src :
        (src : Bytes)
        → p.src ≡ src
        → ((src ≡ []) × (raise {A = Unit {0}} c src p ≡ crashed))
          ⊎ ((e : SyntaxError) × (raise {A = Unit {0}} c src p ≡ syntax_error e) × IsPlace c p e)
    by_src [] h = inl (refl, refl)
    by_src (b ∷ src) h = inr (raise-IsPlace c (b ∷ src) p (ground arith))
