-- ===== src/Lexer/Total.antt =====
-- How `scanAttrs` ends, on the fuel that it is given (lexer.go).
use pushup.Base.{
  ℕ, zero, suc, ◌<◌, ◌≡◌, refl, ◌⊎◌, inl, inr, Option, List, [], ◌∷◌, Bool-cases, ◌==◌, Bytes, ok,
  err, arith,
}
use pushup.Lexer.Defs.{Attr, ScanError, scan_error, runtime_error, Lexer, new_open_tag_lexer, M}
use pushup.Lexer.States.{Flow, again, break_loop, step}
use pushup.Lexer.Scan.{
  Scanned, finished, panicked, out_of_fuel, parsed, failed, recovered, next, run, scan_attrs,
}
use pushup.Lexer.Rounds.{measure, StateInv, Good, step-Good}

-- The scan ended by leaving the loop, or by an error of type openTagScanError.
abbrev Returned : Scanned Lexer → Type 0
Returned (finished l) = Unit
Returned (panicked (scan_error e)) = Unit
Returned (panicked runtime_error) = ⊥
Returned out_of_fuel = ⊥

next-Returned :
    (l : Lexer) (rounds : Lexer → Scanned Lexer) (r : M Flow)
    → Good l r
    → ((l' : Lexer) → StateInv l'.state l' → measure l' < measure l → Returned (rounds l'))
    → Returned (next rounds r)
next-Returned l rounds (ok (again l')) g rec = rec l' g.1 g.0
next-Returned l rounds (ok (break_loop l')) g rec = tt
next-Returned l rounds (err (scan_error e)) g rec = tt
next-Returned l rounds (err runtime_error) g rec = g

recovered-Returned :
    (r : Scanned Lexer)
    → Returned r
    → ((found : List Attr) × (recovered r ≡ parsed found))
      ⊎ ((e : ScanError) × (recovered r ≡ failed e))
recovered-Returned (finished l) h = inl (_, refl)
recovered-Returned (panicked (scan_error e)) h = inr (e, refl)
recovered-Returned (panicked runtime_error) h = absurd h
recovered-Returned out_of_fuel h = absurd h

module _ (refs : Bytes → Option Bytes) where
  run-Returned :
      (fuel : ℕ) (l : Lexer) → StateInv l.state l → measure l < fuel → Returned (run refs fuel l)
  unfolding run
  run-Returned zero l h m = absurd (omega arith)
  run-Returned (suc fuel) l h m =
      next-Returned l (run refs fuel) (step refs l) (step-Good refs l h)
        λ l' k m'. run-Returned fuel l' k (omega arith)

  -- For every text and every table of character references, `scanAttrs` returns attributes or an
  -- error of type openTagScanError: the loop ends, and no other panic leaves the function.
  pub scan_attrs_total :
      (s : Bytes)
      → ((found : List Attr) × (scan_attrs refs s ≡ parsed found))
        ⊎ ((e : ScanError) × (scan_attrs refs s ≡ failed e))
  unfolding scan_attrs new_open_tag_lexer
  scan_attrs_total [] = inl ([], refl)
  scan_attrs_total (c ∷ s) = elim (Bool-cases (c == b'<')) [
    | inl open_tag ↦ rw open_tag (
        recovered-Returned _
          (run-Returned _ (new_open_tag_lexer (c ∷ s)) (refl, open_tag) (omega arith)))
    | inr other ↦ rw other (inr (_, refl))
  ]
