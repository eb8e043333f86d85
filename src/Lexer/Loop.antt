-- ===== src/Lexer/Loop.antt =====
-- The invariant rule of the loop in `openTagLexer.scan`.
use pushup.Base.{
  List, [], ◌∷◌, map, ◌⊎◌, inl, inr, true, Bool-cases, ◌==◌, length, ℕ, zero, suc, ◌≡◌, refl,
  Option, Bytes, ok, err, arith,
}
use pushup.Lexer.Defs.{Attr, new_open_tag_lexer, attrs, scan_error, runtime_error, Lexer, M}
use pushup.Lexer.States.{Flow, again, break_loop, step}
use pushup.Lexer.Scan.{
  Scanned, finished, panicked, out_of_fuel, parsed, recovered, build, enough, next, run, scan_attrs,
}
use pushup.Lexer.Rounds.{StateInv, Good, step-Good}

new-StateInv :
    (c : ℕ) (s : Bytes)
    → (c == b'<') ≡ true
    → StateInv (new_open_tag_lexer (c ∷ s)).state (new_open_tag_lexer (c ∷ s))
unfolding new_open_tag_lexer
new-StateInv c s e = (refl, e)

pub recovered-eq-parsed :
    (r : Scanned Lexer) (found : List Attr)
    → recovered r ≡ parsed found
    → (l : Lexer) × (r ≡ finished l) × (found ≡ map build (attrs l))
recovered-eq-parsed (finished l) found e = (l, refl, cc)
recovered-eq-parsed (panicked (scan_error x)) found e = cc
recovered-eq-parsed (panicked runtime_error) found e = cc
recovered-eq-parsed out_of_fuel found e = cc

module _ (Inv Post : Lexer → Type 0) where
  -- After a round that goes on the invariant holds; after one that leaves the loop, the result.
  abbrev pub Kept : M Flow → Type 0
  Kept (ok (again l)) = Inv l
  Kept (ok (break_loop l)) = Post l
  Kept (err _) = Unit

  module _ (refs : Bytes → Option Bytes)
      (keep : (l : Lexer) → StateInv l.state l → Inv l → Kept (step refs l)) where
    next-Post :
        (rounds : ℕ) (l : Lexer) (r : M Flow) (l' : Lexer)
        → ((m : Lexer) → StateInv m.state m → Inv m → run refs rounds m ≡ finished l' → Post l')
        → Good l r
        → Kept r
        → next (run refs rounds) r ≡ finished l'
        → Post l'
    next-Post rounds l (ok (again m)) l' rec g k e = rec m g.1 k e
    next-Post rounds l (ok (break_loop m)) l' rec g k e = ground arith
    next-Post rounds l (err p) l' rec g k e = cc

    pub run-Post :
        (fuel : ℕ) (l l' : Lexer)
        → StateInv l.state l
        → Inv l
        → run refs fuel l ≡ finished l'
        → Post l'
    unfolding run
    run-Post zero l l' g h e = cc
    run-Post (suc fuel) l l' g h e =
        next-Post fuel l (step refs l) l' (λ m. run-Post fuel m l') (step-Good refs l g)
          (keep l g h) e

    -- The rule for `scanAttrs`: what it returns are the attributes of a last state.
    pub scan_attrs-Post :
        (s : Bytes) (found : List Attr)
        → Inv (new_open_tag_lexer s)
        → scan_attrs refs s ≡ parsed found
        → (found ≡ []) ⊎ ((l : Lexer) × Post l × (found ≡ map build (attrs l)))
    unfolding scan_attrs
    scan_attrs-Post [] found h e = inl (ground arith)
    scan_attrs-Post (c ∷ s) found h e = elim (Bool-cases (c == b'<')) [
      | inl open_tag ↦
          let (l, ran, built) =
            recovered-eq-parsed (run refs (enough (suc (length s))) (new_open_tag_lexer (c ∷ s)))
              found (rw open_tag at e) in
          inr
            (l, run-Post _ (new_open_tag_lexer (c ∷ s)) l (new-StateInv c s open_tag) h ran, built)
      | inr other ↦ let e' = rw other at e in cc
    ]
