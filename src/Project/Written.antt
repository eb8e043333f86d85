-- ===== src/Project/Written.antt =====
-- compiler.go: the files that an action writes, and those of actions behind each other.
use pushup.Base.{
  ℕ, zero, suc, ◌+◌, ◌≡◌, ◌≢◌, refl, sym, ap, ◌∙◌, Bool, true, false, List, [], ◌∷◌, ◌++◌,
  if◌then◌else◌, length, take, Bytes, append-nil, append_assoc, ◌⊎◌, inl, inr, arith,
}
use pushup.Project.Build.{
  Call, write_code, write_file, execute_template, execute_main, go_build, Log, Os, Ending, returned,
  call_failed, parse_failed, page_failed, find_failed, exited, panicked_in_call, out_of_fuel,
  Action, after, ◌then_do◌, end_with, attempt,
}

-- The file that a call writes.
abbrev pub writes : Call → List Bytes
writes (write_code dest code) = dest ∷ []
writes (write_file dest text) = dest ∷ []
writes (execute_template dest static) = dest ∷ []
writes (execute_main dest pkg) = dest ∷ []
writes (go_build dest pkg) = dest ∷ []
writes c = []

unfoldable pub written : Log → List Bytes
written [] = []
written (c ∷ log) = writes c ++ written log

pub written-append : (log log' : Log) → written (log ++ log') ≡ written log ++ written log'
unfolding written
written-append [] log' = refl
written-append (c ∷ log) log' =
    ap (λ l. writes c ++ l) (written-append log log')
    ∙ sym (append_assoc (writes c) (written log) (written log'))

-- An action that returns has written just these files, in this order; if it ends in any other way, it
-- has written some of them, from the first on.
unfoldable pub Writes : Action → List Bytes → Type 0
Writes a outs =
    (log : Log)
    → ((a log).0 ≡ returned → written (a log).1 ≡ written log ++ outs)
      × ((k : ℕ) × (written (a log).1 ≡ written log ++ take k outs))

after-cases :
    (b : Action) (r : Ending × Log)
    → ((r.0 ≡ returned) × (after b r ≡ b r.1)) ⊎ ((r.0 ≢ returned) × (after b r ≡ r))
unfolding after
after-cases b (returned, log) = inl (refl, refl)
after-cases b (call_failed c, log) = inr (ground arith, refl)
after-cases b (parse_failed p e, log) = inr (ground arith, refl)
after-cases b (page_failed p e, log) = inr (ground arith, refl)
after-cases b (find_failed r, log) = inr (ground arith, refl)
after-cases b (exited, log) = inr (ground arith, refl)
after-cases b (panicked_in_call, log) = inr (ground arith, refl)
after-cases b (out_of_fuel, log) = inr (ground arith, refl)

take-append_plus : (xs ys : List Bytes) (k : ℕ) → take (length xs + k) (xs ++ ys) ≡ xs ++ take k ys
take-append_plus [] ys k = let e : 0 + k ≡ k = omega arith in ap (λ n. take n ys) e
take-append_plus (x ∷ xs) ys k =
    let e : suc (length xs) + k ≡ suc (length xs + k) = omega arith in
    ap (λ n. take n (x ∷ xs ++ ys)) e ∙ ap (◌∷◌ x) (take-append_plus xs ys k)

take-append_take : (k : ℕ) (xs ys : List Bytes) → take (length (take k xs)) (xs ++ ys) ≡ take k xs
take-append_take zero xs ys = refl
take-append_take (suc k) [] ys = refl
take-append_take (suc k) (x ∷ xs) ys = ap (◌∷◌ x) (take-append_take k xs ys)

take-all : (xs : List Bytes) → take (length xs) xs ≡ xs
take-all [] = refl
take-all (x ∷ xs) = ap (◌∷◌ x) (take-all xs)

pub Writes-then_do :
    (a b : Action) (xs ys : List Bytes)
    → Writes a xs
    → Writes b ys
    → Writes (a then_do b) (xs ++ ys)
unfolding Writes ◌then_do◌
Writes-then_do a b xs ys ha hb log =
    let (done, (k, part)) = ha log in
    elim (after-cases b (a log)) [
      | inl (e, f) ↦
          let (done', (k', part')) = hb (a log).1 in
          (
            λ g.
                ap (λ r. written r.1) f
                ∙ done' (sym (ap (λ r. r.0) f) ∙ g)
                ∙ ap (λ l. l ++ ys) (done e)
                ∙ append_assoc (written log) xs ys,
            (
              length xs + k',
              ap (λ r. written r.1) f
                  ∙ part'
                  ∙ ap (λ l. l ++ take k' ys) (done e)
                  ∙ append_assoc (written log) xs (take k' ys)
                  ∙ ap (λ l. written log ++ l) (sym (take-append_plus xs ys k')),
            ),
          )
      | inr (n, f) ↦ (
        λ g. elim (n (sym (ap (λ r. r.0) f) ∙ g)) [ ],
        (
          length (take k xs),
          ap (λ r. written r.1) f
              ∙ part
              ∙ ap (λ l. written log ++ l) (sym (take-append_take k xs ys)),
        ),
      )
    ]

pub Writes-returned : Writes (end_with returned) []
unfolding Writes
Writes-returned log = (λ e. sym (append-nil (written log)), (0, sym (append-nil (written log))))

pub Writes-other : (e : Ending) (outs : List Bytes) → e ≢ returned → Writes (end_with e) outs
unfolding Writes
Writes-other e outs n log = (λ f. elim (n f) [ ], (0, sym (append-nil (written log))))

pub Writes-attempt : (os : Os) (c : Call) → Writes (attempt os c) (writes c)
unfolding Writes attempt written
Writes-attempt os c log = by_test (os.fails log c)
  where
    by_test :
        (t : Bool)
        → let r : Ending × Log = if t then (call_failed c, log) else (returned, log ++ c ∷ []) in
          (r.0 ≡ returned → written r.1 ≡ written log ++ writes c)
          × ((k : ℕ) × (written r.1 ≡ written log ++ take k (writes c)))
    by_test true = (ground arith, (0, sym (append-nil (written log))))
    by_test false =
        let e = written-append log (c ∷ []) ∙ ap (λ l. written log ++ l) (append-nil (writes c)) in
        (λ _. e, (length (writes c), e ∙ ap (λ l. written log ++ l) (sym (take-all (writes c)))))
