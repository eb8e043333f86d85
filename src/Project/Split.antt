-- ===== src/Project/Split.antt =====
-- Strings split at slashes and joined by them.
use pushup.Base.{
  ℕ, ◌≡◌, ◌≢◌, refl, sym, ap, ◌∙◌, Bool, true, false, List, [], ◌∷◌, ◌++◌, ◌==◌, if◌then◌else◌,
  Bytes, All, Lacks, split, cons_first, join, arith, append_assoc,
}

abbrev IsCons : List Bytes → Type 0
IsCons [] = ⊥
IsCons (p ∷ ps) = Unit

split-IsCons : (sep : ℕ) (s : Bytes) → IsCons (split sep s)
unfolding split cons_first
split-IsCons sep [] = tt
split-IsCons sep (c ∷ s) = by_test (c == sep) (split sep s)
  where
    by_test : (t : Bool) (rest : List Bytes) → IsCons (if t then [] ∷ rest else cons_first c rest)
    by_test true rest = tt
    by_test false [] = tt
    by_test false (p ∷ ps) = tt

cons_first-append :
    (c : ℕ) (ps qs : List Bytes) → IsCons ps → cons_first c (ps ++ qs) ≡ cons_first c ps ++ qs
unfolding cons_first
cons_first-append c [] qs h = elim h [ ]
cons_first-append c (p ∷ ps) qs h = refl

-- A separator between two texts separates their parts.
pub split-append : (sep : ℕ) (a b : Bytes) → split sep (a ++ sep ∷ b) ≡ split sep a ++ split sep b
unfolding split
split-append sep [] b = ground arith
split-append sep (c ∷ a) b = by_test (c == sep) (split-append sep a b)
  where
    by_test :
        (t : Bool)
        → split sep (a ++ sep ∷ b) ≡ split sep a ++ split sep b
        → (if t then [] ∷ split sep (a ++ sep ∷ b) else cons_first c (split sep (a ++ sep ∷ b)))
          ≡ (if t then [] ∷ split sep a else cons_first c (split sep a)) ++ split sep b
    by_test true h = ap (◌∷◌ []) h
    by_test false h =
        ap (cons_first c) h ∙ cons_first-append c (split sep a) (split sep b) (split-IsCons sep a)

pub split-Lacks : (sep : ℕ) (p : Bytes) → Lacks sep p → split sep p ≡ p ∷ []
unfolding split cons_first
split-Lacks sep [] h = refl
split-Lacks sep (c ∷ p) (n, h) = ground (arith, n, split-Lacks sep p h)

pub split-join :
    (sep : ℕ) (p : Bytes) (ps : List Bytes)
    → All (Lacks sep) (p ∷ ps)
    → split sep (join sep (p ∷ ps)) ≡ p ∷ ps
unfolding join
split-join sep p [] (h, hs) = split-Lacks sep p h
split-join sep p (q ∷ ps) (h, hs) =
    split-append sep p (join sep (q ∷ ps))
    ∙ ap (λ l. l ++ split sep (join sep (q ∷ ps))) (split-Lacks sep p h)
    ∙ ap (◌∷◌ p) (split-join sep q ps hs)

cons_first-Lacks :
    (sep c : ℕ) (ps : List Bytes) → c ≢ sep → All (Lacks sep) ps → All (Lacks sep) (cons_first c ps)
unfolding cons_first
cons_first-Lacks sep c [] n _ = ((n, tt), tt)
cons_first-Lacks sep c (p ∷ ps) n (k, h) = ((n, k), h)

pub split-parts : (sep : ℕ) (s : Bytes) → All (Lacks sep) (split sep s)
unfolding split
split-parts sep [] = (tt, tt)
split-parts sep (c ∷ s) = by_test (c == sep) refl (split-parts sep s)
  where
    by_test :
        (t : Bool)
        → (c == sep) ≡ t
        → All (Lacks sep) (split sep s)
        → All (Lacks sep) (if t then [] ∷ split sep s else cons_first c (split sep s))
    by_test true e h = (tt, h)
    by_test false e h = cons_first-Lacks sep c (split sep s) (ground (arith, e)) h

pub join-append :
    (sep : ℕ) (p : Bytes) (ps : List Bytes) (q : Bytes) (qs : List Bytes)
    → join sep ((p ∷ ps) ++ q ∷ qs) ≡ join sep (p ∷ ps) ++ sep ∷ join sep (q ∷ qs)
unfolding join
join-append sep p [] q qs = refl
join-append sep p (r ∷ ps) q qs =
    ap (λ s. p ++ sep ∷ s) (join-append sep r ps q qs)
    ∙ sym (append_assoc p (sep ∷ join sep (r ∷ ps)) (sep ∷ join sep (q ∷ qs)))
