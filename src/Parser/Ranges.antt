-- ===== src/Parser/Ranges.antt =====
-- parser.go: literals that stand for consecutive ranges of a token (`emitLiteralFromRange`).
use pushup.Base.{
  ℕ, zero, suc, ◌+◌, ◌≤◌, ◌≡◌, refl, sym, ap, ◌∙◌, some, List, [], ◌∷◌, ◌++◌, length, take, drop,
  Bytes, arith,
}
use mathlib.Core.Path.{subst}
use pushup.Tree.Node.{Node, literal}
use pushup.Parser.State.{Parser, returned, slice}
use pushup.Parser.Html.{emit_literal_from_range}

-- The literals are those of the ranges from `from` to `to`, one after the other, of a token `raw` that
-- begins at `start`.
unfoldable pub Covers : ℕ → Bytes → ℕ → List Node → ℕ → Type 0
Covers start raw from [] to = from ≡ to
Covers start raw from (literal s span ∷ ns) to =
    (mid : ℕ) × (from + 1 ≤ length raw)
    × (slice from mid raw ≡ some s)
    × (span ≡ record { start = start + from; end = start + mid })
    × Covers start raw mid ns to
Covers start raw from (e ∷ ns) to = ⊥

-- The text of the literals.
abbrev pub text_of : Node → Bytes
text_of (literal s span) = s
text_of e = []

abbrev pub texts : List Node → Bytes
texts [] = []
texts (e ∷ ns) = text_of e ++ texts ns

pub Covers-append :
    (start : ℕ) (raw : Bytes) (from mid to : ℕ) (xs ys : List Node)
    → Covers start raw from xs mid
    → Covers start raw mid ys to
    → Covers start raw from (xs ++ ys) to
unfolding Covers
Covers-append start raw from mid to [] ys h k = subst (λ n. Covers start raw n ys to) (sym h) k
Covers-append start raw from mid to (literal s span ∷ xs) ys (m, l, a, b, h) k =
    (m, l, a, b, Covers-append start raw m mid to xs ys h k)
Covers-append start raw from mid to (_ ∷ xs) ys h k = absurd h

pub slice-some :
    (from to : ℕ) (s : Bytes)
    → from ≤ to
    → to ≤ length s
    → slice from to s ≡ some (drop from (take to s))
slice-some from to s h k = ground (arith, h, k)

drop-take :
    (from mid to : ℕ) (s : Bytes)
    → from ≤ mid
    → mid ≤ to
    → drop from (take mid s) ++ drop mid (take to s) ≡ drop from (take to s)
drop-take zero zero to s h k = refl
drop-take zero (suc mid) zero s h k = absurd (omega (arith, k))
drop-take zero (suc mid) (suc to) [] h k = refl
drop-take zero (suc mid) (suc to) (c ∷ s) h k =
    ap (◌∷◌ c) (drop-take zero mid to s (omega arith) (omega (arith, k)))
drop-take (suc from) zero to s h k = absurd (omega (arith, h))
drop-take (suc from) (suc mid) zero s h k = absurd (omega (arith, k))
drop-take (suc from) (suc mid) (suc to) [] h k = refl
drop-take (suc from) (suc mid) (suc to) (c ∷ s) h k =
    drop-take from mid to s (omega (arith, h)) (omega (arith, k))

pub take-all : (s : Bytes) → take (length s) s ≡ s
take-all [] = refl
take-all (c ∷ s) = ap (◌∷◌ c) (take-all s)

drop-take_self : (n : ℕ) (s : Bytes) → drop n (take n s) ≡ []
drop-take_self zero s = refl
drop-take_self (suc n) [] = refl
drop-take_self (suc n) (c ∷ s) = drop-take_self n s

slice-eq-some :
    (from to : ℕ) (s t : Bytes)
    → slice from to s ≡ some t
    → (from ≤ to) × (to ≤ length s) × (t ≡ drop from (take to s))
slice-eq-some from to s t h = ground (arith, h)

Covers-le :
    (start : ℕ) (raw : Bytes) (from to : ℕ) (ns : List Node)
    → Covers start raw from ns to
    → from ≤ to
unfolding Covers
Covers-le start raw from to [] h = omega (arith, h)
Covers-le start raw from to (literal s span ∷ ns) (m, l, a, b, h) =
    omega (arith, (slice-eq-some from m raw s a).0, Covers-le start raw m to ns h)
Covers-le start raw from to (_ ∷ ns) h = absurd h

-- The texts of the literals make up the text of the range.
pub texts-Covers :
    (start : ℕ) (raw : Bytes) (from to : ℕ) (ns : List Node)
    → Covers start raw from ns to
    → texts ns ≡ drop from (take to raw)
unfolding Covers
texts-Covers start raw from to [] h =
    sym (ap (λ n. drop from (take n raw)) (sym h) ∙ drop-take_self from raw)
texts-Covers start raw from to (literal s span ∷ ns) (m, l, a, b, h) =
    let (le, lt, e) = slice-eq-some from m raw s a in
    ap (λ t. t ++ texts ns) e
    ∙ (ap (λ t. drop from (take m raw) ++ t) (texts-Covers start raw m to ns h)
        ∙ drop-take from m to raw le (Covers-le start raw m to ns h))
texts-Covers start raw from to (_ ∷ ns) h = absurd h

-- One emitted range.
pub emit_literal_from_range-Covers :
    (from to : ℕ) (p : Parser)
    → from ≤ to
    → to ≤ length p.raw
    → from + 1 ≤ length p.raw
    → (n : Node) × (emit_literal_from_range from to p ≡ returned n p)
      × Covers p.start p.raw from (n ∷ []) to
unfolding Covers
emit_literal_from_range-Covers from to p h k l =
    let e = slice-some from to p.raw h k in
    (
      literal (drop from (take to p.raw)) (record { start = p.start + from; end = p.start + to }),
      ground (arith, h, k),
      (to, l, e, refl, refl),
    )
