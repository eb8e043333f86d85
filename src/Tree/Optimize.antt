-- ===== src/Tree/Optimize.antt =====
-- ast.go: what `optimize` keeps of a tree, and what it brings about.
use pushup.Base.{
  ℕ, ◌≤◌, ◌≡◌, refl, Option, none, some, List, [], ◌∷◌, ◌++◌, map, append_assoc, length, arith,
}
use mathlib.Core.List.{map-append}
use pushup.Tree.Node.{Node, literal, block, nil, SyntaxTree}
use pushup.Tree.Coalesce.{joined, optimize}
use pushup.Tree.Coalesce.Merge.{merge, coalesced, optimize-coalesced}

-- What a list of nodes stands for: the bytes of its literals, and its other nodes, in order.
pub data Piece : Type 0 where
  byte : ℕ → Piece
  other : Node → Piece

abbrev pub pieces_of : Node → List Piece
pieces_of (literal s p) = map byte s
pieces_of n = other n ∷ []

abbrev pub pieces : List Node → List Piece
pieces [] = []
pieces (n ∷ ns) = pieces_of n ++ pieces ns

pieces_of-joined : (x y z : Node) → joined x y ≡ some z → pieces_of z ≡ pieces_of x ++ pieces_of y
unfolding joined
pieces_of-joined (literal s p) (literal t q) z j = ground (arith, map-append byte s t)
pieces_of-joined _ y z j = cc

pieces-merge : (x : Node) (ns : List Node) → pieces (merge x ns) ≡ pieces_of x ++ pieces ns
unfolding merge
pieces-merge x [] = refl
pieces-merge x (y ∷ ns) = by_join (joined x y) refl (λ z. pieces-merge z ns) (pieces-merge y ns)
  where
    by_join :
        (j : Option Node)
        → joined x y ≡ j
        → ((z : Node) → pieces (merge z ns) ≡ pieces_of z ++ pieces ns)
        → pieces (merge y ns) ≡ pieces_of y ++ pieces ns
        → pieces (merge x (y ∷ ns)) ≡ pieces_of x ++ pieces (y ∷ ns)
    by_join (some z) j rec rec' = ground (
      arith,
      j,
      rec z,
      pieces_of-joined x y z j,
      append_assoc (pieces_of x) (pieces_of y) (pieces ns),
    )
    by_join none j rec rec' = ground (arith, j, rec')

-- Two neighbours that the optimizer leaves: not two literals, or the first has 512 bytes or more.
abbrev pub IsApart : Node → Node → Type 0
IsApart (literal s p) (literal t q) = 512 ≤ length s
IsApart _ _ = Unit

abbrev pub Settled : List Node → Type 0
Settled [] = Unit
Settled (x ∷ []) = Unit
Settled (x ∷ y ∷ ns) = IsApart x y × Settled (y ∷ ns)

joined-IsApart : (x y : Node) → joined x y ≡ none → IsApart x y
unfolding joined
joined-IsApart (literal s p) (literal t q) j = ground arith
joined-IsApart _ y j = tt

IsApart-joined : (x y z w : Node) → joined y w ≡ some z → IsApart x y → IsApart x z
unfolding joined
IsApart-joined (literal s p) (literal t q) z (literal u r) j h = ground arith
IsApart-joined _ (literal t q) z (literal u r) j h = tt
IsApart-joined x _ z w j h = cc

-- Behind a node that is apart from `y`, the neighbours of the merged list are apart.
Settled-merge : (x y : Node) (ns : List Node) → IsApart x y → Settled (x ∷ merge y ns)
unfolding merge
Settled-merge x y [] h = (h, tt)
Settled-merge x y (w ∷ ns) h =
    by_join (joined y w) refl (λ z. Settled-merge x z ns) (Settled-merge y w ns)
  where
    by_join :
        (j : Option Node)
        → joined y w ≡ j
        → ((z : Node) → IsApart x z → Settled (x ∷ merge z ns))
        → (IsApart y w → Settled (y ∷ merge w ns))
        → Settled (x ∷ merge y (w ∷ ns))
    by_join (some z) j rec rec' = rw (j, merge) (rec z (IsApart-joined x y z w j h))
    by_join none j rec rec' = rw (j, merge) (h, rec' (joined-IsApart y w j))

Settled-tail : (x : Node) (ns : List Node) → Settled (x ∷ ns) → Settled ns
Settled-tail x [] h = tt
Settled-tail x (y ∷ ns) h = h.1

pieces-coalesced : (ns : List Node) → pieces (coalesced ns) ≡ pieces ns
unfolding coalesced
pieces-coalesced [] = refl
pieces-coalesced (x ∷ ns) = pieces-merge x ns

Settled-coalesced : (ns : List Node) → Settled (coalesced ns)
unfolding coalesced
Settled-coalesced [] = tt
Settled-coalesced (x ∷ ns) =
    Settled-tail (block nil) (merge x ns) (Settled-merge (block nil) x ns tt)

-- The optimizer never indexes out of range, and its tree stands for the same bytes of HTML and the
-- same other nodes in the same order.
pub optimize-pieces :
    (tree : SyntaxTree)
    → (out : SyntaxTree) × (optimize tree ≡ some out) × (pieces out.nodes ≡ pieces tree.nodes)
optimize-pieces tree = (_, optimize-coalesced tree, pieces-coalesced tree.nodes)

-- In the optimizer's tree no literal of less than 512 bytes stands right before another literal.
pub optimize-Settled :
    (tree : SyntaxTree) (out : SyntaxTree) → optimize tree ≡ some out → Settled out.nodes
optimize-Settled tree out e =
    let same : out.nodes ≡ coalesced tree.nodes = cc (optimize-coalesced tree, e) in
    rw same (Settled-coalesced tree.nodes)
