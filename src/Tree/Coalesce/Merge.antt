-- ===== src/Tree/Coalesce/Merge.antt =====
-- What `coalesceLiterals` computes, by recursion on the list.
use pushup.Base.{
  suc, ◌+◌, ◌≡◌, refl, ap, Option, none, some, List, [], ◌∷◌, ◌++◌, append_assoc, length,
  get_elem?-append_end, get_elem?-append_next, set-append_end, take-append_end, drop-append_next,
  length-append, arith,
}
use pushup.Tree.Node.{Node, SyntaxTree}
use pushup.Tree.Coalesce.{joined, coalesce_round, coalesce_rounds, coalesce_literals, optimize}

-- The list `x ∷ ns`, where `x` takes in the literals behind it.
unfoldable pub merge : Node → List Node → List Node
merge x [] = x ∷ []
merge x (y ∷ ns) = elim (joined x y) [ some z ↦ merge z ns | none ↦ x ∷ merge y ns ]

module _ (before : List Node) (x y : Node) (ns : List Node) where
  round_joined :
      (z : Node)
      → joined x y ≡ some z
      → coalesce_round (before ++ x ∷ y ∷ ns) (length before)
        ≡ some (before ++ z ∷ ns, length before)
  unfolding coalesce_round
  round_joined z j =
      rw (get_elem?-append_end before x (y ∷ ns), get_elem?-append_next before x y ns)
        (rw j (
          rw
            (
              set-append_end before x z (y ∷ ns),
              drop-append_next before x y ns,
              take-append_end before z (y ∷ ns),
            )
            (rw append_assoc)))

  round_apart :
      joined x y ≡ none
      → coalesce_round (before ++ x ∷ y ∷ ns) (length before)
        ≡ some (before ++ x ∷ y ∷ ns, length before + 1)
  unfolding coalesce_round
  round_apart j =
      rw (get_elem?-append_end before x (y ∷ ns), get_elem?-append_next before x y ns) (rw j)

rounds-merge :
    (before : List Node) (x : Node) (ns : List Node)
    → coalesce_rounds (length ns) (before ++ x ∷ ns) (length before) ≡ some (before ++ merge x ns)
unfolding coalesce_rounds merge
rounds-merge before x [] = ap some (take-append_end before x [])
rounds-merge before x (y ∷ ns) =
    by_join (joined x y) refl (λ z. rounds-merge before z ns)
      (rw (append_assoc, append_assoc, length-append) at (rounds-merge (before ++ x ∷ []) y ns))
  where
    by_join :
        (j : Option Node)
        → joined x y ≡ j
        → ((z : Node)
            → coalesce_rounds (length ns) (before ++ z ∷ ns) (length before)
              ≡ some (before ++ merge z ns))
        → coalesce_rounds (length ns) (before ++ x ∷ y ∷ ns) (length before + 1)
          ≡ some (before ++ x ∷ merge y ns)
        → coalesce_rounds (suc (length ns)) (before ++ x ∷ y ∷ ns) (length before)
          ≡ some (before ++ merge x (y ∷ ns))
    by_join (some z) j rec rec' = ground (arith, round_joined before x y ns z j, j, rec z)
    by_join none j rec rec' = ground (arith, round_apart before x y ns j, j, rec')

unfoldable pub coalesced : List Node → List Node
coalesced [] = []
coalesced (x ∷ ns) = merge x ns

-- The slice, index and rounds of the source give the recursion, and no index is out of range.
coalesce_literals-coalesced : (ns : List Node) → coalesce_literals ns ≡ some (coalesced ns)
unfolding coalesce_literals coalesced
coalesce_literals-coalesced [] = refl
coalesce_literals-coalesced (x ∷ ns) = rounds-merge [] x ns

pub optimize-coalesced :
    (tree : SyntaxTree) → optimize tree ≡ some (record { nodes = coalesced tree.nodes })
unfolding optimize
optimize-coalesced tree = rw (coalesce_literals-coalesced tree.nodes, optimize)
