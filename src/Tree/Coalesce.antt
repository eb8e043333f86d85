-- ===== src/Tree/Coalesce.antt =====
-- ast.go: `coalesceLiterals`, on the slice and its index.
pub mod Merge
use pushup.Base.{
  ℕ, zero, suc, ◌+◌, ◌-◌, Bool, true, false, ◌&&◌, Option, none, some, List, [], ◌∷◌, ◌++◌, ltb,
  if◌then◌else◌, length, get_elem?, take, drop, set, Bytes,
}
use pushup.Tree.Node.{Span, Node, literal, SyntaxTree}

-- `this.str += next.str; this.pos.end = next.pos.end`, where both are literals and the first is
-- shorter than 512 bytes.
unfoldable pub joined : Node → Node → Option Node
joined (literal s p) (literal t q) =
    if ltb (length s) 512 then some (literal (s ++ t) (record p { end = q.end })) else none
joined _ _ = none

-- One round, on the slice and `n`. `none` is an index out of range.
shrink : List Node → ℕ → Option Node → List Node × ℕ
shrink nodes n (some this) = (take (n + 1) (set nodes n this) ++ drop (n + 2) nodes, n)
shrink nodes n none = (nodes, n + 1)

coalesce_at : List Node → ℕ → Option Node → Option Node → Option (List Node × ℕ)
coalesce_at nodes n (some this) (some next) = some (shrink nodes n (joined this next))
coalesce_at nodes n (some this) none = none
coalesce_at nodes n none next = none

unfoldable pub coalesce_round : List Node → ℕ → Option (List Node × ℕ)
unfolding coalesce_at shrink
coalesce_round nodes n = coalesce_at nodes n (get_elem? nodes n) (get_elem? nodes (n + 1))

-- `for range nodes[:len(nodes)-1]`, by the rounds that are left; then `nodes[:n+1]`.
unfoldable pub coalesce_rounds : ℕ → List Node → ℕ → Option (List Node)
coalesce_rounds zero nodes n = some (take (n + 1) nodes)
coalesce_rounds (suc rounds) nodes n = elim (coalesce_round nodes n) [
  | some (nodes', n') ↦ coalesce_rounds rounds nodes' n'
  | none ↦ none
]

unfoldable pub coalesce_literals : List Node → Option (List Node)
unfolding coalesce_rounds
coalesce_literals [] = some []
coalesce_literals (x ∷ xs) = coalesce_rounds (length xs) (x ∷ xs) 0

-- `optimize`; `none` is an index out of range.
unfoldable pub optimize : SyntaxTree → Option SyntaxTree
optimize tree = elim (coalesce_literals tree.nodes) [
  | some nodes ↦ some (record { nodes = nodes })
  | none ↦ none
]
