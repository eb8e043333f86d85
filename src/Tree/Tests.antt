-- ===== src/Tree/Tests.antt =====
-- Runs of the optimizer and of `inspect`.
use pushup.Tree.Inspect.{inspect-run}
use Prim.Native.String.{String}
use pushup.Tree.Walk.{Visited, node, node_list, visit_with, walk, walk_all, inspect}
use pushup.Tree.Stream.{enter, leave, steps, steps_list, run}
use pushup.Base.{Bool, true, false, Option, suc, ℕ, some, [], ◌∷◌, ◌≡◌, refl, codes}
use pushup.Tree.Node.{Node, literal, block, element, nil, cons, SyntaxTree}
use pushup.Tree.Coalesce.{joined, coalesce_round, coalesce_literals, optimize}
use pushup.Tree.Optimize.{pieces, optimize-pieces, Settled, optimize-Settled}

abbrev text : String → ℕ → ℕ → Node
text s i j = literal (codes s) (record { start = i; end = j })

abbrev three_literals : SyntaxTree
three_literals = record {
  nodes = text "<p>" 0 3 ∷ text "a" 3 4 ∷ block nil ∷ text "b" 9 10 ∷ text "</p>" 10 14 ∷ [];
}

abbrev two_literals : SyntaxTree
two_literals = record { nodes = text "<p>a" 0 4 ∷ block nil ∷ text "b</p>" 9 14 ∷ [] }

optimize_runs : optimize three_literals ≡ some two_literals
unfolding optimize coalesce_literals coalesce_round joined
optimize_runs = refl

optimize-pieces_example :
    (out : SyntaxTree) × (optimize three_literals ≡ some out)
    × (pieces out.nodes ≡ pieces three_literals.nodes)
optimize-pieces_example = optimize-pieces three_literals

optimize-Settled_example : Settled two_literals.nodes
optimize-Settled_example = optimize-Settled three_literals two_literals optimize_runs

-- Counts the calls, and goes into no element.
abbrev counts_calls : ℕ → Option Visited → Bool × ℕ
counts_calls n (some (node (element t ss cs pos closing))) = (false, suc n)
counts_calls n v = (true, suc n)

abbrev nested : Node
nested = block (
    cons
      (element (record { name = []; attrs = [] }) nil (cons (text "a" 0 1) nil)
        (record { start = 0; end = 1 }) false)
      nil)

-- The list, the block and the element, and the ends of the list and the block.
five_calls : inspect counts_calls 0 (nested ∷ []) ≡ 5
unfolding inspect visit_with walk_all walk
five_calls = refl

inspect-run_example :
    inspect counts_calls 0 (nested ∷ [])
    ≡ run counts_calls 0 0 (
        enter (node_list (nested ∷ []))
        ∷ enter (node nested)
        ∷ enter (
            node (
              element
                (record { name = []; attrs = [] })
                nil
                (cons (text "a" 0 1) nil)
                (record { start = 0; end = 1 })
                false))
        ∷ enter (node (text "a" 0 1))
        ∷ leave
        ∷ leave
        ∷ leave
        ∷ leave
        ∷ [])
unfolding steps_list steps
inspect-run_example = inspect-run counts_calls 0 (nested ∷ [])
