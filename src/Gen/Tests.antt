-- ===== src/Gen/Tests.antt =====
-- A run of genNode, and the theorem on it at a concrete page.
use Prim.Native.String.{String}
use pushup.Base.{
  ℕ, ◌-◌, leb, ◌&&◌, ◌||◌, if◌then◌else◌, Bool, true, false, equal, none, some, List, [], ◌∷◌, ◌≡◌,
  refl, Bytes, codes, count, All, arith,
}
use pushup.Tree.Node.{Span, Node, nil, cons, alt, literal, go_str_expr, if_stmt, partial, GoStrExpr}
use pushup.Gen.Defs.{
  Print, write_string, print_escaped, if_open, else_open, brace_close, line_directive, line_no,
  node_line_no, gen_node, generate,
}
use pushup.Gen.Layout.{new_layout_from_tree, gen_layout_node, generate_layout}
use pushup.Gen.Partials.{LacksPartial, generate_layout-generate}
use pushup.Gen.Inline.{
  prepend, proceed, one_behind, prints_of, in_scope, set_scope, enter, gen_inline, gen_node_partial,
}
use pushup.Gen.Scopes.{IsPlain}
use pushup.Gen.Silent.{IsSilent, gen_node_partial-gen_node}
use pushup.Gen.Typenames.{typename_from_path, name_loop, replace_dollar, typename_from_path_lem}
use pushup.Gen.Braces.{open_braces}
use pushup.Gen.Balanced.{IsPlaced, generate-IsBalanced}

abbrev at : ℕ → ℕ → Span
at i j = record { start = i; end = j }

abbrev expr : String → ℕ → ℕ → GoStrExpr
expr s i j = record { expr = codes s; pos = at i j }

abbrev source : Bytes
source = codes "^if ok {<b>}\n^else {^name}"

abbrev page_nodes : List Node
page_nodes =
    if_stmt (expr "ok" 4 6) (cons (literal (codes "<b>") (at 8 11)) nil)
      (alt (go_str_expr (expr "name" 21 25)))
    ∷ []

generate_run :
    generate true source page_nodes
    ≡ some (
        if_open (codes "ok")
        ∷ line_directive 1
        ∷ write_string (codes "<b>")
        ∷ else_open
        ∷ line_directive 2
        ∷ print_escaped (codes "name")
        ∷ brace_close
        ∷ [])
unfolding generate gen_node node_line_no line_no count
generate_run = refl

page_nodes-IsPlaced : All (IsPlaced true source) page_nodes
unfolding IsPlaced
page_nodes-IsPlaced = (((omega arith, tt), omega arith), tt)

generate-IsBalanced_example :
    (ps : List Print) × (generate true source page_nodes ≡ some ps) × (open_braces ps 0 ≡ some 0)
generate-IsBalanced_example = generate-IsBalanced true source page_nodes page_nodes-IsPlaced

page_nodes-LacksPartial : All LacksPartial page_nodes
unfolding LacksPartial
page_nodes-LacksPartial = (((tt, tt), tt), tt)

generate_layout-generate_example :
    (generate_layout true source (new_layout_from_tree (record { nodes = page_nodes })).nodes
      ≡ generate true source page_nodes)
    × ((new_layout_from_tree (record { nodes = page_nodes })).imports ≡ [])
generate_layout-generate_example =
    generate_layout-generate true source (record { nodes = page_nodes }) page_nodes-LacksPartial

-- The layout's generator panics at a partial, and its imports stay in the tree.
layout_partial : gen_layout_node true source (partial (codes "p") (at 0 1) nil) ≡ none
unfolding gen_layout_node
layout_partial = refl

-- The test for the partial of a name.
abbrev named : Bytes → Node → Bool
named wanted (partial name pos body) = equal wanted name
named wanted e = false

abbrev partial_page : List Node
partial_page =
    literal (codes "<b>") (at 0 3)
    ∷ partial (codes "p") (at 4 6) (cons (literal (codes "hi") (at 7 9)) nil)
    ∷ literal (codes "</b>") (at 10 14)
    ∷ []

gen_node_partial-gen_node_example :
    gen_node_partial false source (named (codes "p")) partial_page false
    ≡ some (write_string (codes "hi") ∷ [], false)
unfolding prints_of gen_node node_line_no equal IsSilent IsPlain
gen_node_partial-gen_node_example =
    gen_node_partial-gen_node false source (named (codes "p")) (literal (codes "<b>") (at 0 3) ∷ [])
      (literal (codes "</b>") (at 10 14) ∷ []) (codes "p") (at 4 6)
      (cons (literal (codes "hi") (at 7 9)) nil) (tt, tt) (tt, tt) refl (tt, tt)

-- What stands behind a nested partial is lost.
nested_partial :
    gen_node_partial false source
      (named (codes "p"))
      (partial
          (codes "p")
          (at 0 1)
          (cons (partial (codes "q") (at 2 3) nil) (cons (literal (codes "lost") (at 4 8)) nil))
        ∷ [])
      false
    ≡ some ([], false)
unfolding gen_node_partial gen_inline one_behind proceed prepend prints_of enter set_scope in_scope
    equal
nested_partial = refl

-- ASCII letters, and their upper case.
abbrev letter : ℕ → Bool
letter r = (leb 97 r && leb r 122) || (leb 65 r && leb r 90)

abbrev upper : ℕ → ℕ
upper r = if leb 97 r then r - 32 else r

abbrev typename : List ℕ → List ℕ
typename = typename_from_path letter (λ r. false) upper

typename_run : typename (codes "users/$id") ≡ codes "UsersDollarSignId"
unfolding typename_from_path name_loop replace_dollar
typename_run = refl

typename_from_path_lem_example : typename (codes "a/b") ≡ typename (codes "a-b")
typename_from_path_lem_example =
    typename_from_path_lem letter (λ r. false) upper (codes "a") (codes "b") b'/' b'-' (refl, refl)
      (refl, refl)
