-- ===== src/Page/Made.antt =====
-- codegen.go: what `newPageFromTree` returns.
use pushup.Base.{
  ◌≤◌, ◌≡◌, ◌⊎◌, refl, sym, false, Option, none, some, List, [], length, codes, arith,
}
use mathlib.Core.Path.{subst}
use pushup.Tree.Node.{Node, SyntaxTree}
use pushup.Page.Defs.{PageError, PageResult, failed, made, new_pass, finish, new_page_from_tree}
use pushup.Page.Compact.{kept_of, all_of, visit_all, first_pass-new_pass, visit_all-new_pass}
use pushup.Page.Fields.{
  imports_of, handlers_of, layouts_of, sections_of, push_all, first_or, layout_or,
  visit_all-HasTaken,
}
use pushup.Page.Errors.{new_pass-HasCounted}

-- A result for the top-level nodes of a tree. The newest of the sections of one name is the first.
abbrev pub IsPageOf : List Node → PageResult → Type 0
IsPageOf nodes (failed e) =
    (2 ≤ length (all_of handlers_of nodes)) ⊎ (2 ≤ length (all_of layouts_of nodes))
IsPageOf nodes (made p) =
    (length (all_of handlers_of nodes) ≤ 1)
    × (length (all_of layouts_of nodes) ≤ 1)
    × (p.nodes ≡ all_of kept_of nodes)
    × (p.imports ≡ all_of imports_of nodes)
    × (p.handler ≡ first_or none (all_of handlers_of nodes))
    × (p.layout ≡ layout_or false (codes "default") (all_of layouts_of nodes))
    × (p.sections ≡ push_all (all_of sections_of nodes) [])

finish-IsPageOf :
    (nodes : List Node) (e : Option PageError)
    → (visit_all nodes (new_pass nodes)).error ≡ e
    → IsPageOf nodes (finish (visit_all nodes (new_pass nodes)) e)
unfolding finish new_pass
finish-IsPageOf nodes none q =
    let (a, b, c) = new_pass-HasCounted nodes in
    let (i, h, l, t, s) = visit_all-HasTaken nodes (new_pass nodes) in
    let (few, one) : (length (all_of handlers_of nodes) ≤ 1)
        × (length (all_of layouts_of nodes) ≤ 1) =
      ground (arith, c, q) in
    (few, one, visit_all-new_pass nodes, i, h, l, s)
finish-IsPageOf nodes (some e) q = let (a, b, c) = new_pass-HasCounted nodes in ground (arith, c, q)

-- newPageFromTree fails if and only if the tree has two or more handlers, or two or more layouts, at
-- its top level. Otherwise the page's nodes are those of the tree, in order, less its imports,
-- layouts, sections and handlers; it has the imports in order, the handler, the sections, of which
-- the last of a name counts, and the layout: "default" where none is named, and none for "!".
pub new_page_from_tree-IsPageOf :
    (tree : SyntaxTree) → IsPageOf tree.nodes (new_page_from_tree tree)
unfolding new_page_from_tree
new_page_from_tree-IsPageOf tree =
    subst (λ s. IsPageOf tree.nodes (finish s s.error)) (sym (first_pass-new_pass tree.nodes))
      (finish-IsPageOf tree.nodes (visit_all tree.nodes (new_pass tree.nodes)).error refl)
