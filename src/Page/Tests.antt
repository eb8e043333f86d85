-- ===== src/Page/Tests.antt =====
-- Runs of newPageFromTree, and the theorems on it at a concrete tree.
use Prim.Native.String.{String}
use pushup.Base.{ℕ, some, [], ◌∷◌, ◌≡◌, refl, map, codes, join, equal}
use pushup.Tree.Node.{
  Span, Node, nil, cons, literal, go_code, layout, section, partial, GoCode, handler_go_code,
  SyntaxTree,
}
use pushup.Page.Defs.{
  Page, sub_partial, top_partial, failed, made, only_one_handler, urlpath, first_pass, visit,
  new_pass, collect, new_page_from_tree,
}
use pushup.Page.Compact.{all_of}
use pushup.Page.Made.{IsPageOf, new_page_from_tree-IsPageOf}
use pushup.Page.Partials.{paths_of, new_page_from_tree-urlpath}

abbrev at : ℕ → ℕ → Span
at i j = record { start = i; end = j }

abbrev text : String → Node
text s = literal (codes s) (at 0 1)

abbrev handler : GoCode
handler = record { context = handler_go_code; code = codes "return nil"; pos = at 2 9 }

-- A partial `leaf` in a partial `tree`, and a partial in a section.
abbrev leaf : Node
leaf = partial (codes "leaf") (at 5 6) (cons (text "x") nil)

abbrev nested : Node
nested = partial (codes "tree") (at 3 4) (cons leaf (cons (text "y") nil))

abbrev example_tree : SyntaxTree
example_tree = record {
  nodes =
      go_code handler
      ∷ text "a"
      ∷ layout (codes "!") (at 1 2)
      ∷ section (codes "side") (at 3 9) (cons leaf nil)
      ∷ nested
      ∷ [];
}

abbrev two_handlers : SyntaxTree
two_handlers = record { nodes = go_code handler ∷ go_code handler ∷ [] }

fails_on_two : new_page_from_tree two_handlers ≡ failed only_one_handler
unfolding new_page_from_tree first_pass new_pass visit
fails_on_two = refl

-- The partial in the section is none of the page's.
abbrev example_page : Page
example_page = record {
  layout = [];
  imports = [];
  handler = some handler;
  nodes = text "a" ∷ nested ∷ [];
  sections = (codes "side", cons leaf nil) ∷ [];
  partials =
      sub_partial leaf (codes "leaf") (top_partial nested (codes "tree"))
      ∷ top_partial nested (codes "tree")
      ∷ [];
}

makes_page : new_page_from_tree example_tree ≡ made example_page
unfolding new_page_from_tree first_pass new_pass visit collect equal
makes_page = refl

nested_paths : map urlpath example_page.partials ≡ codes "tree/leaf" ∷ codes "tree" ∷ []
unfolding urlpath join
nested_paths = refl

new_page_from_tree-urlpath_example :
    map urlpath example_page.partials ≡ all_of (paths_of []) example_page.nodes
new_page_from_tree-urlpath_example = new_page_from_tree-urlpath example_tree example_page makes_page

new_page_from_tree-IsPageOf_example : IsPageOf example_tree.nodes (new_page_from_tree example_tree)
new_page_from_tree-IsPageOf_example = new_page_from_tree-IsPageOf example_tree
