-- ===== src/Gen/Layout.antt =====
-- codegen.go: `newLayoutFromTree` and `layoutCodeGen.genNode`, with what it prints as a list of its
-- prints.
use pushup.Base.{Bool, Option, none, some, List, [], ◌∷◌, ◌++◌, Bytes}
use pushup.Tree.Node.{
  Node, Nodes, Alt, nil, cons, no_alt, alt, literal, element, go_str_expr, go_code, if_stmt,
  for_stmt, block, section, import_decl, layout, partial, ImportDecl, SyntaxTree,
}
use pushup.Gen.Defs.{
  Print, write_string, print_escaped, if_open, for_open, else_open, brace_close, end_tag, andthen,
  node_line_no, gen_code,
}

-- What `inspect` calls its function with.
pub data Item : Type 0 where
  one : Node → Item
  node_list : List Node → Item

pub record Layout : Type 0 where
  pub imports : List ImportDecl
  pub nodes : List Item

-- The function that `newLayoutFromTree` gives to `inspect`. It returns false, so `inspect` goes no
-- further than the item that it is called with.
unfoldable pub visit_layout : Item → Layout → Layout
visit_layout (one (import_decl decl pos)) s = record s { imports = s.imports ++ decl ∷ [] }
visit_layout e s = record s { nodes = s.nodes ++ e ∷ [] }

unfoldable pub new_layout_from_tree : SyntaxTree → Layout
unfolding visit_layout
new_layout_from_tree tree =
    visit_layout (node_list tree.nodes) (record { imports = []; nodes = [] })

module _ (line_directives_enabled : Bool) (source : Bytes) where
  unfoldable mutual
    pub gen_layout_node : Node → Option (List Print)
    gen_layout_node (literal s pos) =
        andthen (node_line_no line_directives_enabled source pos) (some (write_string s ∷ []))
    gen_layout_node (element t start_tag_nodes children pos closing) =
        andthen (node_line_no line_directives_enabled source pos) (
          andthen (gen_layout_all start_tag_nodes)
            (andthen (gen_layout_all children) (some (write_string (end_tag t) ∷ []))))
    gen_layout_node (go_str_expr e) =
        andthen (node_line_no line_directives_enabled source e.pos)
          (some (print_escaped e.expr ∷ []))
    gen_layout_node (go_code e) = gen_code line_directives_enabled source e.context e
    gen_layout_node (if_stmt cond then_block else_alt) =
        andthen (some (if_open cond.expr ∷ []))
          (andthen (gen_layout_all then_block) (gen_layout_alt else_alt))
    gen_layout_node (for_stmt clause body) =
        andthen (some (for_open clause.code ∷ []))
          (andthen (gen_layout_all body) (some (brace_close ∷ [])))
    gen_layout_node (block body) = gen_layout_all body
    gen_layout_node (section name pos body) = gen_layout_all body
    gen_layout_node (partial name pos body) = none
    gen_layout_node (layout name pos) = some []
    gen_layout_node (import_decl decl pos) = some []

    pub gen_layout_all : Nodes → Option (List Print)
    gen_layout_all nil = some []
    gen_layout_all (cons e es) = andthen (gen_layout_node e) (gen_layout_all es)

    pub gen_layout_alt : Alt → Option (List Print)
    gen_layout_alt no_alt = some (brace_close ∷ [])
    gen_layout_alt (alt e) =
        andthen (some (else_open ∷ [])) (andthen (gen_layout_node e) (some (brace_close ∷ [])))

  unfoldable pub gen_layout_list : List Node → Option (List Print)
  gen_layout_list [] = some []
  gen_layout_list (e ∷ es) = andthen (gen_layout_node e) (gen_layout_list es)

  unfoldable pub gen_layout_item : Item → Option (List Print)
  unfolding gen_layout_list
  gen_layout_item (one e) = gen_layout_node e
  gen_layout_item (node_list es) = gen_layout_list es

  -- `generate`, on the layout's nodes.
  unfoldable pub generate_layout : List Item → Option (List Print)
  unfolding gen_layout_item
  generate_layout [] = some []
  generate_layout (e ∷ es) = andthen (gen_layout_item e) (generate_layout es)
