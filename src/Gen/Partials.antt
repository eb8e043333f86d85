-- ===== src/Gen/Partials.antt =====
-- codegen.go: how the code for a layout differs from that for a page with the same nodes.
use pushup.Base.{
  ◌≡◌, refl, ap, ◌∙◌, Bool, Option, none, some, List, [], ◌∷◌, Bytes, All, append-nil,
}
use pushup.Tree.Node.{
  Node, Nodes, Alt, nil, cons, no_alt, alt, literal, element, go_str_expr, go_code, if_stmt,
  for_stmt, block, section, import_decl, layout, partial, SyntaxTree,
}
use pushup.Gen.Defs.{Print, andthen, gen_node, gen_all, gen_alt, generate}
use pushup.Gen.Layout.{
  new_layout_from_tree, gen_layout_node, gen_layout_all, gen_layout_alt, gen_layout_list,
  gen_layout_item, generate_layout,
}

-- No partial is among the nodes that genNode comes to.
unfoldable mutual
  pub LacksPartial : Node → Type 0
  LacksPartial (element t start_tag_nodes children pos closing) =
      AllLackPartial start_tag_nodes × AllLackPartial children
  LacksPartial (if_stmt cond then_block else_alt) =
      AllLackPartial then_block × AltLacksPartial else_alt
  LacksPartial (for_stmt clause body) = AllLackPartial body
  LacksPartial (block body) = AllLackPartial body
  LacksPartial (section name pos body) = AllLackPartial body
  LacksPartial (partial name pos body) = ⊥
  LacksPartial e = Unit

  pub AllLackPartial : Nodes → Type 0
  AllLackPartial nil = Unit
  AllLackPartial (cons e es) = LacksPartial e × AllLackPartial es

  pub AltLacksPartial : Alt → Type 0
  AltLacksPartial no_alt = Unit
  AltLacksPartial (alt e) = LacksPartial e

module _ (lines_on : Bool) (source : Bytes) where
  mutual
    unfolding gen_node gen_layout_node LacksPartial

    gen_layout_node-gen_node :
        (e : Node) → LacksPartial e → gen_layout_node lines_on source e ≡ gen_node lines_on source e
    gen_layout_node-gen_node (literal s pos) h = refl
    gen_layout_node-gen_node (element t start_tag_nodes children pos closing) (h, k) =
        rw (gen_layout_all-gen_all start_tag_nodes h, gen_layout_all-gen_all children k) refl
    gen_layout_node-gen_node (go_str_expr e) h = refl
    gen_layout_node-gen_node (go_code e) h = refl
    gen_layout_node-gen_node (if_stmt cond then_block else_alt) (h, k) =
        rw (gen_layout_all-gen_all then_block h, gen_layout_alt-gen_alt else_alt k) refl
    gen_layout_node-gen_node (for_stmt clause body) h = rw (gen_layout_all-gen_all body h) refl
    gen_layout_node-gen_node (block body) h = gen_layout_all-gen_all body h
    gen_layout_node-gen_node (section name pos body) h = gen_layout_all-gen_all body h
    gen_layout_node-gen_node (partial name pos body) h = absurd h
    gen_layout_node-gen_node (layout name pos) h = refl
    gen_layout_node-gen_node (import_decl decl pos) h = refl

    gen_layout_all-gen_all :
        (es : Nodes)
        → AllLackPartial es
        → gen_layout_all lines_on source es ≡ gen_all lines_on source es
    gen_layout_all-gen_all nil h = refl
    gen_layout_all-gen_all (cons e es) (h, k) =
        rw (gen_layout_node-gen_node e h, gen_layout_all-gen_all es k) refl

    gen_layout_alt-gen_alt :
        (a : Alt) → AltLacksPartial a → gen_layout_alt lines_on source a ≡ gen_alt lines_on source a
    gen_layout_alt-gen_alt no_alt h = refl
    gen_layout_alt-gen_alt (alt e) h = rw (gen_layout_node-gen_node e h) refl

  gen_layout_list-generate :
      (es : List Node)
      → All LacksPartial es
      → gen_layout_list lines_on source es ≡ generate lines_on source es
  unfolding gen_layout_list generate
  gen_layout_list-generate [] h = refl
  gen_layout_list-generate (e ∷ es) (h, k) =
      rw (gen_layout_node-gen_node e h, gen_layout_list-generate es k) refl

  andthen-nothing : (o : Option (List Print)) → andthen o (some []) ≡ o
  andthen-nothing none = refl
  andthen-nothing (some xs) = ap some (append-nil xs)

  -- For nodes with no partial among them, the code that a layout's generator prints, or its panic, is
  -- that of a page's generator on the same nodes; and no tree gives a layout any imports.
  pub generate_layout-generate :
      (tree : SyntaxTree)
      → All LacksPartial tree.nodes
      → (generate_layout lines_on source (new_layout_from_tree tree).nodes
          ≡ generate lines_on source tree.nodes)
        × ((new_layout_from_tree tree).imports ≡ [])
  unfolding generate_layout new_layout_from_tree gen_layout_item
  generate_layout-generate tree h = (
    andthen-nothing (gen_layout_list lines_on source tree.nodes)
        ∙ gen_layout_list-generate tree.nodes h,
    refl,
  )
