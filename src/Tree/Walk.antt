-- ===== src/Tree/Walk.antt =====
-- ast.go: `walk` and `inspect`, with a callback that changes a state.
use pushup.Base.{Bool, Option, none, some, List, [], ◌∷◌, if◌then◌else◌}
use pushup.Tree.Node.{
  Node, Nodes, Alt, nil, cons, no_alt, alt, literal, element, go_str_expr, go_code, if_stmt,
  for_stmt, block, section, import_decl, layout, partial,
}

-- What the callback is called with, if it is not nil.
pub data Visited : Type 0 where
  node : Node → Visited
  node_list : List Node → Visited

module _ {S : Type 0} (f : S → Option Visited → Bool × S) where
  -- A node, and its children if the callback says so; the callback is called with nil behind them.
  unfoldable pub visit_with : (S → S) → S → Visited → S
  visit_with children s v =
      let (goes_on, s') = f s (some v) in if goes_on then (f (children s') none).1 else s'

  unfoldable pub visit_leaf : S → Visited → S
  unfolding visit_with
  visit_leaf s v = visit_with (λ s'. s') s v

  unfoldable mutual
    unfolding visit_with visit_leaf

    pub walk : S → Node → S
    walk s (element t start_tag_nodes children pos closing) =
        visit_with (λ s'. walk_node_list (walk_node_list s' start_tag_nodes) children) s
          (node (element t start_tag_nodes children pos closing))
    walk s (if_stmt cond then_block else_alt) =
        visit_with
          (λ s'.
            walk_alt
              (visit_with (λ s1. walk_node_list s1 then_block)
                (visit_leaf s' (node (go_str_expr cond))) (node (block then_block)))
              else_alt)
          s (node (if_stmt cond then_block else_alt))
    walk s (for_stmt clause body) =
        visit_with
          (λ s'.
            visit_with (λ s1. walk_node_list s1 body) (visit_leaf s' (node (go_code clause)))
              (node (block body)))
          s (node (for_stmt clause body))
    walk s (block body) = visit_with (λ s'. walk_node_list s' body) s (node (block body))
    walk s (section name pos body) =
        visit_with (λ s'. visit_with (λ s1. walk_node_list s1 body) s' (node (block body))) s
          (node (section name pos body))
    walk s (partial name pos body) =
        visit_with (λ s'. visit_with (λ s1. walk_node_list s1 body) s' (node (block body))) s
          (node (partial name pos body))
    walk s (literal str pos) = visit_leaf s (node (literal str pos))
    walk s (go_str_expr e) = visit_leaf s (node (go_str_expr e))
    walk s (go_code e) = visit_leaf s (node (go_code e))
    walk s (import_decl decl pos) = visit_leaf s (node (import_decl decl pos))
    walk s (layout name pos) = visit_leaf s (node (layout name pos))

    pub walk_node_list : S → Nodes → S
    walk_node_list s nil = s
    walk_node_list s (cons e es) = walk_node_list (walk s e) es

    pub walk_alt : S → Alt → S
    walk_alt s no_alt = s
    walk_alt s (alt e) = walk s e

  unfoldable pub walk_all : S → List Node → S
  unfolding walk
  walk_all s [] = s
  walk_all s (e ∷ es) = walk_all (walk s e) es

  -- `inspect`, of a slice of nodes.
  unfoldable pub inspect : S → List Node → S
  unfolding visit_with walk_all
  inspect s es = visit_with (λ s'. walk_all s' es) s (node_list es)
