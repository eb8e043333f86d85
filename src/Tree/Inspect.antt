-- ===== src/Tree/Inspect.antt =====
-- ast.go: `inspect` calls its callback as a pass over the tree laid out flat does.
use pushup.Base.{zero, ◌≡◌, sym, ap, ◌∙◌, Bool, Option, List, [], ◌∷◌, ◌++◌, append-nil}
use pushup.Tree.Node.{
  Node, Nodes, Alt, nil, cons, no_alt, alt, literal, element, go_str_expr, go_code, if_stmt,
  for_stmt, block, section, import_decl, layout, partial,
}
use pushup.Tree.Walk.{
  Visited, node, node_list, visit_with, visit_leaf, walk, walk_node_list, walk_alt, walk_all,
  inspect,
}
use pushup.Tree.Stream.{
  group, steps, steps_all, steps_alt, steps_list, run, Skips, Does, Skips-append, Skips-group,
  Does-append, Does-group, Skips-nil, Does-nil,
}

module _ {S : Type 0} (f : S → Option Visited → Bool × S) where
  mutual
    unfolding steps

    steps-Skips : (e : Node) → Skips f (steps e)
    steps-Skips (element t ss cs pos closing) =
        Skips-group f (node (element t ss cs pos closing)) (steps_all ss ++ steps_all cs)
          (Skips-append f (steps_all ss) (steps_all cs) (steps_all-Skips ss) (steps_all-Skips cs))
    steps-Skips (if_stmt cond body other) =
        Skips-group f (node (if_stmt cond body other))
          (group (node (go_str_expr cond)) []
            ++ (group (node (block body)) (steps_all body) ++ steps_alt other))
          (Skips-append f (group (node (go_str_expr cond)) [])
            (group (node (block body)) (steps_all body) ++ steps_alt other)
            (Skips-group f (node (go_str_expr cond)) [] (Skips-nil f))
            (Skips-append f (group (node (block body)) (steps_all body)) (steps_alt other)
              (Skips-group f (node (block body)) (steps_all body) (steps_all-Skips body))
              (steps_alt-Skips other)))
    steps-Skips (for_stmt clause body) =
        Skips-group f (node (for_stmt clause body))
          (group (node (go_code clause)) [] ++ group (node (block body)) (steps_all body))
          (Skips-append f (group (node (go_code clause)) [])
            (group (node (block body)) (steps_all body))
            (Skips-group f (node (go_code clause)) [] (Skips-nil f))
            (Skips-group f (node (block body)) (steps_all body) (steps_all-Skips body)))
    steps-Skips (block body) =
        Skips-group f (node (block body)) (steps_all body) (steps_all-Skips body)
    steps-Skips (section name pos body) =
        Skips-group f (node (section name pos body)) (group (node (block body)) (steps_all body))
          (Skips-group f (node (block body)) (steps_all body) (steps_all-Skips body))
    steps-Skips (partial name pos body) =
        Skips-group f (node (partial name pos body)) (group (node (block body)) (steps_all body))
          (Skips-group f (node (block body)) (steps_all body) (steps_all-Skips body))
    steps-Skips (literal str pos) = Skips-group f (node (literal str pos)) [] (Skips-nil f)
    steps-Skips (go_str_expr e) = Skips-group f (node (go_str_expr e)) [] (Skips-nil f)
    steps-Skips (go_code e) = Skips-group f (node (go_code e)) [] (Skips-nil f)
    steps-Skips (import_decl decl pos) =
        Skips-group f (node (import_decl decl pos)) [] (Skips-nil f)
    steps-Skips (layout name pos) = Skips-group f (node (layout name pos)) [] (Skips-nil f)

    steps_all-Skips : (es : Nodes) → Skips f (steps_all es)
    steps_all-Skips nil = Skips-nil f
    steps_all-Skips (cons e es) =
        Skips-append f (steps e) (steps_all es) (steps-Skips e) (steps_all-Skips es)

    steps_alt-Skips : (other : Alt) → Skips f (steps_alt other)
    steps_alt-Skips no_alt = Skips-nil f
    steps_alt-Skips (alt e) = steps-Skips e

  block-Skips : (body : Nodes) → Skips f (group (node (block body)) (steps_all body))
  block-Skips body = Skips-group f (node (block body)) (steps_all body) (steps_all-Skips body)

  Does-leaf : (e : Node) → Does f (λ s. visit_leaf f s (node e)) (group (node e) [])
  unfolding visit_leaf
  Does-leaf e = Does-group f (λ s. s) (node e) [] (Skips-nil f) (Does-nil f)

  block-Does :
      (body : Nodes)
      → Does f (λ s. walk_node_list f s body) (steps_all body)
      → Does f
          (λ s. visit_with f (λ s1. walk_node_list f s1 body) s (node (block body)))
          (group (node (block body)) (steps_all body))
  block-Does body =
      Does-group f (λ s. walk_node_list f s body) (node (block body)) (steps_all body)
        (steps_all-Skips body)

  mutual
    unfolding steps walk

    walk-Does : (e : Node) → Does f (λ s. walk f s e) (steps e)
    walk-Does (element t ss cs pos closing) =
        Does-group f (λ s. walk_node_list f (walk_node_list f s ss) cs)
          (node (element t ss cs pos closing)) (steps_all ss ++ steps_all cs)
          (Skips-append f (steps_all ss) (steps_all cs) (steps_all-Skips ss) (steps_all-Skips cs))
          (Does-append f (λ s. walk_node_list f s ss) (λ s. walk_node_list f s cs) (steps_all ss)
            (steps_all cs) (walk_node_list-Does ss) (walk_node_list-Does cs))
    walk-Does (if_stmt cond body other) =
        let cond_steps = group (node (go_str_expr cond)) [] in
        let then_steps = group (node (block body)) (steps_all body) in
        Does-group f
          (λ s.
            walk_alt f
              (visit_with f (λ s1. walk_node_list f s1 body)
                (visit_leaf f s (node (go_str_expr cond))) (node (block body)))
              other)
          (node (if_stmt cond body other)) (cond_steps ++ (then_steps ++ steps_alt other))
          (Skips-append f cond_steps (then_steps ++ steps_alt other)
            (Skips-group f (node (go_str_expr cond)) [] (Skips-nil f))
            (Skips-append f then_steps (steps_alt other) (block-Skips body)
              (steps_alt-Skips other)))
          (Does-append f (λ s. visit_leaf f s (node (go_str_expr cond)))
            (λ s.
              walk_alt f (visit_with f (λ s1. walk_node_list f s1 body) s (node (block body)))
                other)
            cond_steps (then_steps ++ steps_alt other) (Does-leaf (go_str_expr cond))
            (Does-append f
              (λ s. visit_with f (λ s1. walk_node_list f s1 body) s (node (block body)))
              (λ s. walk_alt f s other) then_steps (steps_alt other)
              (block-Does body (walk_node_list-Does body)) (walk_alt-Does other)))
    walk-Does (for_stmt clause body) =
        let clause_steps = group (node (go_code clause)) [] in
        let body_steps = group (node (block body)) (steps_all body) in
        Does-group f
          (λ s.
            visit_with f (λ s1. walk_node_list f s1 body) (visit_leaf f s (node (go_code clause)))
              (node (block body)))
          (node (for_stmt clause body)) (clause_steps ++ body_steps)
          (Skips-append f clause_steps body_steps
            (Skips-group f (node (go_code clause)) [] (Skips-nil f)) (block-Skips body))
          (Does-append f (λ s. visit_leaf f s (node (go_code clause)))
            (λ s. visit_with f (λ s1. walk_node_list f s1 body) s (node (block body))) clause_steps
            body_steps (Does-leaf (go_code clause)) (block-Does body (walk_node_list-Does body)))
    walk-Does (block body) = block-Does body (walk_node_list-Does body)
    walk-Does (section name pos body) =
        Does-group f (λ s. visit_with f (λ s1. walk_node_list f s1 body) s (node (block body)))
          (node (section name pos body)) (group (node (block body)) (steps_all body))
          (block-Skips body) (block-Does body (walk_node_list-Does body))
    walk-Does (partial name pos body) =
        Does-group f (λ s. visit_with f (λ s1. walk_node_list f s1 body) s (node (block body)))
          (node (partial name pos body)) (group (node (block body)) (steps_all body))
          (block-Skips body) (block-Does body (walk_node_list-Does body))
    walk-Does (literal str pos) = Does-leaf (literal str pos)
    walk-Does (go_str_expr e) = Does-leaf (go_str_expr e)
    walk-Does (go_code e) = Does-leaf (go_code e)
    walk-Does (import_decl decl pos) = Does-leaf (import_decl decl pos)
    walk-Does (layout name pos) = Does-leaf (layout name pos)

    walk_node_list-Does : (es : Nodes) → Does f (λ s. walk_node_list f s es) (steps_all es)
    walk_node_list-Does nil = Does-nil f
    walk_node_list-Does (cons e es) =
        Does-append f (λ s. walk f s e) (λ s. walk_node_list f s es) (steps e) (steps_all es)
          (walk-Does e) (walk_node_list-Does es)

    walk_alt-Does : (other : Alt) → Does f (λ s. walk_alt f s other) (steps_alt other)
    walk_alt-Does no_alt = Does-nil f
    walk_alt-Does (alt e) = walk-Does e

  steps_list-Skips : (es : List Node) → Skips f (steps_list es)
  unfolding steps_list
  steps_list-Skips [] = Skips-nil f
  steps_list-Skips (e ∷ es) =
      Skips-append f (steps e) (steps_list es) (steps-Skips e) (steps_list-Skips es)

  walk_all-Does : (es : List Node) → Does f (λ s. walk_all f s es) (steps_list es)
  unfolding walk_all steps_list
  walk_all-Does [] = Does-nil f
  walk_all-Does (e ∷ es) =
      Does-append f (λ s. walk f s e) (λ s. walk_all f s es) (steps e) (steps_list es) (walk-Does e)
        (walk_all-Does es)

  -- For any callback with a state, inspect calls it just as a pass over the tree laid out flat does,
  -- with one counter: for the start of each node in the order of the source, and with nil for its end,
  -- but not inside of a node for which it returned false, nor for the end of that node.
  pub inspect-run :
      (s : S) (es : List Node)
      → inspect f s es ≡ run f s zero (group (node_list es) (steps_list es))
  unfolding inspect Does run
  inspect-run s es = sym (
      ap (run f s zero) (sym (append-nil (group (node_list es) (steps_list es))))
      ∙ Does-group f (λ s'. walk_all f s' es) (node_list es) (steps_list es) (steps_list-Skips es)
          (walk_all-Does es) s [])
