-- ===== src/Gen/Inline.antt =====
-- codegen.go: `pageCodeGen.genNodePartial`, the code for one inline partial of a page, from all nodes of the
-- page.
use pushup.Base.{Bool, true, false, Option, none, some, List, [], ◌∷◌, ◌++◌, Bytes}
use pushup.Tree.Node.{
  Node, Nodes, Alt, nil, cons, no_alt, alt, literal, element, go_str_expr, go_code, if_stmt,
  for_stmt, block, section, import_decl, layout, partial,
}
use pushup.Gen.Defs.{
  Print, write_string, print_escaped, if_open, for_open, else_open, brace_close, end_tag, andthen,
  node_line_no, gen_code,
}

-- The prints of a call and the variable `state` behind it, which is whether it is stateInPartialScope;
-- `none` is a panic.
abbrev pub Scoped : Type 0
Scoped = Bool → Option (List Print × Bool)

unfoldable pub prepend : List Print → Option (List Print × Bool) → Option (List Print × Bool)
prepend xs none = none
prepend xs (some (ys, s)) = some (xs ++ ys, s)

unfoldable pub proceed : Option (List Print × Bool) → Scoped → Option (List Print × Bool)
unfolding prepend
proceed none k = none
proceed (some (xs, s)) k = prepend xs (k s)

unfoldable pub one_behind : Scoped → Scoped → Scoped
unfolding proceed
one_behind m k s = proceed (m s) k

unfoldable pub prints_of : Option (List Print) → Scoped
prints_of none s = none
prints_of (some xs) s = some (xs, s)

-- `if state == stateInPartialScope`
unfoldable pub in_scope : Scoped → Scoped
in_scope m true = m true
in_scope m false = some ([], false)

unfoldable pub set_scope : Bool → Scoped
set_scope s old = some ([], s)

unfoldable pub enter : Bool → Scoped
enter true old = some ([], true)
enter false old = some ([], old)

-- `is_target` is the test `n == p.node`, the identity of two pointers.
module _ (line_directives_enabled : Bool) (source : Bytes) (is_target : Node → Bool) where
  unfoldable mutual
    unfolding in_scope prints_of one_behind

    pub gen_inline : Node → Scoped
    gen_inline (literal s pos) = in_scope (
        prints_of
          (andthen (node_line_no line_directives_enabled source pos) (some (write_string s ∷ []))))
    gen_inline (element t start_tag_nodes children pos closing) =
        one_behind
          (in_scope (
            one_behind (prints_of (node_line_no line_directives_enabled source pos))
              (gen_inline_all start_tag_nodes)))
          (one_behind (gen_inline_all children)
            (in_scope (prints_of (some (write_string (end_tag t) ∷ [])))))
    gen_inline (partial name pos body) =
        one_behind (enter (is_target (partial name pos body)))
          (one_behind (gen_inline_all body) (set_scope false))
    gen_inline (go_str_expr e) = in_scope (
        prints_of (
          andthen (node_line_no line_directives_enabled source e.pos)
            (some (print_escaped e.expr ∷ []))))
    gen_inline (for_stmt clause body) = in_scope (
        one_behind (prints_of (some (for_open clause.code ∷ [])))
          (one_behind (gen_inline_all body) (prints_of (some (brace_close ∷ [])))))
    gen_inline (if_stmt cond then_block else_alt) =
        one_behind (prints_of (some (if_open cond.expr ∷ [])))
          (one_behind (gen_inline_all then_block) (gen_inline_alt else_alt))
    gen_inline (go_code e) = prints_of (gen_code line_directives_enabled source e.context e)
    gen_inline (block body) = gen_inline_all body
    gen_inline (section name pos body) = λ s. none
    gen_inline (layout name pos) = λ s. none
    gen_inline (import_decl decl pos) = λ s. none

    pub gen_inline_all : Nodes → Scoped
    gen_inline_all nil = prints_of (some [])
    gen_inline_all (cons e es) = one_behind (gen_inline e) (gen_inline_all es)

    pub gen_inline_alt : Alt → Scoped
    gen_inline_alt no_alt = prints_of (some (brace_close ∷ []))
    gen_inline_alt (alt e) =
        one_behind (prints_of (some (else_open ∷ [])))
          (one_behind (gen_inline e) (prints_of (some (brace_close ∷ []))))

  -- `genNodePartial`, of the list of the page's nodes.
  unfoldable pub gen_node_partial : List Node → Scoped
  unfolding prints_of one_behind
  gen_node_partial [] = prints_of (some [])
  gen_node_partial (e ∷ es) = one_behind (gen_inline e) (gen_node_partial es)
