-- ===== src/Parser/Code.antt =====
-- parser.go: `parseCode`, and the functions that call each other through it. The fuel counts nested
-- calls, and the rounds of the loops.
use pushup.Base.{ℕ, zero, suc, List, [], Bytes, codes, equal, if◌then◌else◌}
use pushup.Tree.Node.{Node, Nodes, section, partial}
use pushup.Parser.State.{
  Token, eof, ident, int, float, char, string, lbrace, lparen, not_op, rem, and_op, import_kw,
  for_kw, if_kw, literal_without_parens, eof_in_code, invalid_token, expected_code, M, no_fuel,
  ◌>>=◌, ◌>>◌, errorf,
}
use pushup.Parser.Env.{Env}
use pushup.Parser.Tokens.{reset, peek, advance}
use pushup.Parser.Blocks.{
  parse_handler_keyword, parse_code_block, parse_import_keyword, stmt_block, parse_for_stmt,
  named_block,
}
use pushup.Parser.Expressions.{if_stmt_step, parse_explicit_expression, parse_implicit_expression}
use pushup.Parser.Elements.{element_step, children_step, html_transition}

module _ (env : Env) (fuel : ℕ) (if_stmt : M Node) (body : M Nodes) where
  -- An identifier: a keyword of Pushup's, or an implicit expression.
  unfoldable pub code_ident : Bytes → M Node
  code_ident lit =
      if equal lit (codes "handler")
      then (do advance env; parse_handler_keyword env fuel)
      else if equal lit (codes "section")
      then (do advance env; named_block env section body)
      else if equal lit (codes "partial")
      then (do advance env; named_block env partial body)
      else parse_implicit_expression env fuel

  unfoldable pub code_at : Token → Bytes → M Node
  unfolding code_ident
  code_at if_kw lit = do advance env; if_stmt
  code_at ident lit = code_ident lit
  code_at lbrace lit = parse_code_block env fuel
  code_at import_kw lit = do advance env; parse_import_keyword env
  code_at for_kw lit = do advance env; parse_for_stmt env fuel body
  code_at lparen lit = do advance env; parse_explicit_expression env fuel
  code_at int lit = errorf literal_without_parens
  code_at float lit = errorf literal_without_parens
  code_at string lit = errorf literal_without_parens
  code_at eof lit = errorf eof_in_code
  code_at not_op lit = errorf (invalid_token not_op)
  code_at rem lit = errorf (invalid_token rem)
  code_at and_op lit = errorf (invalid_token and_op)
  code_at char lit = errorf (invalid_token char)
  code_at t lit = errorf (expected_code t)

  unfoldable pub code_step : M Node
  unfolding code_at
  code_step = do t ← peek env; code_at t.tok t.lit

module _ (env : Env) where
  -- `htmlParser.transition`: a new scanner, and the code behind the `^`.
  abbrev pub transition_of : M Node → M Node
  transition_of code = do reset; code

  unfoldable mutual
    pub parse_code : ℕ → M Node
    parse_code zero = no_fuel
    parse_code (suc f) = code_step env f (parse_if_stmt f) (parse_stmt_block f)

    pub parse_if_stmt : ℕ → M Node
    parse_if_stmt zero = no_fuel
    parse_if_stmt (suc f) = if_stmt_step env f (parse_if_stmt f) (parse_stmt_block f)

    pub parse_stmt_block : ℕ → M Nodes
    parse_stmt_block zero = no_fuel
    parse_stmt_block (suc f) =
        stmt_block env (parse_code f) (html_transition env f (parse_element f))

    pub parse_element : ℕ → M Node
    parse_element zero = no_fuel
    parse_element (suc f) = element_step env (transition_of (parse_code f)) (parse_children f [] [])

    pub parse_children : ℕ → List Node → List Bytes → M (List Node)
    parse_children zero result stack = no_fuel
    parse_children (suc f) result stack =
        children_step env (transition_of (parse_code f)) (parse_children f) (parse_children f [] [])
          result stack
