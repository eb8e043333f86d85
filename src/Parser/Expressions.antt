-- ===== src/Parser/Expressions.antt =====
-- parser.go: the conditionals and expressions of `codeParser`.
use pushup.Base.{
  ℕ, zero, suc, ◌+◌, ◌-◌, Bool, true, false, ◌==◌, ◌||◌, not, ltb, if◌then◌else◌, length,
}
use pushup.Tree.Node.{Node, Nodes, Alt, no_alt, alt, go_str_expr, if_stmt, block}
use pushup.Parser.State.{
  Token, illegal, eof, lbrace, lparen, rparen, lbrack, period, xor, if_kw, else_kw, GoToken,
  eof_in_if, illegal_if_cond, expected_if, illegal_token, illegal_expression, eof_in_expression,
  eof_in_call, M, pure, no_fuel, crash, ◌>>=◌, ◌>>◌, gets, of_option, errorf, check, slice,
}
use pushup.Parser.Env.{Env, is_ident, is_rparen, is_rbrack, is_space_byte}
use pushup.Parser.Tokens.{token_offset, char_at, peek, sync, advance, backup, code_from, extent}
use pushup.Parser.Blocks.{Round, go_on, stop, fail}

module _ (env : Env) where
  -- The loop over the condition, up to its `{`; it keeps the last token that it advanced over.
  unfoldable pub if_next : (GoToken → M GoToken) → GoToken → GoToken → Token → M GoToken
  if_next rounds t last eof = errorf eof_in_if
  if_next rounds t last lbrace = pure last
  if_next rounds t last k = do advance env; rounds t

  unfoldable pub if_loop : ℕ → GoToken → M GoToken
  unfolding if_next
  if_loop zero last = no_fuel
  if_loop (suc fuel) last = do t ← peek env; if_next (if_loop fuel) t last t.tok

  -- `^else` and what follows it; a `^` with no `else` behind it is left consumed.
  unfoldable pub else_if : M Node → GoToken → Token → M Alt
  else_if rec t if_kw = do advance env; e ← rec; pure (alt e)
  else_if rec t k = errorf (expected_if t.lit)

  unfoldable pub else_body : M Node → M Nodes → Token → M Alt
  unfolding else_if
  else_body rec body xor = do advance env; t ← peek env; else_if rec t t.tok
  else_body rec body k = do b ← body; pure (alt (block b))

  unfoldable pub after_caret : M Node → M Nodes → Token → M Alt
  unfolding else_body
  after_caret rec body else_kw = do advance env; t ← peek env; else_body rec body t.tok
  after_caret rec body k = pure no_alt

  unfoldable pub parse_else : M Node → M Nodes → Token → M Alt
  unfolding after_caret
  parse_else rec body xor = do advance env; t ← peek env; after_caret rec body t.tok
  parse_else rec body k = pure no_alt

  -- `rec` is the call of `parseIfStmt` for an `else if`, and `body` is `parseStmtBlock`.
  unfoldable pub if_stmt_step : ℕ → M Node → M Nodes → M Node
  unfolding parse_else
  if_stmt_step fuel rec body = do
    first ← peek env
    last ← if_loop fuel first
    n ← extent last.pos first.pos (length last.lit)
    base ← gets (λ p. p.base_offset)
    cond ← code_from first.pos n
    check (env.parse_expr cond) illegal_if_cond
    then_block ← body
    t ← peek env
    other ← parse_else rec body t.tok
    pure (
        if_stmt
          (record {
            expr = cond;
            pos = record { start = base + first.pos; end = base + first.pos + n };
          })
          then_block other)

  -- The loop of `parseExplicitExpression`.
  unfoldable pub explicit_round : Token → ℕ → Round
  explicit_round lparen depth = go_on (depth + 1)
  explicit_round rparen depth = if depth - 1 == 0 then stop else go_on (depth - 1)
  explicit_round eof depth = fail
  explicit_round t depth = go_on depth

  unfoldable pub explicit_next : (ℕ → GoToken → M GoToken) → GoToken → GoToken → Round → M GoToken
  explicit_next rounds t last stop = pure last
  explicit_next rounds t last fail = errorf eof_in_expression
  explicit_next rounds t last (go_on depth) = do advance env; rounds depth t

  unfoldable pub check_legal : GoToken → Token → M (Unit {0})
  check_legal t illegal = errorf (illegal_token t.lit)
  check_legal t k = pure tt

  unfoldable pub explicit_loop : ℕ → ℕ → GoToken → M GoToken
  unfolding explicit_next check_legal explicit_round
  explicit_loop zero depth last = no_fuel
  explicit_loop (suc fuel) depth last = do
    t ← peek env
    check_legal t t.tok
    explicit_next (explicit_loop fuel) t last (explicit_round t.tok depth)

  unfoldable pub parse_explicit_expression : ℕ → M Node
  parse_explicit_expression fuel = do
    from ← gets (λ p. p.offset)
    first ← peek env
    last ← explicit_loop fuel 1 first
    n ← extent last.pos first.pos (length last.lit)
    closing ← sync env
    expr ← code_from first.pos n
    check (env.parse_expr expr) (illegal_expression expr)
    pure (go_str_expr (record { expr = expr; pos = record { start = from; end = from + n } }))

  -- The inner loops of `parseImplicitExpression`, over `(...)` and `[...]`: `closes` is the test of the
  -- closing token. An opening token does not raise `nested`.
  unfoldable pub group_over : (ℕ → M ℕ) → M ℕ
  group_over rounds = do
    t ← peek env
    to ← gets (λ p. token_offset t p + length t.lit)
    advance env
    rounds to

  unfoldable pub group_next : (ℕ → ℕ → M ℕ) → ℕ → ℕ → GoToken → Bool → Token → M ℕ
  unfolding group_over
  group_next rounds nested end t true k = do
    advance env
    (if nested - 1 == 0 then pure (end + 1) else group_over (rounds (nested - 1)))
  group_next rounds nested end t false illegal = errorf (illegal_token t.lit)
  group_next rounds nested end t false eof = errorf eof_in_call
  group_next rounds nested end t false k = group_over (rounds nested)

  unfoldable pub group_loop : (Token → Bool) → ℕ → ℕ → ℕ → M ℕ
  unfolding group_next
  group_loop closes zero nested end = no_fuel
  group_loop closes (suc fuel) nested end = do
    t ← peek env
    group_next (group_loop closes fuel) nested end t (closes t.tok) t.tok

  -- Behind a `.`: the name is taken if it follows at once, and a space behind it ends the expression.
  unfoldable pub selector_end : (ℕ → M ℕ) → ℕ → Bool → M ℕ
  selector_end rounds end true = do advance env; pure end
  selector_end rounds end false = do advance env; rounds end

  unfoldable pub selector : (ℕ → M ℕ) → ℕ → GoToken → Bool → M ℕ
  unfolding selector_end
  selector rounds end t true = do backup env; pure end
  selector rounds end t false = do
    let to = end + 1 + length t.lit
    space ← gets (λ p. is_space_byte (char_at to p))
    selector_end rounds to space

  unfoldable pub implicit_next : (ℕ → M ℕ) → ℕ → ℕ → GoToken → Token → M ℕ
  unfolding selector
  implicit_next rounds fuel end t lparen = do
    advance env
    to ← group_loop is_rparen fuel 1 (end + 1)
    rounds to
  implicit_next rounds fuel end t lbrack = do
    advance env
    to ← group_loop is_rbrack fuel 1 (end + 1)
    rounds to
  implicit_next rounds fuel end t period = do
    advance env
    next ← peek env
    selector rounds end next (ltb (t.pos + 1) next.pos || not (is_ident next.tok))
  implicit_next rounds fuel end t k = pure end

  unfoldable pub implicit_loop : ℕ → ℕ → M ℕ
  unfolding implicit_next
  implicit_loop zero end = no_fuel
  implicit_loop (suc fuel) end = do
    t ← peek env
    implicit_next (implicit_loop fuel) fuel end t t.tok

  unfoldable pub implicit_rest : ℕ → ℕ → Bool → M ℕ
  implicit_rest fuel end true = pure end
  implicit_rest fuel end false = implicit_loop fuel end

  unfoldable pub implicit_at : ℕ → Bool → GoToken → M Node
  unfolding implicit_rest
  implicit_at fuel false t = crash
  implicit_at fuel true t = do
    from ← gets (token_offset t)
    let ident_end = from + length t.lit
    advance env
    space ← gets (λ p. is_space_byte (char_at ident_end p))
    to ← implicit_rest fuel ident_end space
    src ← gets (λ p. p.src)
    expr ← of_option (slice from to src)
    check (env.parse_expr expr) (illegal_expression expr)
    pure (go_str_expr (record { expr = expr; pos = record { start = from; end = to } }))

  unfoldable pub parse_implicit_expression : ℕ → M Node
  parse_implicit_expression fuel = do t ← peek env; implicit_at fuel (is_ident t.tok) t
