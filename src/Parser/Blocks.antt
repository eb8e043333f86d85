-- ===== src/Parser/Blocks.antt =====
-- parser.go: the keywords and blocks of `codeParser` that hold Go code. The fuel of a loop counts its
-- rounds.
use pushup.Base.{ℕ, zero, suc, ◌+◌, ◌-◌, [], ◌==◌, if◌then◌else◌, length, Bytes, codes}
use pushup.Tree.Node.{
  Span, handler_go_code, inline_go_code, Node, Nodes, nil, cons, go_code, import_decl, for_stmt,
}
use pushup.Parser.State.{
  Token, eof, ident, string, semicolon, lbrace, rbrace, period, xor, lss, GoToken, expected_token,
  eof_in_for, eof_in_block, several_elements, eof_in_code_block, M, pure, no_fuel, ◌>>=◌, ◌>>◌,
  gets, errorf, check,
}
use pushup.Parser.Env.{Env, is_lbrace, is_ident, is_string}
use pushup.Parser.Tokens.{prev, peek, advance, code_from, extent}

-- What a round of a loop over the tokens of a block does at a token, at a depth.
pub data Round : Type 0 where
  go_on : ℕ → Round
  stop fail : Round

module _ (env : Env) where
  -- The loop of `parseHandlerKeyword`, which has no case for the end of the source.
  abbrev pub handler_round : Token → ℕ → Round
  handler_round lbrace depth = go_on (depth + 1)
  handler_round rbrace depth = if depth - 1 == 0 then stop else go_on (depth - 1)
  handler_round t depth = go_on depth

  unfoldable pub handler_next : (ℕ → M (Unit {0})) → Round → M (Unit {0})
  handler_next rounds stop = pure tt
  handler_next rounds fail = pure tt
  handler_next rounds (go_on depth) = do advance env; rounds depth

  unfoldable pub handler_loop : ℕ → ℕ → M (Unit {0})
  unfolding handler_next
  handler_loop zero depth = no_fuel
  handler_loop (suc fuel) depth = do
    t ← peek env
    handler_next (handler_loop fuel) (handler_round t.tok depth)

  unfoldable pub parse_handler_keyword : ℕ → M Node
  parse_handler_keyword fuel = do
    open_brace ← peek env
    check (is_lbrace open_brace.tok) (expected_token open_brace.tok)
    advance env
    from ← gets (λ p. p.offset)
    first ← peek env
    handler_loop fuel 1
    last ← prev
    n ← extent last.pos first.pos (length last.lit)
    advance env
    code ← code_from first.pos n
    pure (
        go_code (record {
          context = handler_go_code;
          code = code;
          pos = record { start = from; end = from + n };
        }))

  -- The loop of `parseCodeBlock`; the variables maxread and lastlit are those of the last token that
  -- was advanced over.
  abbrev pub block_round : Token → ℕ → Round
  block_round lbrace depth = go_on (depth + 1)
  block_round rbrace depth = if depth - 1 == 0 then stop else go_on (depth - 1)
  block_round eof depth = fail
  block_round t depth = go_on depth

  unfoldable pub block_next : (ℕ → GoToken → M GoToken) → GoToken → GoToken → Round → M GoToken
  block_next rounds t last stop = pure last
  block_next rounds t last fail = errorf eof_in_code_block
  block_next rounds t last (go_on depth) = do advance env; rounds depth t

  unfoldable pub block_loop : ℕ → ℕ → GoToken → M GoToken
  unfolding block_next
  block_loop zero depth last = no_fuel
  block_loop (suc fuel) depth last = do
    t ← peek env
    block_next (block_loop fuel) t last (block_round t.tok depth)

  unfoldable pub parse_code_block : ℕ → M Node
  parse_code_block fuel = do
    open_brace ← peek env
    check (is_lbrace open_brace.tok) (expected_token open_brace.tok)
    advance env
    from ← gets (λ p. p.offset)
    first ← peek env
    last ← block_loop fuel 1 first
    n ← extent last.pos first.pos (length last.lit)
    advance env
    code ← code_from first.pos n
    pure (
        go_code (record {
          context = inline_go_code;
          code = code;
          pos = record { start = from; end = from + n };
        }))

  unfoldable pub import_of : Bytes → Bytes → M Node
  import_of name path =
      pure (import_decl (record { pkg_name = name; path = path }) (record { start = 0; end = 0 }))

  -- The path behind a name: it is looked at, and not advanced over.
  unfoldable pub import_path : Bytes → M Node
  unfolding import_of
  import_path name = do
    advance env
    path ← peek env
    check (is_string path.tok) (expected_token path.tok)
    import_of name path.lit

  unfoldable pub import_at : Token → Bytes → M Node
  unfolding import_path import_of
  import_at string lit = do advance env; import_of [] lit
  import_at ident lit = import_path lit
  import_at period lit = import_path (codes ".")
  import_at t lit = errorf (expected_token t)

  unfoldable pub parse_import_keyword : M Node
  unfolding import_at
  parse_import_keyword = do t ← peek env; import_at t.tok t.lit

  -- `parseStmtBlock` behind its `{`: a transition stays in the code parser, any other text is HTML.
  unfoldable pub skip_semicolon : Token → M (Unit {0})
  skip_semicolon semicolon = advance env
  skip_semicolon t = pure tt

  unfoldable pub code_in_block : M Node → M Nodes
  unfolding skip_semicolon
  code_in_block code = do
    advance env
    e ← code
    t ← peek env
    skip_semicolon t.tok
    pure (cons e nil)

  unfoldable pub block_at : M Node → M Nodes → Token → M Nodes
  unfolding code_in_block
  block_at code html xor = code_in_block code
  block_at code html eof = errorf eof_in_block
  block_at code html t = html

  unfoldable pub stmt_end : Token → M (Unit {0})
  stmt_end rbrace = advance env
  stmt_end lss = errorf several_elements
  stmt_end t = errorf (expected_token t)

  -- `code` is `parseCode`, and `html` is `codeParser.transition`.
  unfoldable pub stmt_block : M Node → M Nodes → M Nodes
  unfolding block_at stmt_end
  stmt_block code html = do
    open_brace ← peek env
    check (is_lbrace open_brace.tok) (expected_token open_brace.tok)
    advance env
    t ← peek env
    block ← block_at code html t.tok
    close_brace ← peek env
    stmt_end close_brace.tok
    pure block

  -- The loop of `parseForStmt`.
  unfoldable pub for_next : M (Unit {0}) → Token → M (Unit {0})
  for_next rounds eof = errorf eof_in_for
  for_next rounds lbrace = pure tt
  for_next rounds t = do advance env; rounds

  unfoldable pub for_loop : ℕ → M (Unit {0})
  unfolding for_next
  for_loop zero = no_fuel
  for_loop (suc fuel) = do t ← peek env; for_next (for_loop fuel) t.tok

  unfoldable pub parse_for_stmt : ℕ → M Nodes → M Node
  parse_for_stmt fuel block = do
    first ← peek env
    for_loop fuel
    last ← prev
    n ← extent last.pos first.pos (length last.lit)
    base ← gets (λ p. p.base_offset)
    clause ← code_from first.pos n
    body ← block
    pure (
        for_stmt
          (record {
            context = inline_go_code;
            code = clause;
            pos = record { start = base + first.pos; end = base + first.pos + n };
          })
          body)

  -- `parseSectionKeyword` and `parsePartialKeyword`, which differ in the node that they make.
  unfoldable pub named_block : (Bytes → Span → Nodes → Node) → M Nodes → M Node
  named_block make block = do
    t ← peek env
    check (is_ident t.tok) (expected_token t.tok)
    from ← gets (λ p. p.offset)
    advance env
    to ← gets (λ p. p.offset)
    body ← block
    pure (make t.lit (record { start = from; end = to }) body)
