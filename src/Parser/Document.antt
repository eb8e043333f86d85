-- ===== src/Parser/Document.antt =====
-- parser.go: `parseDocument` and `parse`.
use pushup.Base.{
  ℕ, zero, suc, ◌+◌, Bool, ◌||◌, Option, none, some, List, [], ◌∷◌, ◌++◌, ◌==◌, if◌then◌else◌,
  length, take, drop, Bytes, codes, has_prefix,
}
use pushup.Tree.Node.{Node, literal, layout, SyntaxTree}
use pushup.Parser.State.{
  TokenType, error_token, text_token, start_tag_token, self_closing_tag_token, HtmlError,
  html_tokenizer, layout_without_space, new_parser, SyntaxError, Outcome, returned, syntax_error,
  crashed, out_of_fuel, M, pure, no_fuel, ◌>>=◌, ◌>>◌, gets, set_offset, errorf,
}
use pushup.Parser.Env.{Env}
use pushup.Parser.Html.{index_trans, index_escape, emit_literal, advance_html, parse_start_tag}
use pushup.Parser.Elements.{is_eof, leading}
use pushup.Parser.Code.{parse_code, transition_of}

module _ (env : Env) where
  -- The loop over the name of a layout: the name, and how many bytes it has. `fuel` counts the bytes.
  unfoldable pub is_name_rune : ℕ → Bool
  is_name_rune r = env.is_letter r || env.is_number r || r == b'_' || r == b'-' || r == b'.'

  unfoldable pub layout_name : ℕ → Bytes → Bytes × ℕ
  unfolding is_name_rune
  layout_name zero s = ([], 0)
  layout_name (suc fuel) s =
      let (r, size) = env.decode_rune s in
      let (name, n) = layout_name fuel (drop size s) in
      if r == 0
      then ([], 0)
      else if is_name_rune r
      then (take size s ++ name, size + n)
      else ([], 0)

  -- `^layout`, with the text behind it and a space: the name, and the bytes from the space on.
  unfoldable pub layout_of : Bytes → Bytes × ℕ
  unfolding layout_name
  layout_of [] = ([], 1)
  layout_of (c ∷ s) =
      if c == b'!'
      then (codes "!", 2)
      else (let (name, n) = layout_name (length (c ∷ s)) (c ∷ s) in (name, 1 + n))

  unfoldable pub parse_layout : ℕ → ℕ → Bytes → M (List Node)
  unfolding layout_of
  parse_layout start idx [] = errorf layout_without_space
  parse_layout start idx (c ∷ s) =
      if c == b' '
      then (do
        let (name, n) = layout_of s
        let from = start + idx + 1
        set_offset (from + 6 + n)
        pure (layout name (record { start = from; end = from + 6 + n }) ∷ []))
      else errorf layout_without_space

  -- The nodes of a text token, by the first `^^` and the first `^` in it.
  unfoldable pub escaped_text : ℕ → Bytes → ℕ → M (List Node)
  escaped_text start raw escaped = do
    set_offset (start + escaped + 2)
    pure (
        leading raw start escaped
        ++ literal (codes "^") (record { start = start + escaped; end = start + escaped + 2 }) ∷ [])

  unfoldable pub trans_text : M Node → ℕ → Bytes → ℕ → M (List Node)
  unfolding parse_layout
  trans_text transition start raw idx =
      if has_prefix (drop (idx + 1) raw) (codes "layout")
      then parse_layout start idx (drop (idx + 7) raw)
      else (do set_offset (start + idx + 1); e ← transition; pure (leading raw start idx ++ e ∷ []))

  unfoldable pub text_nodes : M Node → Bytes → Option ℕ → Option ℕ → M (List Node)
  unfolding escaped_text trans_text
  text_nodes transition raw none escaped = do n ← emit_literal; pure (n ∷ [])
  text_nodes transition raw (some idx) (some escaped) = do
    start ← gets (λ p. p.start)
    escaped_text start raw escaped
  text_nodes transition raw (some idx) none = do
    start ← gets (λ p. p.start)
    trans_text transition start raw idx

  -- One round of the loop: the nodes of the current token, or none at the end of the document.
  unfoldable pub end_of_document : HtmlError → M (Option (List Node))
  end_of_document e = if is_eof e then pure none else errorf (html_tokenizer e)

  unfoldable pub document_at : M Node → TokenType → M (Option (List Node))
  unfolding end_of_document text_nodes
  document_at transition error_token = do e ← gets (λ p. p.err); end_of_document e
  document_at transition start_tag_token = do ns ← parse_start_tag transition; pure (some ns)
  document_at transition self_closing_tag_token = do ns ← parse_start_tag transition; pure (some ns)
  document_at transition text_token = do
    raw ← gets (λ p. p.raw)
    ns ← text_nodes transition raw (index_trans raw) (index_escape raw)
    pure (some ns)
  document_at transition t = do n ← emit_literal; pure (some (n ∷ []))

  unfoldable pub document_round : M Node → M (Option (List Node))
  unfolding document_at
  document_round transition = do
    advance_html env
    typ ← gets (λ p. p.toktyp)
    document_at transition typ

  unfoldable pub document_next :
      (List Node → M (List Node)) → List Node → Option (List Node) → M (List Node)
  document_next rounds result none = pure result
  document_next rounds result (some ns) = rounds (result ++ ns)

  unfoldable pub parse_document : ℕ → List Node → M (List Node)
  unfolding document_next
  parse_document zero result = no_fuel
  parse_document (suc fuel) result = do
    ns ← document_round (transition_of env (parse_code env fuel))
    document_next (parse_document fuel) result ns

-- What `parse` returns, or a panic that it passes on.
pub data ParseResult : Type 0 where
  parsed : SyntaxTree → ParseResult
  failed : SyntaxError → ParseResult
  panicked : ParseResult
  no_result : ParseResult

abbrev pub recovered : Outcome (List Node) → ParseResult
recovered (returned nodes p) = parsed (record { nodes = nodes })
recovered (syntax_error e) = failed e
recovered crashed = panicked
recovered out_of_fuel = no_result

unfoldable pub parse : Env → ℕ → Bytes → ParseResult
unfolding parse_document
parse env fuel source = recovered (parse_document env fuel [] (new_parser source))
