-- ===== src/Parser/Elements.antt =====
-- parser.go: the elements inside Go code, `parseElement` and `parseChildren`.
use pushup.Base.{
  ℕ, zero, suc, ◌+◌, ◌-◌, Bool, true, false, ◌||◌, Option, none, some, List, [], ◌∷◌, ◌++◌, ◌==◌,
  if◌then◌else◌, length, take, get_elem?, Bytes, codes, equal,
}
use pushup.Tree.Node.{Span, Node, Nodes, nil, cons, literal, element, block, Tag}
use pushup.Parser.State.{
  TokenType, error_token, text_token, start_tag_token, end_tag_token, self_closing_tag_token,
  comment_token, doctype_token, HtmlError, eof_error, html_tokenizer, expected_element,
  expected_end_tag, expected_end, mismatched_end, doctype_in_element, Parser, M, pure, ◌>>=◌, ◌>>◌,
  gets, set_offset, errorf, check,
}
use pushup.Parser.Env.{Env}
use pushup.Parser.Tokens.{reset}
use pushup.Parser.Html.{index_trans, emit_literal, advance_html, skip_whitespace, parse_start_tag}

abbrev pub of_list : List Node → Nodes
of_list [] = nil
of_list (e ∷ es) = cons e (of_list es)

-- `isVoidElement`
unfoldable pub any_equal : Bytes → List Bytes → Bool
unfolding equal
any_equal name [] = false
any_equal name (w ∷ ws) = equal name w || any_equal name ws

unfoldable pub is_void_element : Bytes → Bool
unfolding any_equal
is_void_element name = any_equal name (
    codes "area"
    ∷ codes "base"
    ∷ codes "br"
    ∷ codes "col"
    ∷ codes "embed"
    ∷ codes "hr"
    ∷ codes "img"
    ∷ codes "input"
    ∷ codes "link"
    ∷ codes "meta"
    ∷ codes "source"
    ∷ codes "track"
    ∷ codes "wbr"
    ∷ [])

abbrev pub is_end_tag : TokenType → Bool
is_end_tag end_tag_token = true
is_end_tag t = false

abbrev pub is_self_closing : TokenType → Bool
is_self_closing self_closing_tag_token = true
is_self_closing t = false

abbrev pub is_start : TokenType → Bool
is_start start_tag_token = true
is_start self_closing_tag_token = true
is_start t = false

abbrev pub is_eof : HtmlError → Bool
is_eof eof_error = true
is_eof e = false

-- The tag of the current token, where it stands, and whether it closes itself.
pub record Opened : Type 0 where
  pub tag : Tag
  pub pos : Span
  pub self_closing : Bool

abbrev pub opened : Parser → Opened
opened p = record {
  tag = record { name = p.tagname; attrs = p.attrs };
  pos = record { start = p.offset - length p.raw; end = p.offset };
  self_closing = is_self_closing p.toktyp;
}

abbrev pub element_of : Opened → List Node → List Node → Node
element_of o start_tag_nodes children =
    element o.tag (of_list start_tag_nodes) (of_list children) o.pos o.self_closing

-- The text before a `^` in a text token.
abbrev pub leading : Bytes → ℕ → ℕ → List Node
leading raw start zero = []
leading raw start (suc idx) =
    literal (take (suc idx) raw) (record { start = start; end = start + suc idx }) ∷ []

abbrev pub is_trans : Option ℕ → Bool
is_trans none = false
is_trans (some c) = c == b'^'

module _ (env : Env) (code : M Node) where
  -- `<text>` is for the parser alone.
  unfoldable pub close_element : Opened → List Node → List Node → Bytes → M Node
  close_element o start_tag_nodes children tagname = do
    check (equal o.tag.name tagname) (expected_end o.tag.name tagname)
    (if equal tagname (codes "text")
        then pure (block (of_list children))
        else pure (element_of o start_tag_nodes children))

  unfoldable pub element_body : M (List Node) → Opened → List Node → Bool → M Node
  unfolding close_element
  element_body children o start_tag_nodes true = pure (element_of o start_tag_nodes [])
  element_body children o start_tag_nodes false = do
    advance_html env
    cs ← children
    typ ← gets (λ p. p.toktyp)
    check (is_end_tag typ) (expected_end_tag typ)
    name ← gets (λ p. p.tagname)
    close_element o start_tag_nodes cs name

  -- `parseElement`, where `children` is `parseChildren`.
  unfoldable pub element_step : M (List Node) → M Node
  unfolding element_body
  element_step children = do
    typ ← gets (λ p. p.toktyp)
    check (is_start typ) (expected_element typ)
    o ← gets opened
    start_tag_nodes ← parse_start_tag code
    element_body children o start_tag_nodes (is_void_element o.tag.name)

  -- The loop of `parseChildren`, on the nodes found and the names of the elements still open, the
  -- last one first. `rounds` makes the later rounds, and `children` is a call of `parseChildren`.
  unfoldable pub child_start :
      (List Node → List Bytes → M (List Node))
      → M (List Node)
      → List Node
      → List Bytes
      → M (List Node)
  child_start rounds children result stack = do
    o ← gets opened
    start_tag_nodes ← parse_start_tag code
    advance_html env
    (if is_void_element o.tag.name
        then rounds (result ++ element_of o start_tag_nodes [] ∷ []) stack
        else (do
          cs ← children
          rounds (result ++ element_of o start_tag_nodes cs ∷ []) (o.tag.name ∷ stack)))

  unfoldable pub child_end :
      (List Node → List Bytes → M (List Node)) → List Node → List Bytes → Bytes → M (List Node)
  child_end rounds result [] tagname = pure result
  child_end rounds result (name ∷ stack) tagname =
      if equal name tagname
      then (do advance_html env; rounds result stack)
      else errorf (mismatched_end name tagname)

  unfoldable pub child_trans : (List Node → M (List Node)) → List Node → ℕ → Bool → M (List Node)
  child_trans rounds result idx true = do advance_html env; rounds result
  child_trans rounds result idx false = do
    start ← gets (λ p. p.start)
    raw ← gets (λ p. p.raw)
    set_offset (start + idx + 1)
    e ← code
    advance_html env
    rounds (result ++ (leading raw start idx ++ e ∷ []))

  unfoldable pub child_text : (List Node → M (List Node)) → List Node → Option ℕ → M (List Node)
  unfolding child_trans
  child_text rounds result none = do n ← emit_literal; advance_html env; rounds (result ++ n ∷ [])
  child_text rounds result (some idx) = do
    escaped ← gets (λ p. is_trans (get_elem? p.raw (idx + 1)))
    child_trans rounds result idx escaped

  unfoldable pub child_error : List Node → HtmlError → M (List Node)
  child_error result e = if is_eof e then pure result else errorf (html_tokenizer e)

  unfoldable pub child_round :
      (List Node → List Bytes → M (List Node))
      → M (List Node)
      → List Node
      → List Bytes
      → TokenType
      → M (List Node)
  unfolding child_start child_end child_text child_error
  child_round rounds children result stack error_token = do
    e ← gets (λ p. p.err)
    child_error result e
  child_round rounds children result stack start_tag_token =
      child_start rounds children result stack
  child_round rounds children result stack self_closing_tag_token =
      child_start rounds children result stack
  child_round rounds children result stack end_tag_token = do
    name ← gets (λ p. p.tagname)
    child_end rounds result stack name
  child_round rounds children result stack text_token = do
    at ← gets (λ p. index_trans p.raw)
    child_text (λ ns. rounds ns stack) result at
  child_round rounds children result stack comment_token = do advance_html env; rounds result stack
  child_round rounds children result stack doctype_token = errorf doctype_in_element

  unfoldable pub children_step :
      (List Node → List Bytes → M (List Node))
      → M (List Node)
      → List Node
      → List Bytes
      → M (List Node)
  unfolding child_round
  children_step rounds children result stack = do
    typ ← gets (λ p. p.toktyp)
    child_round rounds children result stack typ

-- `codeParser.transition`: white space, one element, and a new scanner behind it.
unfoldable pub html_transition : Env → ℕ → M Node → M Nodes
html_transition env fuel parse_element = do
  advance_html env
  ws ← skip_whitespace env fuel
  e ← parse_element
  reset
  pure (of_list (ws ++ e ∷ []))
