-- ===== src/Parser/Html.antt =====
-- parser.go: how `htmlParser` reads its tokens, and the start tag of an element.
use pushup.Base.{
  ℕ, zero, suc, ◌+◌, ◌-◌, Bool, true, false, ◌&&◌, Option, none, some, List, [], ◌∷◌, ◌++◌, ◌==◌,
  ltb, if◌then◌else◌, length, drop, Bytes, codes, has_prefix,
}
use pushup.Lexer.Defs.{Attr}
use pushup.Lexer.Scan.{ScanResult, parsed, failed, scan_attrs}
use pushup.Lexer.Scan
use pushup.Tree.Node.{Node, literal}
use pushup.Parser.State.{
  TokenType, text_token, HtmlError, no_error, attrs_error, HtmlToken, Parser, new_parser, returned,
  syntax_error, crashed, out_of_fuel, M, pure, no_fuel, ◌>>=◌, ◌>>◌, gets, modify, of_option, slice,
}
use pushup.Parser.Env.{Env}
use pushup.Parser.Tokens.{remaining_source}

-- `strings.IndexRune(s, transSym)` and `strings.Index(s, transSymEsc)`.
unfoldable pub index_trans : Bytes → Option ℕ
index_trans [] = none
index_trans (c ∷ s) =
    if c == b'^' then some 0 else elim (index_trans s) [ none ↦ none | some i ↦ some (suc i) ]

unfoldable pub index_escape : Bytes → Option ℕ
unfolding has_prefix
index_escape [] = none
index_escape (c ∷ s) =
    if has_prefix (c ∷ s) (codes "^^")
    then some 0
    else elim (index_escape s) [ none ↦ none | some i ↦ some (suc i) ]

-- `emitLiteralFromRange`, for a token `raw` that begins at `start`.
abbrev pub literal_range : ℕ → Bytes → ℕ → ℕ → Option Node
literal_range start raw from to = elim (slice from to raw) [
  | some s ↦ some (literal s (record { start = start + from; end = start + to }))
  | none ↦ none
]

abbrev pub emit_literal_from_range : ℕ → ℕ → M Node
emit_literal_from_range from to p = of_option (literal_range p.start p.raw from to) p

abbrev pub emit_literal : M Node
emit_literal p = returned (literal p.raw (record { start = p.start; end = p.offset })) p

-- `p.attrs, p.err = scanAttrs(p.raw)`
unfoldable pub set_attrs : Bytes → ScanResult → M (Unit {0})
set_attrs raw (parsed found) p = returned tt (record p { attrs = found; err = no_error })
set_attrs raw (failed e) p = returned tt (record p { attrs = []; err = attrs_error e })
set_attrs raw Scan.crashed p = crashed
set_attrs raw Scan.no_fuel p = out_of_fuel

abbrev pub is_no_error : HtmlError → Bool
is_no_error no_error = true
is_no_error e = false

-- Whether every character of a text is white space; `fuel` counts the characters, of which there are
-- no more than bytes.
unfoldable pub all_whitespace : Env → ℕ → Bytes → Bool
all_whitespace env fuel [] = true
all_whitespace env zero (c ∷ s) = true
all_whitespace env (suc fuel) (c ∷ s) =
    let (r, size) = env.decode_rune (c ∷ s) in
    let rest = all_whitespace env fuel (drop size (c ∷ s)) in if env.is_space r then rest else false

abbrev pub is_all_whitespace : Env → Bytes → Bool
is_all_whitespace env s = all_whitespace env (length s) s

abbrev pub is_text : TokenType → Bool
is_text text_token = true
is_text t = false

module _ (env : Env) where
  unfoldable pub read_attrs : Bool → Bytes → M (Unit {0})
  unfolding set_attrs
  read_attrs true raw = set_attrs raw (scan_attrs env.named_char_refs raw)
  read_attrs false raw = pure tt

  abbrev pub with_token : HtmlToken → Parser → Parser
  with_token t p = record p {
    toktyp = t.toktyp;
    tagname = t.tagname;
    err = t.err;
    raw = t.raw;
    attrs = [];
  }

  -- `htmlParser.advance`: a tokenizer of what is left of the source reads one token.
  unfoldable pub advance_html : M (Unit {0})
  unfolding read_attrs
  advance_html = do
    t ← gets (λ p. env.next_token (remaining_source p))
    modify (with_token t)
    read_attrs (t.has_attr && is_no_error t.err) t.raw
    modify (λ p. record p { start = p.offset; offset = p.offset + length t.raw })

  unfoldable pub skip_next : M (List Node) → Bool → M (List Node)
  skip_next rounds false = pure []
  skip_next rounds true = do n ← emit_literal; advance_html; ns ← rounds; pure (n ∷ ns)

  unfoldable pub skip_whitespace : ℕ → M (List Node)
  unfolding skip_next
  skip_whitespace zero = no_fuel
  skip_whitespace (suc fuel) = do
    white ← gets (λ p. is_text p.toktyp && is_all_whitespace env p.raw)
    skip_next (skip_whitespace fuel) white

-- `p.parser = newParser(text)`, a transition, and the old parser again: the node, and the offset that
-- the new parser reached. `code` is `htmlParser.transition`.
unfoldable pub run_apart : M Node → Bytes → M (Node × ℕ)
run_apart code text p = elim (code (new_parser text)) [
  | returned e q ↦ returned (e, q.offset) p
  | syntax_error e ↦ syntax_error e
  | crashed ↦ crashed
  | out_of_fuel ↦ out_of_fuel
]

module _ (code : M Node) where
  -- One round of the loop in `parseAttributeNameOrValue`, with the text left and the place in the
  -- tag: first the text before the `^`, then an escaped `^` or a transition.
  unfoldable pub trans_at :
      (Bytes → ℕ → List Node → M (List Node × ℕ)) → Bytes → ℕ → List Node → Bool → M (List Node × ℕ)
  unfolding run_apart
  trans_at rounds text pos nodes true = do
    n ← emit_literal_from_range pos (pos + 1)
    rounds (drop 2 text) (pos + 2) (nodes ++ n ∷ [])
  trans_at rounds text pos nodes false = do
    (e, bytes_read) ← run_apart code (drop 1 text)
    rest ← of_option (slice bytes_read (length text) text)
    rounds rest (pos + 1 + bytes_read) (nodes ++ e ∷ [])

  unfoldable pub trans_from :
      (Bytes → ℕ → List Node → M (List Node × ℕ)) → Bytes → ℕ → List Node → ℕ → M (List Node × ℕ)
  unfolding trans_at
  trans_from rounds text pos nodes zero =
      trans_at rounds text pos nodes (has_prefix text (codes "^^"))
  trans_from rounds text pos nodes (suc idx) = do
    n ← emit_literal_from_range pos (pos + suc idx)
    let rest = drop (suc idx) text
    trans_at rounds rest (pos + suc idx) (nodes ++ n ∷ []) (has_prefix rest (codes "^^"))

  unfoldable pub trans_round :
      (Bytes → ℕ → List Node → M (List Node × ℕ))
      → Bytes
      → ℕ
      → List Node
      → Bool
      → Option ℕ
      → M (List Node × ℕ)
  unfolding trans_from
  trans_round rounds text pos nodes true (some idx) = trans_from rounds text pos nodes idx
  trans_round rounds text pos nodes true none = pure (nodes, pos)
  trans_round rounds text pos nodes false idx = pure (nodes, pos)

  -- The loop. A round moves `pos` on, so the bytes up to `end` are rounds enough.
  unfoldable pub trans_loop : ℕ → ℕ → Bytes → ℕ → List Node → M (List Node × ℕ)
  unfolding trans_round
  trans_loop zero end text pos nodes = pure (nodes, pos)
  trans_loop (suc fuel) end text pos nodes =
      trans_round (trans_loop fuel end) text pos nodes (ltb pos end) (index_trans text)

  unfoldable pub name_or_value : Bytes → ℕ → ℕ → ℕ → Option ℕ → M (List Node × ℕ)
  name_or_value text from to pos none = do n ← emit_literal_from_range from to; pure (n ∷ [], to)
  name_or_value text from to pos (some idx) = trans_loop (to - pos) to text pos []

  unfoldable pub parse_attribute_name_or_value : Bytes → ℕ → ℕ → ℕ → M (List Node × ℕ)
  unfolding name_or_value
  parse_attribute_name_or_value text from to pos = name_or_value text from to pos (index_trans text)

  -- The raw text from the last place up to the next, if there is any.
  unfoldable pub gap : ℕ → ℕ → M (List Node × ℕ)
  gap pos to =
      if ltb pos to
      then (do n ← emit_literal_from_range pos to; pure (n ∷ [], to))
      else pure ([], pos)

  unfoldable pub attr_value : Attr → ℕ → M (List Node × ℕ)
  attr_value a pos =
      let from = a.value.start in
      if ltb pos from
      then (do
        n ← emit_literal_from_range pos from
        (ns, to) ← parse_attribute_name_or_value a.value.text from (from + length a.value.text) from
        pure (n ∷ ns, to))
      else pure ([], pos)

  unfoldable pub start_tag_attr : Attr → ℕ → M (List Node × ℕ)
  unfolding gap attr_value
  start_tag_attr a pos = do
    let from = a.name.start
    (before, p1) ← gap pos from
    (name, p2) ← parse_attribute_name_or_value a.name.text from (from + length a.name.text) p1
    (value, p3) ← attr_value a p2
    pure (before ++ (name ++ value), p3)

  unfoldable pub start_tag_attrs : List Attr → ℕ → M (List Node)
  unfolding start_tag_attr
  start_tag_attrs [] pos = do
    len ← gets (λ p. length p.raw)
    n ← emit_literal_from_range pos len
    pure (n ∷ [])
  start_tag_attrs (a ∷ as') pos = do
    (ns, to) ← start_tag_attr a pos
    rest ← start_tag_attrs as' to
    pure (ns ++ rest)

  unfoldable pub start_tag_of : List Attr → M (List Node)
  unfolding start_tag_attrs
  start_tag_of [] = do
    len ← gets (λ p. length p.raw)
    n ← emit_literal_from_range 0 len
    pure (n ∷ [])
  start_tag_of (a ∷ as') = start_tag_attrs (a ∷ as') 0

  unfoldable pub parse_start_tag : M (List Node)
  unfolding start_tag_of
  parse_start_tag p = start_tag_of p.attrs p
