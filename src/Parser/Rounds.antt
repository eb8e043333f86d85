-- ===== src/Parser/Rounds.antt =====
-- parser.go: one round of `parseDocument` on a page with no transition.
use pushup.Base.{
  ℕ, ◌+◌, ◌≤◌, ◌≡◌, ◌≢◌, refl, ap, ◌∙◌, Option, none, some, List, [], ◌∷◌, length, All, drop,
  append-nil, Bytes, arith,
}
use pushup.Tree.Node.{Node, literal}
use pushup.Parser.State.{
  TokenType, error_token, text_token, start_tag_token, end_tag_token, self_closing_tag_token,
  comment_token, doctype_token, eof_error, HtmlToken, Parser, returned, M, pure, ◌>>=◌, source_from,
}
use pushup.Parser.Bind.{>>=-returned}
use pushup.Parser.Env.{Env}
use pushup.Parser.Html.{
  index_trans, index_escape, read_attrs, with_token, advance_html, parse_start_tag,
}
use pushup.Parser.Document.{document_at, document_round, end_of_document, text_nodes}
use pushup.Parser.Ranges.{Covers, texts, texts-Covers, take-all}
use pushup.Parser.StartTag.{parse_start_tag-Covers}
use pushup.Parser.Static.{IsLiteralIn, IsStaticToken, HasRead, advance_html-HasRead}

module _ (env : Env) where
  -- The nodes of a round are the text of its token.
  abbrev pub HasEmitted : HtmlToken → Parser → M (Option (List Node)) → Parser → Type 0
  HasEmitted t p m q0 =
      (ns : List Node) × (q : Parser) × (m q0 ≡ returned (some ns) q)
      × (texts ns ≡ t.raw)
      × All (IsLiteralIn (length p.src)) ns
      × (q.offset ≡ p.offset + length t.raw)
      × (q.src ≡ p.src)

  Covers-IsLiteralIn :
      (len start : ℕ) (raw : Bytes) (from to : ℕ) (ns : List Node)
      → start + length raw ≤ len
      → Covers start raw from ns to
      → All (IsLiteralIn len) ns
  unfolding Covers
  Covers-IsLiteralIn len start raw from to [] k h = tt
  Covers-IsLiteralIn len start raw from to (literal s span ∷ ns) k (m, l, a, b, h) =
      (omega (arith, ap (λ p. p.start) b, l, k), Covers-IsLiteralIn len start raw m to ns k h)
  Covers-IsLiteralIn len start raw from to (_ ∷ ns) k h = absurd h

  start_tag-HasEmitted :
      (t : HtmlToken) (p q : Parser) (code : M Node)
      → HasRead env t p q
      → p.offset + length t.raw ≤ length p.src
      → HasEmitted t p (parse_start_tag code >>= λ ns. pure (some ns)) q
  start_tag-HasEmitted t p q code r fits =
      let (ns, e, c) = parse_start_tag-Covers code q r.static_attrs r.ordered in
      (
        ns,
        q,
        >>=-returned (parse_start_tag code) (λ ns. pure (some ns)) q ns q e,
        texts-Covers q.start q.raw 0 (length q.raw) ns c ∙ (take-all q.raw ∙ r.raw),
        Covers-IsLiteralIn (length p.src) q.start q.raw 0 (length q.raw) ns
            (inside r.start (ap length r.raw) fits) c,
        r.offset,
        r.src,
      )
    where
      inside :
          q.start ≡ p.offset
          → length q.raw ≡ length t.raw
          → p.offset + length t.raw ≤ length p.src
          → q.start + length q.raw ≤ length p.src
      inside a b h = omega (arith, a, b, h)

  literal-HasEmitted :
      (t : HtmlToken) (p q : Parser)
      → HasRead env t p q
      → (texts (literal q.raw (record { start = q.start; end = q.offset }) ∷ []) ≡ t.raw)
  literal-HasEmitted t p q r = append-nil q.raw ∙ r.raw

  document_at-HasEmitted :
      (t : HtmlToken) (p q : Parser) (code : M Node)
      → t.toktyp ≢ error_token
      → 1 ≤ length t.raw
      → index_trans t.raw ≡ none
      → HasRead env t p q
      → p.offset + length t.raw ≤ length p.src
      → HasEmitted t p (document_at env code t.toktyp) q
  unfolding document_at text_nodes
  document_at-HasEmitted t p q code n ne i r fits = by_type t.toktyp n
    where
      whole : List Node
      whole = literal q.raw (record { start = q.start; end = q.offset }) ∷ []

      inside : q.start + 1 ≤ length p.src
      inside = omega (arith, r.start, ne, fits)

      by_type : (k : TokenType) → k ≢ error_token → HasEmitted t p (document_at env code k) q
      by_type error_token n = absurd (n refl)
      by_type start_tag_token n = start_tag-HasEmitted t p q code r fits
      by_type self_closing_tag_token n = start_tag-HasEmitted t p q code r fits
      by_type text_token n = (
        whole,
        q,
        ap (λ o. (text_nodes env code q.raw o (index_escape q.raw) >>= λ ns. pure (some ns)) q)
            (ap index_trans r.raw ∙ i),
        literal-HasEmitted t p q r,
        (inside, tt),
        r.offset,
        r.src,
      )
      by_type end_tag_token n =
          (whole, q, refl, literal-HasEmitted t p q r, (inside, tt), r.offset, r.src)
      by_type comment_token n =
          (whole, q, refl, literal-HasEmitted t p q r, (inside, tt), r.offset, r.src)
      by_type doctype_token n =
          (whole, q, refl, literal-HasEmitted t p q r, (inside, tt), r.offset, r.src)

  pub source_from-le :
      (offset : ℕ) (p : Parser) → offset ≤ length p.src → source_from offset p ≡ drop offset p.src
  source_from-le offset p h = ground (arith, h)

  pub document_round-HasEmitted :
      (p : Parser) (code : M Node)
      → p.offset ≤ length p.src
      → IsStaticToken env (env.next_token (drop p.offset p.src))
      → p.offset + length (env.next_token (drop p.offset p.src)).raw ≤ length p.src
      → HasEmitted (env.next_token (drop p.offset p.src)) p (document_round env code) p
  unfolding document_round
  document_round-HasEmitted p code le k fits =
      let t = env.next_token (drop p.offset p.src) in
      let (q, e, r) =
        advance_html-HasRead env t p (ap env.next_token (source_from-le p.offset p le)) k.not_empty
          k.static_attrs in
      let (ns, q', e', x, l, o, s) =
        document_at-HasEmitted t p q code k.no_end k.not_empty k.no_trans r fits in
      (
        ns,
        q',
        >>=-returned (advance_html env) (λ _. (λ x. document_at env code x.toktyp x)) p tt q e
            ∙ (ap (λ k. document_at env code k q) r.toktyp ∙ e'),
        x,
        l,
        o,
        s,
      )

  -- The end of the document: the tokenizer's error is io.EOF.
  pub document_round-end :
      (p : Parser) (code : M Node)
      → p.offset ≤ length p.src
      → (env.next_token (drop p.offset p.src)).toktyp ≡ error_token
      → (env.next_token (drop p.offset p.src)).err ≡ eof_error
      → (q : Parser) × (document_round env code p ≡ returned none q)
  unfolding document_round document_at end_of_document advance_html read_attrs
  document_round-end p code le h e =
      let t = env.next_token (drop p.offset p.src) in
      (
        record (with_token env t p) { start = p.offset; offset = p.offset + length t.raw },
        ground (arith, h, e, source_from-le p.offset p le),
      )
