-- ===== src/Parser/Quoted.antt =====
-- parser.go and lexer.go: a start tag with an attribute in single quotes.
use pushup.Base.{
  ℕ, ◌+◌, ◌≤◌, ◌≡◌, true, refl, ap, ◌∙◌, some, [], ◌∷◌, length, drop, All, All-imp, Bytes, Lacks,
  arith,
}
use pushup.Lexer.Scan.{scan_attrs, failed}
use pushup.Lexer.SingleQuotes.Inside.{
  IsLetter, IsTagByte, IsNameByte, IsLetter-IsNameByte, single_quoted_tag,
}
use pushup.Lexer.SingleQuotes.{scan_attrs_single_quotes}
use pushup.Lexer.Defs.{ScanError}
use pushup.Tree.Node.{Span, Node, literal}
use pushup.Parser.State.{start_tag_token, no_error, attrs_error, HtmlToken, Parser, returned, M}
use pushup.Parser.Bind.{>>=-returned}
use pushup.Parser.Env.{Env}
use pushup.Parser.Html.{
  with_token, advance_html, read_attrs, set_attrs, emit_literal_from_range, start_tag_of,
  parse_start_tag,
}
use pushup.Parser.Document.{document_at, document_round}
use pushup.Parser.Ranges.{take-all}
use pushup.Parser.Rounds.{source_from-le}

abbrev pub quoted_token : Bytes → Bytes → Bytes → HtmlToken
quoted_token tag name body = record {
  toktyp = start_tag_token;
  err = no_error;
  raw = single_quoted_tag tag name body;
  tagname = tag;
  has_attr = true;
}

module _ (env : Env) where
  -- What `advance` leaves behind a tag that scanAttrs refuses.
  abbrev pub refused : HtmlToken → ScanError → Parser → Parser
  refused t e p = record (with_token env t p) {
    attrs = [];
    err = attrs_error e;
    start = p.offset;
    offset = p.offset + length t.raw;
  }

  whole_range :
      (p : Parser)
      → emit_literal_from_range 0 (length p.raw) p
        ≡ returned (literal p.raw (record { start = p.start + 0; end = p.start + length p.raw })) p
  whole_range p = ground (arith, take-all p.raw)

  whole_tag :
      (p : Parser) (code : M Node)
      → p.attrs ≡ []
      → parse_start_tag code p
        ≡ returned
            (literal p.raw (record { start = p.start + 0; end = p.start + length p.raw }) ∷ [])
            p
  unfolding parse_start_tag start_tag_of
  whole_tag p code h =
      ap (λ as'. start_tag_of code as' p) h
      ∙ >>=-returned (emit_literal_from_range 0 (length p.raw)) (λ n. λ q. returned (n ∷ []) q) p _
          p (whole_range p)

  refused-scan_attrs :
      (t : HtmlToken) (e : ScanError) (p : Parser) (code : M Node)
      → t.toktyp ≡ start_tag_token
      → t.has_attr ≡ true
      → t.err ≡ no_error
      → scan_attrs env.named_char_refs t.raw ≡ failed e
      → p.offset ≤ length p.src
      → env.next_token (drop p.offset p.src) ≡ t
      → document_round env code p
        ≡ returned
            (some
              (literal t.raw (record { start = p.offset + 0; end = p.offset + length t.raw }) ∷ []))
            (refused t e p)
  unfolding document_round document_at advance_html read_attrs set_attrs
  refused-scan_attrs t e p code k a x f le h =
      ground (
        arith,
        k,
        a,
        x,
        f,
        source_from-le env p.offset p le,
        h,
        whole_tag (refused t e p) code refl,
      )

  -- A start tag with one attribute in single quotes whose text has no `"`, with ASCII letters for the
  -- name of the tag and of the attribute: scanAttrs refuses it, and parseDocument emits the whole tag as
  -- one literal, with no error, so that a `^` in the value stays in the page as it is.
  pub document_round-single_quoted_tag :
      (t : ℕ) (ts : Bytes) (n : ℕ) (ns body : Bytes) (p : Parser) (code : M Node)
      → All IsLetter (t ∷ ts)
      → All IsLetter (n ∷ ns)
      → Lacks b'"' body
      → p.offset ≤ length p.src
      → env.next_token (drop p.offset p.src) ≡ quoted_token (t ∷ ts) (n ∷ ns) body
      → (span : Span) × (q : Parser) × (document_round env code p
          ≡ returned (some (literal (single_quoted_tag (t ∷ ts) (n ∷ ns) body) span ∷ [])) q)
  document_round-single_quoted_tag t ts n ns body p code ht hn hb le h =
      let (e, f) =
        scan_attrs_single_quotes env.named_char_refs t ts n ns body ht.0
          (All-imp IsLetter IsTagByte (λ c k. (IsLetter-IsNameByte c k).0) ts ht.1)
          (All-imp IsLetter IsNameByte IsLetter-IsNameByte (n ∷ ns) hn) hb in
      let token = quoted_token (t ∷ ts) (n ∷ ns) body in
      (
        record { start = p.offset + 0; end = p.offset + length token.raw },
        refused token e p,
        refused-scan_attrs token e p code refl refl refl f le h,
      )
