-- ===== src/Parser/Verbatim.antt =====
-- parser.go: `parseDocument` and `parse` on a page with no transition.
use pushup.Base.{
  ℕ, zero, suc, ◌+◌, ◌≤◌, ◌<◌, ◌≡◌, refl, sym, ap, ◌∙◌, none, some, List, [], ◌∷◌, ◌++◌, length,
  All, All-append, take, drop, drop-drop, drop-length, take-append-drop, append-nil, append_assoc,
  Bytes, arith,
}
use mathlib.Core.Path.{subst}
use pushup.Tree.Node.{Node, SyntaxTree}
use pushup.Parser.State.{Parser, new_parser, returned}
use pushup.Parser.Bind.{>>=-returned}
use pushup.Parser.Env.{Env}
use pushup.Parser.Code.{parse_code, transition_of}
use pushup.Parser.Document.{
  document_at, document_round, document_next, end_of_document, text_nodes, parse_document,
  ParseResult, recovered, parse,
}
use pushup.Parser.Document
use pushup.Parser.Ranges.{text_of, texts}
use pushup.Parser.Static.{
  IsLiteralIn, IsStaticFrom, IsPlainFrom, HasStaticTags, IsPlainFrom-IsStaticFrom,
}
use pushup.Parser.Rounds.{document_round-HasEmitted, document_round-end}

module _ (env : Env) where
  texts-append : (ms ns : List Node) → texts (ms ++ ns) ≡ texts ms ++ texts ns
  texts-append [] ns = refl
  texts-append (m ∷ ms) ns =
      ap (λ t. text_of m ++ t) (texts-append ms ns)
      ∙ sym (append_assoc (text_of m) (texts ms) (texts ns))

  -- The rounds from a place on give the text behind it.
  parse_document-IsStatic :
      (n fuel : ℕ) (p : Parser) (result : List Node)
      → n < fuel
      → p.offset ≤ length p.src
      → IsStaticFrom env p.src n p.offset
      → (ns : List Node) × (q : Parser) × (parse_document env fuel result p
          ≡ returned (result ++ ns) q)
        × (texts ns ≡ drop p.offset p.src)
        × All (IsLiteralIn (length p.src)) ns
  unfolding parse_document document_next
  parse_document-IsStatic n zero p result lt le h = absurd (omega (arith, lt))
  parse_document-IsStatic zero (suc fuel) p result lt le (at_end, typ, err) =
      let code = transition_of env (parse_code env fuel) in
      let (q, e) = document_round-end env p code le typ err in
      (
        [],
        q,
        >>=-returned (document_round env code) (document_next env (parse_document env fuel) result)
              p none q e
            ∙ ap (λ r. returned r q) (sym (append-nil result)),
        sym (ap (λ k. drop k p.src) at_end ∙ drop-length p.src),
        tt,
      )
  parse_document-IsStatic (suc n) (suc fuel) p result lt le (static, fits, cut, rest) =
      let code = transition_of env (parse_code env fuel) in
      let t = env.next_token (drop p.offset p.src) in
      let (ms, q, e, text, lits, offset, src) =
        document_round-HasEmitted env p code le static fits in
      let (ns, q', e', text', lits') =
        parse_document-IsStatic n fuel q (result ++ ms) (omega (arith, lt))
          (next_le t.raw q offset src fits)
          (subst (λ s. IsStaticFrom env s n q.offset) (sym src)
            (subst (λ o. IsStaticFrom env p.src n o) (sym offset) rest)) in
      (
        ms ++ ns,
        q',
        >>=-returned (document_round env code) (document_next env (parse_document env fuel) result)
              p (some ms) q e
            ∙ (e' ∙ ap (λ r. returned r q') (append_assoc result ms ns)),
        texts-append ms ns
            ∙ (ap (λ s. s ++ texts ns) (text ∙ sym cut)
                ∙ (ap (λ s. take (length t.raw) (drop p.offset p.src) ++ s)
                      (text' ∙ next_text t.raw q offset src)
                    ∙ take-append-drop (length t.raw) (drop p.offset p.src))),
        All-append (IsLiteralIn (length p.src)) ms ns lits
            (subst (λ s. All (IsLiteralIn (length s)) ns) src lits'),
      )
    where
      next_le :
          (raw : Bytes) (q : Parser)
          → q.offset ≡ p.offset + length raw
          → q.src ≡ p.src
          → p.offset + length raw ≤ length p.src
          → q.offset ≤ length q.src
      next_le raw q o s h =
          let l : length q.src ≡ length p.src = ap length s in omega (arith, o, l, h)

      next_text :
          (raw : Bytes) (q : Parser)
          → q.offset ≡ p.offset + length raw
          → q.src ≡ p.src
          → drop q.offset q.src ≡ drop (length raw) (drop p.offset p.src)
      next_text raw q o s =
          ap (λ k. drop k q.src) o
          ∙ (ap (drop (p.offset + length raw)) s ∙ sym (drop-drop p.offset (length raw) p.src))

  -- A page that the tokenizer cuts into tokens with no `^`, of whose tags scanAttrs reports each as an error
  -- or gives attributes that stand in order within the tag and have no `^`: with more fuel than tokens, parse
  -- returns literals only, and their texts are the page, byte for byte.
  pub parse-IsStatic :
      (src : Bytes) (n fuel : ℕ)
      → n < fuel
      → IsPlainFrom env src n 0
      → HasStaticTags env src n 0
      → (tree : SyntaxTree) × (parse env fuel src ≡ Document.parsed tree)
        × (texts tree.nodes ≡ src)
        × All (IsLiteralIn (length src)) tree.nodes
  unfolding parse new_parser
  parse-IsStatic src n fuel lt h k =
      let (ns, q, e, text, lits) =
        parse_document-IsStatic n fuel (new_parser src) [] lt (omega arith)
          (IsPlainFrom-IsStaticFrom env src n 0 h k) in
      (record { nodes = ns }, ap recovered e, text, lits)
