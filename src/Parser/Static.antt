-- ===== src/Parser/Static.antt =====
-- parser.go: `parse` on a page with no transition.
use pushup.Base.{
  ℕ, zero, suc, ◌+◌, ◌≤◌, ◌≡◌, ◌≢◌, refl, Bool, true, false, ◌&&◌, none, [], if◌then◌else◌, length,
  All, take, drop, Bytes, arith,
}
use pushup.Lexer.Scan.{ScanResult, scan_attrs}
use pushup.Lexer.Scan
use pushup.Tree.Node.{Node, literal}
use pushup.Parser.State.{error_token, no_error, eof_error, attrs_error, HtmlToken, Parser, returned}
use pushup.Parser.Env.{Env}
use pushup.Parser.Tokens.{remaining_source}
use pushup.Parser.Html.{index_trans, set_attrs, is_no_error, read_attrs, with_token, advance_html}
use pushup.Parser.StartTag.{IsStatic, IsOrdered}

-- A literal that stands before the end of a source of `len` bytes.
abbrev pub IsLiteralIn : ℕ → Node → Type 0
IsLiteralIn len (literal s pos) = pos.start + 1 ≤ len
IsLiteralIn len e = ⊥

-- What the scan of a tag's attributes gives: attributes one behind the other with no `^`, or an error.
abbrev pub HasStaticAttrs : ℕ → ScanResult → Type 0
HasStaticAttrs len (Scan.parsed found) = All IsStatic found × IsOrdered 0 len found
HasStaticAttrs len (Scan.failed e) = Unit
HasStaticAttrs len r = ⊥

module _ (env : Env) where
  abbrev attrs_of : HtmlToken → ScanResult
  attrs_of t =
      if t.has_attr && is_no_error t.err
      then scan_attrs env.named_char_refs t.raw
      else Scan.parsed []

  -- A token of a page with no transition.
  pub record IsStaticToken (t : HtmlToken) : Type 0 where
    pub no_end : t.toktyp ≢ error_token
    pub not_empty : 1 ≤ length t.raw
    pub no_trans : index_trans t.raw ≡ none
    pub static_attrs : HasStaticAttrs (length t.raw) (attrs_of t)

  -- From `offset` on, the tokenizer cuts the source into `n` such tokens, up to its end.
  abbrev pub IsStaticFrom : Bytes → ℕ → ℕ → Type 0
  IsStaticFrom src zero offset =
      (offset ≡ length src)
      × ((env.next_token (drop offset src)).toktyp ≡ error_token)
      × ((env.next_token (drop offset src)).err ≡ eof_error)
  IsStaticFrom src (suc n) offset =
      IsStaticToken (env.next_token (drop offset src))
      × (offset + length (env.next_token (drop offset src)).raw ≤ length src)
      × (take (length (env.next_token (drop offset src)).raw) (drop offset src)
          ≡ (env.next_token (drop offset src)).raw)
      × IsStaticFrom src n (offset + length (env.next_token (drop offset src)).raw)

  -- A token with no transition, whatever scanAttrs makes of it.
  pub record IsPlainToken (t : HtmlToken) : Type 0 where
    pub no_end : t.toktyp ≢ error_token
    pub not_empty : 1 ≤ length t.raw
    pub no_trans : index_trans t.raw ≡ none

  -- From `offset` on, the tokenizer cuts the source into `n` tokens with no transition, up to its end.
  abbrev pub IsPlainFrom : Bytes → ℕ → ℕ → Type 0
  IsPlainFrom src zero offset =
      (offset ≡ length src)
      × ((env.next_token (drop offset src)).toktyp ≡ error_token)
      × ((env.next_token (drop offset src)).err ≡ eof_error)
  IsPlainFrom src (suc n) offset =
      IsPlainToken (env.next_token (drop offset src))
      × (offset + length (env.next_token (drop offset src)).raw ≤ length src)
      × (take (length (env.next_token (drop offset src)).raw) (drop offset src)
          ≡ (env.next_token (drop offset src)).raw)
      × IsPlainFrom src n (offset + length (env.next_token (drop offset src)).raw)

  -- What scanAttrs makes of each of these tokens that has attributes.
  abbrev pub HasStaticTags : Bytes → ℕ → ℕ → Type 0
  HasStaticTags src zero offset = Unit
  HasStaticTags src (suc n) offset =
      let t = env.next_token (drop offset src) in
      HasStaticAttrs (length t.raw) (attrs_of t) × HasStaticTags src n (offset + length t.raw)

  pub IsPlainFrom-IsStaticFrom :
      (src : Bytes) (n offset : ℕ)
      → IsPlainFrom src n offset
      → HasStaticTags src n offset
      → IsStaticFrom src n offset
  IsPlainFrom-IsStaticFrom src zero offset h k = h
  IsPlainFrom-IsStaticFrom src (suc n) offset (h, fits, cut, rest) (k, ks) =
      let t = env.next_token (drop offset src) in
      (
        record {
          no_end = h.no_end;
          not_empty = h.not_empty;
          no_trans = h.no_trans;
          static_attrs = k;
        },
        fits,
        cut,
        IsPlainFrom-IsStaticFrom src n (offset + length t.raw) rest ks,
      )

  -- The parser behind a token.
  pub record HasRead (t : HtmlToken) (p q : Parser) : Type 0 where
    pub toktyp : q.toktyp ≡ t.toktyp
    pub raw : q.raw ≡ t.raw
    pub start : q.start ≡ p.offset
    pub offset : q.offset ≡ p.offset + length t.raw
    pub src : q.src ≡ p.src
    pub static_attrs : All IsStatic q.attrs
    pub ordered : IsOrdered 0 (length q.raw) q.attrs

  pub advance_html-HasRead :
      (t : HtmlToken) (p : Parser)
      → env.next_token (remaining_source p) ≡ t
      → 1 ≤ length t.raw
      → HasStaticAttrs (length t.raw) (attrs_of t)
      → (q : Parser) × (advance_html env p ≡ returned tt q) × HasRead t p q
  unfolding advance_html read_attrs set_attrs
  advance_html-HasRead t p e ne s =
      by_result (t.has_attr && is_no_error t.err) refl (scan_attrs env.named_char_refs t.raw) refl s
    where
      by_result :
          (b : Bool)
          → (t.has_attr && is_no_error t.err) ≡ b
          → (r : ScanResult) → scan_attrs env.named_char_refs t.raw ≡ r
          → HasStaticAttrs (length t.raw) (if b then r else Scan.parsed [])
          → (q : Parser) × (advance_html env p ≡ returned tt q) × HasRead t p q
      by_result false h r k s = (
        record (with_token env t p) { start = p.offset; offset = p.offset + length t.raw },
        ground (arith, e, h),
        record {
          toktyp = refl;
          raw = refl;
          start = refl;
          offset = refl;
          src = refl;
          static_attrs = tt;
          ordered = ne;
        },
      )
      by_result true h (Scan.parsed found) k (s, o) = (
        record (with_token env t p) {
          attrs = found;
          err = no_error;
          start = p.offset;
          offset = p.offset + length t.raw;
        },
        ground (arith, e, h, k),
        record {
          toktyp = refl;
          raw = refl;
          start = refl;
          offset = refl;
          src = refl;
          static_attrs = s;
          ordered = o;
        },
      )
      by_result true h (Scan.failed x) k s = (
        record (with_token env t p) {
          attrs = [];
          err = attrs_error x;
          start = p.offset;
          offset = p.offset + length t.raw;
        },
        ground (arith, e, h, k),
        record {
          toktyp = refl;
          raw = refl;
          start = refl;
          offset = refl;
          src = refl;
          static_attrs = tt;
          ordered = ne;
        },
      )
      by_result true h Scan.crashed k s = absurd s
      by_result true h Scan.no_fuel k s = absurd s
