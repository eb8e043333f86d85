-- ===== src/Parser/State.antt =====
-- parser.go: the state of `parser`, `htmlParser` and `codeParser`, and how a parse ends.
--
-- Each page has one of the three, and each points to the others, so their fields are one record. A
-- `token.Pos` is its offset in the file of the scanner, which is what `file.Offset` makes of it.
use pushup.Base.{
  ℕ, suc, ◌+◌, ◌-◌, Bool, true, false, Option, none, some, List, [], ◌∷◌, ◌==◌, leb, if◌then◌else◌,
  length, take, drop, Bytes, count,
}
use pushup.Lexer.Defs.{ScanError, Attr}

-- Types of package html.
pub data TokenType : Type 0 where
  error_token text_token start_tag_token end_tag_token self_closing_tag_token : TokenType
  comment_token doctype_token : TokenType

-- `htmlParser.err`: nil, io.EOF, another error of the tokenizer, or that of `scanAttrs`.
pub data HtmlError : Type 0 where
  no_error eof_error tokenizer_error : HtmlError
  attrs_error : ScanError → HtmlError

-- What the tokenizer gives for its first token.
pub record HtmlToken : Type 0 where
  pub toktyp : TokenType
  pub err : HtmlError
  pub raw : Bytes
  pub tagname : Bytes
  pub has_attr : Bool

-- `token.Token` of package go/token: those that the source names, and the others.
pub data Token : Type 0 where
  illegal eof comment ident int float imag char string semicolon : Token
  lbrace rbrace lparen rparen lbrack rbrack period not_op rem and_op xor lss : Token
  import_kw for_kw if_kw else_kw : Token
  other_keyword other_operator : ℕ → Token

-- What the scanner returns, and what `lookahead` makes of it.
pub record GoToken : Type 0 where
  pub pos : ℕ
  pub tok : Token
  pub lit : Bytes

-- The calls of `errorf`.
pub data Complaint : Type 0 where
  html_tokenizer : HtmlError → Complaint
  layout_without_space : Complaint
  expected_element expected_end_tag : TokenType → Complaint
  expected_end mismatched_end : Bytes → Bytes → Complaint
  doctype_in_element : Complaint
  literal_without_parens eof_in_code : Complaint
  invalid_token expected_code expected_token : Token → Complaint
  eof_in_if illegal_if_cond eof_in_for eof_in_block several_elements : Complaint
  eof_in_code_block eof_in_expression eof_in_call : Complaint
  expected_if illegal_token : Bytes → Complaint
  illegal_expression : Bytes → Complaint

pub record Parser : Type 0 where
  pub src : Bytes
  pub offset : ℕ
  pub toktyp : TokenType
  pub tagname : Bytes
  pub err : HtmlError
  pub raw : Bytes
  pub attrs : List Attr
  pub start : ℕ
  pub base_offset : ℕ
  -- the text of the scanner, and how often `Scan` was called on it
  pub scanned : Bytes
  pub scans : ℕ
  pub buffered_token : Option GoToken
  pub accepted_token : Option GoToken
  pub lookahead_token : Option GoToken

unfoldable pub new_parser : Bytes → Parser
new_parser source = record {
  src = source;
  offset = 0;
  toktyp = error_token;
  tagname = [];
  err = no_error;
  raw = [];
  attrs = [];
  start = 0;
  base_offset = 0;
  scanned = [];
  scans = 0;
  buffered_token = none;
  accepted_token = none;
  lookahead_token = none;
}

pub record SyntaxError : Type 0 where
  pub err : Complaint
  pub line_no : ℕ
  pub column : ℕ

-- A call returns, panics with a syntaxError, or panics otherwise. `out_of_fuel` is not a behaviour of
-- the source.
pub data Outcome (A : Type 0) : Type 0 where
  returned : A → Parser → Outcome A
  syntax_error : SyntaxError → Outcome A
  crashed : Outcome A
  out_of_fuel : Outcome A

abbrev pub M : Type 0 → Type 0
M A = Parser → Outcome A

abbrev pub pure : {A : Type 0} → A → M A
pure a p = returned a p

abbrev pub crash : {A : Type 0} → M A
crash p = crashed

abbrev pub no_fuel : {A : Type 0} → M A
no_fuel p = out_of_fuel

infixl 5 ◌>>=◌ ◌>>◌
abbrev pub ◌>>=◌ : {A B : Type 0} → M A → (A → M B) → M B
◌>>=◌ m f p = elim (m p) [
  | returned a p' ↦ f a p'
  | syntax_error e ↦ syntax_error e
  | crashed ↦ crashed
  | out_of_fuel ↦ out_of_fuel
]

abbrev pub ◌>>◌ : {B : Type 0} → M (Unit {0}) → M B → M B
m >> k = m >>= λ _. k

abbrev pub gets : {A : Type 0} → (Parser → A) → M A
gets f p = returned (f p) p

abbrev pub modify : (Parser → Parser) → M (Unit {0})
modify f p = returned tt (f p)

abbrev pub set_offset : ℕ → M (Unit {0})
set_offset n = modify (λ p. record p { offset = n })

-- A slice out of range is a crash.
abbrev pub of_option : {A : Type 0} → Option A → M A
of_option none p = crashed
of_option (some a) p = returned a p

-- strings.LastIndex of a newline.
unfoldable pub later_newline : Option ℕ → ℕ → Option ℕ
later_newline (some i) c = some (suc i)
later_newline none c = if c == b'\n' then some 0 else none

unfoldable pub last_newline : Bytes → Option ℕ
unfolding later_newline
last_newline [] = none
last_newline (c ∷ s) = later_newline (last_newline s) c

abbrev pub column_of : ℕ → Option ℕ → ℕ
column_of offset none = offset + 1
column_of offset (some last_nl) = offset - last_nl

-- `errorf`; of an empty source, `p.src[:offset]` is out of range.
unfoldable pub error_at : Complaint → ℕ → Parser → SyntaxError
error_at c offset p =
    let up_to_err = take offset p.src in
    record {
      err = c;
      line_no = count b'\n' up_to_err + 1;
      column = column_of p.offset (last_newline up_to_err);
    }

unfoldable pub error_in : Complaint → Bytes → Parser → SyntaxError
unfolding error_at
error_in c src p =
    if leb (length src) p.offset then error_at c (length src - 1) p else error_at c p.offset p

unfoldable pub raise : {A : Type 0} → Complaint → Bytes → M A
unfolding error_in
raise c [] p = crashed
raise c (b ∷ src) p = syntax_error (error_in c (b ∷ src) p)

unfoldable pub errorf : {A : Type 0} → Complaint → M A
unfolding raise
errorf c p = raise c p.src p

-- `if !ok { p.errorf(...) }`
abbrev pub check : Bool → Complaint → M (Unit {0})
check true c = pure tt
check false c = errorf c

-- `sourceFrom`
abbrev pub source_from : ℕ → Parser → Bytes
source_from offset p = if leb offset (length p.src) then drop offset p.src else []

-- `s[from:to]`
abbrev pub slice : ℕ → ℕ → Bytes → Option Bytes
slice from to s =
    if leb from to then (if leb to (length s) then some (drop from (take to s)) else none) else none
