-- ===== src/Parser/Env.antt =====
-- What the parser calls: packages html, go/scanner, go/token, go/parser and unicode, and the table of
-- character references of entities.go.
use pushup.Base.{ℕ, Bool, true, false, Option, [], ◌==◌, ◌||◌, leb, ◌&&◌, Bytes, codes}
use pushup.Parser.State.{
  HtmlToken, Token, illegal, eof, comment, ident, int, float, imag, char, string, semicolon, lbrace,
  rbrace, lparen, rparen, lbrack, rbrack, period, not_op, rem, and_op, xor, lss, import_kw, for_kw,
  if_kw, else_kw, other_keyword, other_operator, GoToken,
}

pub record Env : Type 0 where
  -- the first token of a text
  pub next_token : Bytes → HtmlToken
  pub named_char_refs : Bytes → Option Bytes
  -- what the call of `Scan` of that number returns, for a scanner of the text
  pub scan : Bytes → ℕ → GoToken
  -- the text of the other tokens
  pub other_string : ℕ → Bytes
  -- `ParseExpr` returns no error
  pub parse_expr : Bytes → Bool
  -- `utf8.DecodeRuneInString`: the character and its size
  pub decode_rune : Bytes → ℕ × ℕ
  pub is_space : ℕ → Bool
  pub is_letter : ℕ → Bool
  pub is_number : ℕ → Bool

-- `IsLiteral`, `IsKeyword`, and the three other tokens whose text the scanner returns.
abbrev pub has_lit : Token → Bool
has_lit illegal = true
has_lit comment = true
has_lit ident = true
has_lit int = true
has_lit float = true
has_lit imag = true
has_lit char = true
has_lit string = true
has_lit semicolon = true
has_lit import_kw = true
has_lit for_kw = true
has_lit if_kw = true
has_lit else_kw = true
has_lit (other_keyword k) = true
has_lit t = false

-- `Token.String` of the tokens that `has_lit` does not hold of.
abbrev pub token_string : Env → Token → Bytes
token_string env eof = codes "EOF"
token_string env lbrace = codes "{"
token_string env rbrace = codes "}"
token_string env lparen = codes "("
token_string env rparen = codes ")"
token_string env lbrack = codes "["
token_string env rbrack = codes "]"
token_string env period = codes "."
token_string env not_op = codes "!"
token_string env rem = codes "%"
token_string env and_op = codes "&"
token_string env xor = codes "^"
token_string env lss = codes "<"
token_string env (other_operator k) = env.other_string k
token_string env t = []

-- Tests of a token against one of its kinds.
abbrev pub is_lbrace : Token → Bool
is_lbrace lbrace = true
is_lbrace t = false

abbrev pub is_rbrace : Token → Bool
is_rbrace rbrace = true
is_rbrace t = false

abbrev pub is_ident : Token → Bool
is_ident ident = true
is_ident t = false

abbrev pub is_string : Token → Bool
is_string string = true
is_string t = false

abbrev pub is_rparen : Token → Bool
is_rparen rparen = true
is_rparen t = false

abbrev pub is_rbrack : Token → Bool
is_rbrack rbrack = true
is_rbrack t = false

-- unicode.IsSpace of one byte taken for a character.
abbrev pub is_space_byte : ℕ → Bool
is_space_byte c = (leb 9 c && leb c 13) || c == 32 || c == 0x85 || c == 0xA0
