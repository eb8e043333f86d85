-- ===== src/Parser/Tests.antt =====
-- Runs of the parser with a small tokenizer and scanner.
use Prim.Native.String.{String}
use pushup.Base.{
  ℕ, ◌-◌, ◌<◌, ◌≡◌, ◌≢◌, ◌⊎◌, refl, Bool, true, false, none, some, List, [], ◌∷◌, ◌==◌, leb,
  if◌then◌else◌, length, Bytes, codes, equal, All, arith,
}
use pushup.Lexer.Defs.{
  Attr, Attr, new_open_tag_lexer, consume_next_input_char, new_attr, append_curr_name,
  append_curr_val, flush_char_ref, cmp_attr_name, consumed_as_part_of_attr,
}
use pushup.Lexer.States.{
  step, read_ident, step_in, in_data, in_tag_open, in_tag_name, in_before_attr_name, in_attr_name,
  name_byte, close_name, in_after_attr_name, in_before_attr_val, in_quoted, in_attr_val_unquoted,
  in_after_attr_val_quoted, in_char_ref, in_named_char_ref, after_ident, in_self_closing_start_tag,
}
use pushup.Lexer.Scan.{scan_attrs}
use pushup.Tree.Node.{Span, Node, literal, GoCode, go_code, SyntaxTree}
use pushup.Parser.State.{
  TokenType, error_token, text_token, start_tag_token, end_tag_token, no_error, eof_error,
  HtmlToken, Token, lbrace, rbrace, ident, eof, GoToken, layout_without_space, Parser, new_parser,
  SyntaxError, returned, syntax_error, crashed, out_of_fuel, crash, ◌>>◌, errorf,
}
use pushup.Parser.Env.{Env}
use pushup.Parser.Errors.{IsPlace, errorf_lem}
use pushup.Parser.Tokens.{scanned_token, peek, advance, backup}
use pushup.Parser.Loops.{IsAt}
use pushup.Parser.Backup.{backup-advance}
use pushup.Parser.Blocks.{parse_handler_keyword, parse_code_block}
use pushup.Parser.Html.{index_trans, parse_start_tag}
use pushup.Parser.Document.{document_round, parse, parsed}
use pushup.Parser.Ranges.{texts, Covers}
use pushup.Parser.StartTag.{parse_start_tag-Covers}
use pushup.Parser.Static.{IsLiteralIn, IsPlainFrom, IsPlainToken, HasStaticTags}
use pushup.Parser.Verbatim.{parse-IsStatic}
use pushup.Parser.Quoted.{quoted_token, document_round-single_quoted_tag}
use pushup.Parser.GoBlocks.{
  parse_handler_keyword-out_of_fuel, parse_code_block-empty, parse_code_block-ne-out_of_fuel,
}

-- A scanner of a fixed text.
abbrev pub tokens_of : List GoToken → ℕ → GoToken
tokens_of [] n = record { pos = 9; tok = eof; lit = [] }
tokens_of (t ∷ ts) n = if n == 0 then t else tokens_of ts (n - 1)

abbrev html_token : TokenType → String → Bool → HtmlToken
html_token k s b = record { toktyp = k; err = no_error; raw = codes s; tagname = []; has_attr = b }

-- A tokenizer of one page.
pub page_token : Bytes → HtmlToken
unfolding equal
page_token s =
    if equal s (codes "<p a=1>hi</p>")
    then html_token start_tag_token "<p a=1>" true
    else if equal s (codes "hi</p>")
    then html_token text_token "hi" false
    else if equal s (codes "</p>")
    then html_token end_tag_token "</p>" false
    else record { toktyp = error_token; err = eof_error; raw = []; tagname = []; has_attr = false }

abbrev pub env_of : List GoToken → Env
env_of ts = record {
  next_token = page_token;
  named_char_refs = λ s. none;
  scan = λ s n. tokens_of ts n;
  other_string = λ k. [];
  parse_expr = λ s. true;
  decode_rune = λ s. (0, 0);
  is_space = λ c. c == 32;
  is_letter = λ c. leb 97 c;
  is_number = λ c. false;
}

abbrev go : ℕ → Token → String → GoToken
go n t s = record { pos = n; tok = t; lit = codes s }

-- The parser behind `keyword` in a page, at the first token of its scanner.
abbrev at_first : String → List GoToken → Parser
at_first page ts = record (new_parser (codes page)) {
  scanned = codes page;
  scans = 1;
  lookahead_token = some (scanned_token (env_of ts) (codes page) 0);
}

abbrev open_block : List GoToken
open_block = go 0 lbrace "" ∷ go 1 ident "x" ∷ []

abbrev empty_block : List GoToken
empty_block = go 0 lbrace "" ∷ go 1 rbrace "" ∷ []

abbrev full_block : List GoToken
full_block = go 0 lbrace "" ∷ go 1 ident "x" ∷ go 2 rbrace "" ∷ []

errorf_lem_example :
    (((record (new_parser (codes "a\nb^layout")) { offset = 3 }).src ≡ [])
      × (errorf {A = Unit {0}} layout_without_space
            (record (new_parser (codes "a\nb^layout")) { offset = 3 })
          ≡ crashed))
    ⊎ ((e : SyntaxError) × (errorf {A = Unit {0}} layout_without_space
            (record (new_parser (codes "a\nb^layout")) { offset = 3 })
          ≡ syntax_error e)
        × IsPlace layout_without_space (record (new_parser (codes "a\nb^layout")) { offset = 3 }) e)
errorf_lem_example =
    errorf_lem layout_without_space (record (new_parser (codes "a\nb^layout")) { offset = 3 })

at_first-IsAt : (page : String) (ts : List GoToken) → IsAt (env_of ts) 0 (at_first page ts)
unfolding new_parser
at_first-IsAt page ts = record { ahead = refl; calls = refl; no_buffer = refl }

open_block-no_end : (k : ℕ) → 0 < k → (tokens_of open_block k).tok ≢ rbrace
open_block-no_end k h e = ground (arith, h, e)

parse_handler_keyword-out_of_fuel_example :
    parse_handler_keyword (env_of open_block) 1000 (at_first "{x" open_block) ≡ out_of_fuel
parse_handler_keyword-out_of_fuel_example =
    parse_handler_keyword-out_of_fuel (env_of open_block) 1000 0 (at_first "{x" open_block)
      (at_first-IsAt "{x" open_block) refl open_block-no_end

parse_code_block-empty_example :
    (e : GoCode) × (q : Parser) × (parse_code_block
        (env_of empty_block)
        5
        (at_first "{}" empty_block)
      ≡ returned (go_code e) q)
    × (e.code ≡ codes "}")
unfolding new_parser
parse_code_block-empty_example =
    parse_code_block-empty (env_of empty_block) 4 0 (at_first "{}" empty_block) []
      (at_first-IsAt "{}" empty_block) refl refl refl

parse_code_block-ne-out_of_fuel_example :
    parse_code_block (env_of full_block) 3 (at_first "{x}" full_block) ≢ out_of_fuel
parse_code_block-ne-out_of_fuel_example =
    parse_code_block-ne-out_of_fuel (env_of full_block) 3 0 3 (at_first "{x}" full_block)
      (at_first-IsAt "{x}" full_block) refl (omega arith) (omega arith) refl

backup-advance_example :
    (q : Parser) × ((advance (env_of full_block) >> backup (env_of full_block))
        (at_first "{x}" full_block)
      ≡ returned tt q)
    × (peek (env_of full_block) q ≡ returned (go 0 lbrace "{") q)
    × (q.offset ≡ 0)
    × (advance (env_of full_block) q ≡ advance (env_of full_block) (at_first "{x}" full_block))
unfolding new_parser
backup-advance_example =
    backup-advance (env_of full_block) 0 (at_first "{x}" full_block)
      (at_first-IsAt "{x}" full_block)

abbrev pub page : Bytes
page = codes "<p a=1>hi</p>"

pub page-IsPlainFrom : IsPlainFrom (env_of []) page 3 0
unfolding page_token equal index_trans
page-IsPlainFrom =
    let tag : IsPlainToken (env_of []) (html_token start_tag_token "<p a=1>" true) = record {
      no_end = λ e. ground (arith, e);
      not_empty = omega arith;
      no_trans = refl;
    } in
    let text : IsPlainToken (env_of []) (html_token text_token "hi" false) = record {
      no_end = λ e. ground (arith, e);
      not_empty = omega arith;
      no_trans = refl;
    } in
    let end : IsPlainToken (env_of []) (html_token end_tag_token "</p>" false) = record {
      no_end = λ e. ground (arith, e);
      not_empty = omega arith;
      no_trans = refl;
    } in
    (
      tag,
      omega arith,
      refl,
      (text, omega arith, refl, (end, omega arith, refl, (refl, refl, refl))),
    )

pub page-HasStaticTags : HasStaticTags (env_of []) page 3 0
unfolding page_token equal scan_attrs new_open_tag_lexer consume_next_input_char new_attr
    append_curr_name append_curr_val flush_char_ref cmp_attr_name consumed_as_part_of_attr step
    read_ident step_in in_data in_tag_open in_tag_name in_before_attr_name in_attr_name name_byte
    close_name in_after_attr_name in_before_attr_val in_quoted in_attr_val_unquoted
    in_after_attr_val_quoted in_char_ref in_named_char_ref after_ident in_self_closing_start_tag
    index_trans
page-HasStaticTags =
    ((((refl, refl), tt), (omega arith, omega arith)), ((tt, omega arith), ((tt, omega arith), tt)))

parse-IsStatic_example :
    (tree : SyntaxTree) × (parse (env_of []) 4 (codes "<p a=1>hi</p>") ≡ parsed tree)
    × (texts tree.nodes ≡ codes "<p a=1>hi</p>")
    × All (IsLiteralIn 13) tree.nodes
parse-IsStatic_example =
    parse-IsStatic (env_of []) (codes "<p a=1>hi</p>") 3 4 (omega arith) page-IsPlainFrom
      page-HasStaticTags

-- A tokenizer that finds one tag.
abbrev one_tag : Env
one_tag = record (env_of []) {
  next_token = λ s. quoted_token (codes "a") (codes "b") (codes "^c'>");
}

document_round-single_quoted_tag_example :
    (span : Span) × (q : Parser) × (document_round one_tag crash (new_parser (codes "<a b='^c'>"))
      ≡ returned (some (literal (codes "<a b='^c'>") span ∷ [])) q)
unfolding new_parser
document_round-single_quoted_tag_example =
    document_round-single_quoted_tag one_tag b'a' [] b'b' [] (codes "^c'>")
      (new_parser (codes "<a b='^c'>")) crash (refl, tt) (refl, tt) (omega arith) (omega arith) refl

-- `<a b=c d>`, with its two attributes.
abbrev two_attrs : List Attr
two_attrs =
    record {
      name = record { text = codes "b"; start = 3 };
      value = record { text = codes "c"; start = 5 };
    }
    ∷ record {
      name = record { text = codes "d"; start = 7 };
      value = record { text = []; start = 0 };
    }
    ∷ []

abbrev at_tag : Parser
at_tag = record (new_parser (codes "<a b=c d>")) {
  raw = codes "<a b=c d>";
  attrs = two_attrs;
  offset = 9;
}

parse_start_tag-Covers_example :
    (ns : List Node) × (parse_start_tag crash at_tag ≡ returned ns at_tag)
    × Covers at_tag.start at_tag.raw 0 ns (length at_tag.raw)
unfolding index_trans
parse_start_tag-Covers_example =
    parse_start_tag-Covers crash at_tag (((refl, refl), ((refl, refl), tt)))
      (omega arith, (omega arith, omega arith))
