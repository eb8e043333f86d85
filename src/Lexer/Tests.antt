-- ===== src/Lexer/Tests.antt =====
-- Runs of the lexer: the cases of lexer_test.go, and tags that it refuses.
use Prim.Native.String.{String}
use pushup.Base.{
  All, ◌⊎◌, List, arith, ℕ, Option, none, some, [], ◌∷◌, ◌≡◌, refl, Bytes, codes, equal,
  if◌then◌else◌,
}
use pushup.Lexer.Defs.{
  ScanError, unexpected, attr_val_single_quote, Attr, new_open_tag_lexer, consume_next_input_char,
  new_attr, append_curr_name, append_curr_val, flush_char_ref, cmp_attr_name,
  consumed_as_part_of_attr, unimplemented, ambiguous_ampersand,
}
use pushup.Lexer.States.{
  step, read_ident, step_in, in_data, in_tag_open, in_tag_name, in_before_attr_name, in_attr_name,
  name_byte, close_name, in_after_attr_name, in_before_attr_val, in_quoted, in_attr_val_unquoted,
  in_after_attr_val_quoted, in_char_ref, in_named_char_ref, after_ident, in_self_closing_start_tag,
}
use pushup.Lexer.Total.{scan_attrs_total}
use pushup.Lexer.Names.{NameStands, scan_attrs-names}
use pushup.Lexer.Values.{ValueStands, scan_attrs-values}
use pushup.Lexer.SingleQuotes.Inside.{single_quoted_tag}
use pushup.Lexer.SingleQuotes.Inside.{IsLetter-IsNameByte}
use pushup.Lexer.SingleQuotes.{scan_attrs_single_quotes}
use pushup.Lexer.Scan.{ScanResult, scan_attrs, parsed, failed}

abbrev attr_of : String → ℕ → String → ℕ → Attr
attr_of n i v j = record {
  name = record { text = codes n; start = i };
  value = record { text = codes v; start = j };
}

-- A table with one entry.
abbrev table : Bytes → Option Bytes
table s = if equal s (codes "&amp") then some (codes "&") else none

-- `scanAttrs` with every state opened.
scan : Bytes → ScanResult
unfolding scan_attrs new_open_tag_lexer consume_next_input_char new_attr append_curr_name
    append_curr_val flush_char_ref cmp_attr_name consumed_as_part_of_attr step read_ident equal
    step_in in_data in_tag_open in_tag_name in_before_attr_name in_attr_name name_byte close_name
    in_after_attr_name in_before_attr_val in_quoted in_attr_val_unquoted in_after_attr_val_quoted
    in_char_ref in_named_char_ref after_ident in_self_closing_start_tag
scan = scan_attrs table

plain_tag : scan (codes "<div>") ≡ parsed []
unfolding scan
plain_tag = refl

no_value : scan (codes "<div disabled>") ≡ parsed (attr_of "disabled" 5 "" 0 ∷ [])
unfolding scan
no_value = refl

two_attrs :
    scan (codes "<p   data-^name=\"/foo/bar/^value\"   thing=\"^asd\"  >")
    ≡ parsed (attr_of "data-^name" 5 "/foo/bar/^value" 17 ∷ attr_of "thing" 36 "^asd" 43 ∷ [])
unfolding scan
two_attrs = refl

-- The value starts at byte 6; the start that is kept is that of the byte behind "amp".
char_ref_start : scan (codes "<a b=\"&amp;c\">") ≡ parsed (attr_of "b" 3 "&c" 10 ∷ [])
unfolding scan
char_ref_start = refl

unknown_char_ref : scan (codes "<a b=\"&rarr;\">") ≡ failed (unimplemented ambiguous_ampersand)
unfolding scan
unknown_char_ref = refl

-- The value 'c' in single quotes, in a tag with no '"'.
single_quotes : scan (codes "<a b='c'>") ≡ failed (unexpected attr_val_single_quote none)
unfolding scan
single_quotes = refl

-- An `&` that is held back: the value's place is one byte late, and reaches to the end of the tag.
late_start : scan (codes "<a b=&>") ≡ parsed (attr_of "b" 3 "&" 6 ∷ [])
unfolding scan
late_start = refl

scan_attrs_total_example :
    ((found : List Attr) × (scan_attrs table (codes "<a b=\"&lt\">") ≡ parsed found))
    ⊎ ((e : ScanError) × (scan_attrs table (codes "<a b=\"&lt\">") ≡ failed e))
scan_attrs_total_example = scan_attrs_total table (codes "<a b=\"&lt\">")

abbrev paragraph : Bytes
paragraph = codes "<P ID=\"^x\" hidden>"

abbrev paragraph_attrs : List Attr
paragraph_attrs = attr_of "id" 3 "^x" 7 ∷ attr_of "hidden" 11 "" 0 ∷ []

scan_attrs-names_example : All (NameStands paragraph) paragraph_attrs
unfolding scan
scan_attrs-names_example = scan_attrs-names table paragraph paragraph_attrs refl

scan_attrs-values_example : All (ValueStands paragraph) paragraph_attrs
unfolding scan
scan_attrs-values_example = scan_attrs-values table paragraph paragraph_attrs (omega arith) refl

scan_attrs_single_quotes_example :
    (e : ScanError) × (scan_attrs table (single_quoted_tag (codes "h1") (codes "a-b") (codes "c'>"))
      ≡ failed e)
scan_attrs_single_quotes_example =
    scan_attrs_single_quotes table b'h' (codes "1") b'a' (codes "-b") (codes "c'>") refl
      ((refl, ground arith, ground arith, ground arith), tt)
      (
        IsLetter-IsNameByte b'a' refl,
        (
          (
            (refl, ground arith, ground arith, ground arith),
            ground arith,
            ground arith,
            ground arith,
            ground arith,
          ),
          (IsLetter-IsNameByte b'b' refl, tt),
        ),
      )
      (omega arith)
