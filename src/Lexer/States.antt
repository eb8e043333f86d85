-- ===== src/Lexer/States.antt =====
-- lexer.go: one function for each case of the switch in `openTagLexer.scan`. A case leaves the
-- loop (`break loop`), or goes round again.
use pushup.Base.{
  ℕ, true, false, not, ◌&&◌, ◌||◌, Option, none, some, [], ◌∷◌, ◌++◌, ◌==◌, if◌then◌else◌, Bytes,
  ok, ◌>>=◌,
}
use pushup.Lexer.Defs.{
  State, data_state, tag_open, tag_name, before_attr_name, attr_name, after_attr_name,
  before_attr_val, attr_val_double_quote, attr_val_single_quote, attr_val_unquoted,
  after_attr_val_quoted, char_ref, named_char_ref, numeric_char_ref, self_closing_start_tag,
  ambiguous_ampersand, eof_in_tag, unexpected_character_in_attribute_name, missing_attribute_value,
  missing_whitespace_between_attributes, unexpected_solidus_in_tag, unexpected_null_character,
  missing_semicolon_after_character_reference, unexpected, unimplemented, Lexer,
  consume_next_input_char, M, errorf, spec_parse_error, switch_state, reconsume_in, is, is_eof,
  is_space, is_ascii_alpha, is_ascii_alphanum, to_lower, new_attr, append_curr_name,
  append_curr_val, flush_char_ref, cmp_attr_name, consumed_as_part_of_attr,
}

pub data Flow : Type 0 where
  again : Lexer → Flow
  break_loop : Lexer → Flow

abbrev pub switch_to : State → Lexer → M Flow
switch_to s l = ok (again (switch_state s l))

abbrev pub reconsume : State → Lexer → M Flow
reconsume s l = ok (again (reconsume_in s l))

abbrev pub stay : Lexer → M Flow
stay l = ok (again l)

-- `l.returnState = …; l.switchState(openTagLexCharRef)`
abbrev pub start_char_ref : State → Lexer → M Flow
start_char_ref from l = ok (again (record l { return_state = from; state = char_ref }))

abbrev pub append_val : ℕ → Lexer → M Flow
append_val c l = do l' ← append_curr_val c l; stay l'

-- Each function has the character just read and the state behind it.
unfoldable pub in_data : Option ℕ → Lexer → M Flow
in_data ch l =
    if is b'&' ch
    then start_char_ref data_state l
    else if is b'<' ch
    then switch_to tag_open l
    else if is 0 ch
    then spec_parse_error unexpected_null_character
    else errorf (unexpected data_state ch)

unfoldable pub in_tag_open : Option ℕ → Lexer → M Flow
in_tag_open ch l =
    if is b'!' ch
    then errorf (unexpected tag_open ch)
    else if is b'/' ch
    then errorf (unexpected tag_open ch)
    else if is_ascii_alpha ch
    then reconsume tag_name l
    else errorf (unexpected tag_open ch)

unfoldable pub in_tag_name : Option ℕ → Lexer → M Flow
in_tag_name ch l =
    if is_space ch
    then switch_to before_attr_name l
    else if is b'/' ch
    then switch_to self_closing_start_tag l
    else if is b'>' ch
    then ok (break_loop l)
    else if is 0 ch || is_eof ch
    then errorf (unexpected tag_name ch)
    else stay l

unfoldable pub in_before_attr_name : Option ℕ → Lexer → M Flow
in_before_attr_name ch l =
    if is_space ch
    then stay l
    else if is b'/' ch || is b'>' ch || is_eof ch
    then reconsume after_attr_name l
    else if is b'=' ch
    then errorf (unexpected before_attr_name ch)
    else reconsume attr_name (new_attr l)

-- `'"'`, `'\''` and `'<'` are spec errors, which panic before the character is appended.
unfoldable pub name_byte : ℕ → Lexer → M Flow
name_byte c l =
    if c == 0
    then spec_parse_error unexpected_null_character
    else if c == b'"' || c == b'\'' || c == b'<'
    then spec_parse_error unexpected_character_in_attribute_name
    else do l' ← append_curr_name (to_lower c) l; stay l'

-- The end of a name. The state is switched before `cmpAttrName` is called.
unfoldable pub close_name : Lexer → M Flow
close_name l = do l' ← cmp_attr_name l; stay l'

unfoldable pub in_attr_name : Option ℕ → Lexer → M Flow
unfolding name_byte close_name
in_attr_name none l = close_name (reconsume_in after_attr_name l)
in_attr_name (some c) l =
    if is_space (some c) || c == b'/' || c == b'>'
    then close_name (reconsume_in after_attr_name l)
    else if c == b'='
    then close_name (switch_state before_attr_val l)
    else name_byte c l

unfoldable pub in_after_attr_name : Option ℕ → Lexer → M Flow
in_after_attr_name ch l =
    if is_space ch
    then stay l
    else if is b'/' ch
    then switch_to self_closing_start_tag l
    else if is b'=' ch
    then switch_to before_attr_val l
    else if is b'>' ch
    then ok (break_loop l)
    else if is_eof ch
    then spec_parse_error eof_in_tag
    else reconsume attr_name (new_attr l)

unfoldable pub in_before_attr_val : Option ℕ → Lexer → M Flow
in_before_attr_val ch l =
    if is_space ch
    then stay l
    else if is b'"' ch
    then switch_to attr_val_double_quote l
    else if is b'\'' ch
    then switch_to attr_val_single_quote l
    else if is b'>' ch
    then spec_parse_error missing_attribute_value
    else reconsume attr_val_unquoted l

-- The two quoted states: both end at '"'.
unfoldable pub in_quoted : State → Option ℕ → Lexer → M Flow
in_quoted s none l = errorf (unexpected s none)
in_quoted s (some c) l =
    if c == b'"'
    then switch_to after_attr_val_quoted l
    else if c == b'&'
    then start_char_ref s l
    else if c == 0
    then errorf (unexpected s (some c))
    else append_val c l

unfoldable pub in_attr_val_unquoted : Option ℕ → Lexer → M Flow
in_attr_val_unquoted none l = errorf (unexpected attr_val_unquoted none)
in_attr_val_unquoted (some c) l =
    if is_space (some c)
    then switch_to before_attr_name l
    else if c == b'&'
    then start_char_ref attr_val_unquoted l
    else if c == b'>'
    then ok (break_loop l)
    else if c == 0
    then errorf (unexpected attr_val_unquoted (some c))
    else if c == b'"' || c == b'\'' || c == b'<' || c == b'=' || c == b'`'
    then spec_parse_error unexpected_null_character
    else append_val c l

unfoldable pub in_after_attr_val_quoted : Option ℕ → Lexer → M Flow
in_after_attr_val_quoted ch l =
    if is_space ch
    then switch_to before_attr_name l
    else if is b'/' ch
    then switch_to self_closing_start_tag l
    else if is b'>' ch
    then ok (break_loop l)
    else if is_eof ch
    then errorf (unexpected after_attr_val_quoted ch)
    else spec_parse_error missing_whitespace_between_attributes

unfoldable pub in_self_closing_start_tag : Option ℕ → Lexer → M Flow
in_self_closing_start_tag ch l =
    if is b'>' ch
    then ok (break_loop l)
    else if is_eof ch
    then errorf (unexpected self_closing_start_tag ch)
    else spec_parse_error unexpected_solidus_in_tag

-- `charRefBuf` was set to "&" before the character was read.
unfoldable pub in_char_ref : Option ℕ → Lexer → M Flow
in_char_ref ch l =
    if is_ascii_alphanum ch
    then reconsume named_char_ref l
    else if is b'#' ch
    then switch_to numeric_char_ref (record l { char_ref_buf = l.char_ref_buf ++ b'#' ∷ [] })
    else do l' ← flush_char_ref l; reconsume l'.return_state l'

abbrev pub char_byte : Option ℕ → Bytes
char_byte none = []
char_byte (some c) = c ∷ []

abbrev pub write_char_ref : Option ℕ → Lexer → Lexer
write_char_ref ch l = record l { char_ref_buf = l.char_ref_buf ++ char_byte ch }

-- The inner loop of the named state: `ch` has been read, and the list counts the bytes that are
-- left behind it, one for each round that can follow.
unfoldable pub read_ident : Bytes → Option ℕ → Lexer → Option ℕ × Lexer
read_ident [] ch l =
    if is_ascii_alphanum ch then consume_next_input_char (write_char_ref ch l) else (ch, l)
read_ident (_ ∷ rest) ch l = elim (is_ascii_alphanum ch) [
  | true ↦ let (ch', l') = consume_next_input_char (write_char_ref ch l) in read_ident rest ch' l'
  | false ↦ (ch, l)
]

-- `ident[len(ident)-1]`, at an identifier that begins with '&'.
unfoldable pub last_byte : Bytes → ℕ
last_byte [] = 0
last_byte (c ∷ []) = c
last_byte (_ ∷ c ∷ s) = last_byte (c ∷ s)

-- Behind the identifier, at the entry of the table that it has, if any.
unfoldable pub after_ident : Option Bytes → Option ℕ → Lexer → M Flow
unfolding last_byte
after_ident none ch l = do l' ← flush_char_ref l; switch_to ambiguous_ampersand l'
after_ident (some ref) ch l =
    if consumed_as_part_of_attr l
      && not (last_byte l.char_ref_buf == b';')
      && (is b'=' ch || is_ascii_alphanum ch)
    then (do l' ← flush_char_ref l; switch_to l'.return_state l')
    else if not (is b';' ch)
    then spec_parse_error missing_semicolon_after_character_reference
    else do l' ← flush_char_ref (record l { char_ref_buf = ref }); switch_to l'.return_state l'

-- The table `namedCharRefs` of entities.go, which maps "&name" to its UTF-8 bytes.
module _ (named_char_refs : Bytes → Option Bytes) where
  unfoldable pub in_named_char_ref : Option ℕ → Lexer → M Flow
  unfolding after_ident
  in_named_char_ref ch l =
      let (ch', l') = read_ident l.raw ch l in after_ident (named_char_refs l'.char_ref_buf) ch' l'

  -- One round of the loop, by the state.
  unfoldable pub step_in : State → Lexer → M Flow
  step_in data_state l = let (ch, l') = consume_next_input_char l in in_data ch l'
  step_in tag_open l = let (ch, l') = consume_next_input_char l in in_tag_open ch l'
  step_in tag_name l = let (ch, l') = consume_next_input_char l in in_tag_name ch l'
  step_in before_attr_name l = let (ch, l') = consume_next_input_char l in in_before_attr_name ch l'
  step_in attr_name l = let (ch, l') = consume_next_input_char l in in_attr_name ch l'
  step_in after_attr_name l = let (ch, l') = consume_next_input_char l in in_after_attr_name ch l'
  step_in before_attr_val l = let (ch, l') = consume_next_input_char l in in_before_attr_val ch l'
  step_in attr_val_double_quote l =
      let (ch, l') = consume_next_input_char l in in_quoted attr_val_double_quote ch l'
  step_in attr_val_single_quote l =
      let (ch, l') = consume_next_input_char l in in_quoted attr_val_single_quote ch l'
  step_in attr_val_unquoted l =
      let (ch, l') = consume_next_input_char l in in_attr_val_unquoted ch l'
  step_in after_attr_val_quoted l =
      let (ch, l') = consume_next_input_char l in in_after_attr_val_quoted ch l'
  step_in char_ref l =
      let (ch, l') = consume_next_input_char (record l { char_ref_buf = b'&' ∷ [] }) in
      in_char_ref ch l'
  step_in named_char_ref l = let (ch, l') = consume_next_input_char l in in_named_char_ref ch l'
  step_in numeric_char_ref l = errorf (unimplemented numeric_char_ref)
  step_in self_closing_start_tag l =
      let (ch, l') = consume_next_input_char l in in_self_closing_start_tag ch l'
  step_in ambiguous_ampersand l = errorf (unimplemented ambiguous_ampersand)

  unfoldable pub step : Lexer → M Flow
  unfolding step_in
  step l = step_in l.state l
