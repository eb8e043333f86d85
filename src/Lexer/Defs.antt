-- ===== src/Lexer/Defs.antt =====
-- lexer.go: the state of `openTagLexer` and the methods that its states share.
--
-- A character is an `Option ℕ`; `none` is the constant `eof` (-1). `l.attrs` is `earlier` followed
-- by `curr_attr`: the source sets the two together, in `newAttr`, so `currAttr` is always the last
-- of `attrs`, and nil while there is none. A buffer carries its address, which `cmpAttrName`
-- compares. A panic is an error value.
use pushup.Base.{
  ℕ, ◌+◌, ◌-◌, Bool, true, false, ◌&&◌, ◌||◌, Option, none, some, List, [], ◌∷◌, ◌++◌, leb, ◌==◌,
  if◌then◌else◌, Bytes, Result, ok, err,
}

pub data State : Type 0 where
  data_state tag_open tag_name before_attr_name attr_name after_attr_name : State
  before_attr_val attr_val_double_quote attr_val_single_quote attr_val_unquoted : State
  after_attr_val_quoted char_ref named_char_ref numeric_char_ref : State
  self_closing_start_tag ambiguous_ampersand : State

-- The codes that reach `specParseError`.
pub data SpecCode : Type 0 where
  eof_in_tag unexpected_character_in_attribute_name duplicate_attribute : SpecCode
  missing_attribute_value missing_whitespace_between_attributes : SpecCode
  unexpected_solidus_in_tag unexpected_null_character : SpecCode
  missing_semicolon_after_character_reference : SpecCode

-- The panic values of type openTagScanError, by the call that makes the message.
pub data ScanError : Type 0 where
  expected_open : ℕ → ScanError
  unexpected : State → Option ℕ → ScanError
  unimplemented : State → ScanError
  spec : SpecCode → ScanError

-- What `scanAttrs` may recover: a scan error, or a Go run-time error (the nil dereference of
-- `l.currAttr`, and the slice bounds of `cmpAttrName` while there is no attribute).
pub data Panic : Type 0 where
  scan_error : ScanError → Panic
  runtime_error : Panic

pub record BufPos : Type 0 where
  pub buffer : ℕ
  pub text : Bytes
  pub start : ℕ

pub record AttrBuilder : Type 0 where
  pub name : BufPos
  pub value : BufPos

pub record StringPos : Type 0 where
  pub text : Bytes
  pub start : ℕ

pub record Attr : Type 0 where
  pub name : StringPos
  pub value : StringPos

pub record Lexer : Type 0 where
  pub raw : Bytes
  pub pos : ℕ
  pub state : State
  pub return_state : State
  pub char_ref_buf : Bytes
  pub next_input_char : Option ℕ
  pub provide_curr_input_char : Bool
  pub earlier : List AttrBuilder
  pub curr_attr : Option AttrBuilder
  -- the address of the next buffer to be made
  pub fresh : ℕ

unfoldable pub new_open_tag_lexer : Bytes → Lexer
new_open_tag_lexer source = record {
  raw = source;
  pos = 0;
  state = data_state;
  return_state = data_state;
  char_ref_buf = [];
  next_input_char = some 0;
  provide_curr_input_char = false;
  earlier = [];
  curr_attr = none;
  fresh = 0;
}

-- `consumeNextInputChar`, with `decodeNextInputChar` in its last clause.
unfoldable pub consume_from : Bool → Bytes → Lexer → Option ℕ × Lexer
consume_from true raw l = (l.next_input_char, record l { provide_curr_input_char = false })
consume_from false [] l = (none, record l { next_input_char = none })
consume_from false (c ∷ raw) l =
    (some c, record l { next_input_char = some c; raw = raw; pos = l.pos + 1 })

unfoldable pub consume_next_input_char : Lexer → Option ℕ × Lexer
unfolding consume_from
consume_next_input_char l = consume_from l.provide_curr_input_char l.raw l

abbrev pub M : Type 0 → Type 0
M A = Result Panic A

abbrev pub errorf : {A : Type 0} → ScanError → M A
errorf e = err (scan_error e)

abbrev pub spec_parse_error : {A : Type 0} → SpecCode → M A
spec_parse_error code = err (scan_error (spec code))

abbrev pub switch_state : State → Lexer → Lexer
switch_state s l = record l { state = s }

abbrev pub reconsume_in : State → Lexer → Lexer
reconsume_in s l = record l { provide_curr_input_char = true; state = s }

-- Tests of a character against a byte; `eof` is none of the bytes.
abbrev pub is : ℕ → Option ℕ → Bool
is b none = false
is b (some c) = c == b

abbrev pub is_eof : Option ℕ → Bool
is_eof none = true
is_eof (some c) = false

-- case '\t', '\n', '\f', ' '
abbrev pub is_space : Option ℕ → Bool
is_space ch = is b'\t' ch || is b'\n' ch || is 12 ch || is b' ' ch

abbrev pub is_upper_byte : ℕ → Bool
is_upper_byte c = leb b'A' c && leb c b'Z'

abbrev pub is_ascii_upper : Option ℕ → Bool
is_ascii_upper none = false
is_ascii_upper (some c) = is_upper_byte c

abbrev pub is_ascii_alpha : Option ℕ → Bool
is_ascii_alpha none = false
is_ascii_alpha (some c) = is_upper_byte c || (leb b'a' c && leb c b'z')

abbrev pub is_ascii_alphanum : Option ℕ → Bool
is_ascii_alphanum none = false
is_ascii_alphanum (some c) = is_ascii_alpha (some c) || (leb b'0' c && leb c b'9')

-- unicode.ToLower on an ASCII character.
abbrev pub to_lower : ℕ → ℕ
to_lower c = if is_upper_byte c then c + 32 else c

abbrev pub current : Option AttrBuilder → List AttrBuilder
current none = []
current (some a) = a ∷ []

-- The whole of `l.attrs`.
abbrev pub attrs : Lexer → List AttrBuilder
attrs l = l.earlier ++ current l.curr_attr

abbrev new_buf : ℕ → BufPos
new_buf address = record { buffer = address; text = []; start = 0 }

unfoldable pub new_attr : Lexer → Lexer
new_attr l = record l {
  earlier = attrs l;
  curr_attr = some (record { name = new_buf l.fresh; value = new_buf (l.fresh + 1) });
  fresh = l.fresh + 2;
}

-- The write to a buffer that `appendCurrName`, `appendCurrVal` and `flushCharRef` share: the first
-- write sets the start.
abbrev pub append_at : ℕ → Bytes → BufPos → BufPos
append_at pos bytes b = record b {
  start = if b.start == 0 then pos - 1 else b.start;
  text = b.text ++ bytes;
}

update_curr : (AttrBuilder → AttrBuilder) → Lexer → Option AttrBuilder → M Lexer
update_curr f l none = err runtime_error
update_curr f l (some a) = ok (record l { curr_attr = some (f a) })

unfoldable pub append_curr_name : ℕ → Lexer → M Lexer
unfolding update_curr
append_curr_name ch l =
    update_curr (λ a. record a { name = append_at l.pos (ch ∷ []) a.name }) l l.curr_attr

unfoldable pub append_curr_val : ℕ → Lexer → M Lexer
unfolding update_curr
append_curr_val ch l =
    update_curr (λ a. record a { value = append_at l.pos (ch ∷ []) a.value }) l l.curr_attr

unfoldable pub flush_char_ref : Lexer → M Lexer
unfolding update_curr
flush_char_ref l =
    update_curr (λ a. record a { value = append_at l.pos l.char_ref_buf a.value }) l l.curr_attr

-- `l.currAttr.name == l.attrs[i].name` compares two structs: the addresses of their buffers and
-- their starts.
abbrev same_name : BufPos → BufPos → Bool
same_name a b = a.buffer == b.buffer && a.start == b.start

any_same_name : BufPos → List AttrBuilder → Bool
any_same_name b [] = false
any_same_name b (a ∷ as') = same_name b a.name || any_same_name b as'

check_name : Option AttrBuilder → Lexer → M Lexer
unfolding any_same_name
check_name none l = err runtime_error
check_name (some a) l =
    if any_same_name a.name l.earlier then spec_parse_error duplicate_attribute else ok l

unfoldable pub cmp_attr_name : Lexer → M Lexer
unfolding check_name
cmp_attr_name l = check_name l.curr_attr l

unfoldable pub consumed_as_part_of_attr : Lexer → Bool
consumed_as_part_of_attr l = elim l.return_state [
  | attr_val_double_quote ↦ true
  | attr_val_single_quote ↦ true
  | attr_val_unquoted ↦ true
  | _ ↦ false
]
