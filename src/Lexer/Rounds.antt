-- ===== src/Lexer/Rounds.antt =====
-- One round of the loop in `openTagLexer.scan`: its measure, and the invariant of the state.
use pushup.Base.{
  ℕ, ◌+◌, ◌*◌, ◌≤◌, ◌<◌, ◌≡◌, refl, Bool, true, false, ◌&&◌, ◌||◌, ◌⊎◌, Option, none, some, [], ◌∷◌,
  ◌==◌, if◌then◌else◌, length, Bytes, ok, err, arith,
}
use pushup.Lexer.Defs.{
  State, data_state, tag_open, tag_name, before_attr_name, attr_name, after_attr_name,
  before_attr_val, attr_val_double_quote, attr_val_single_quote, attr_val_unquoted,
  after_attr_val_quoted, char_ref, named_char_ref, numeric_char_ref, self_closing_start_tag,
  ambiguous_ampersand, scan_error, runtime_error, AttrBuilder, Lexer, consume_next_input_char, M,
  is, is_eof, is_space, new_attr, append_curr_name, append_curr_val, flush_char_ref, cmp_attr_name,
}
use pushup.Lexer.States.{
  Flow, again, break_loop, write_char_ref, step, read_ident, step_in, in_data, in_tag_open,
  in_tag_name, in_before_attr_name, in_attr_name, in_after_attr_name, in_before_attr_val, in_quoted,
  in_attr_val_unquoted, in_after_attr_val_quoted, in_char_ref, in_named_char_ref, after_ident,
  name_byte, close_name, in_self_closing_start_tag,
}

-- The characters at which `attr_name` gives way to `after_attr_name`.
abbrev ends_name : Option ℕ → Bool
ends_name ch = is_space ch || is b'/' ch || is b'>' ch || is_eof ch

-- How many rounds may still look at a character that is provided again.
abbrev rank : State → Option ℕ → ℕ
rank char_ref ch = 9
rank named_char_ref none = 9
rank named_char_ref (some c) = 4
rank tag_open ch = 3
rank before_attr_name ch = 3
rank before_attr_val ch = 3
rank attr_name ch = if ends_name ch then 1 else 0
rank after_attr_name ch = if ends_name ch then 0 else 2
rank _ ch = 0

abbrev provided : State → Option ℕ → ℕ → ℕ
provided s none n = 10 * n + rank s none
provided s (some c) n = 10 * (n + 1) + rank s (some c)

abbrev pub measure : Lexer → ℕ
measure l =
    if l.provide_curr_input_char
    then provided l.state l.next_input_char (length l.raw)
    else 10 * length l.raw + 5

abbrev pub has_attr : Option AttrBuilder → Bool
has_attr none = false
has_attr (some _) = true

abbrev pub is_value_state : State → Bool
is_value_state attr_val_double_quote = true
is_value_state attr_val_single_quote = true
is_value_state attr_val_unquoted = true
is_value_state _ = false

abbrev starts_open : Bytes → Bool
starts_open [] = false
starts_open (c ∷ s) = c == b'<'

-- What holds in each state.
abbrev pub StateInv : State → Lexer → Type 0
StateInv data_state l = (l.provide_curr_input_char ≡ false) × (starts_open l.raw ≡ true)
StateInv attr_name l = has_attr l.curr_attr ≡ true
StateInv after_attr_name l =
    (has_attr l.curr_attr ≡ true)
    ⊎ ((l.provide_curr_input_char
          && (is b'/' l.next_input_char || is b'>' l.next_input_char || is_eof l.next_input_char))
        ≡ true)
StateInv before_attr_val l = has_attr l.curr_attr ≡ true
StateInv attr_val_double_quote l = has_attr l.curr_attr ≡ true
StateInv attr_val_single_quote l = has_attr l.curr_attr ≡ true
StateInv attr_val_unquoted l = has_attr l.curr_attr ≡ true
StateInv char_ref l = (has_attr l.curr_attr ≡ true) × (is_value_state l.return_state ≡ true)
StateInv named_char_ref l =
    (has_attr l.curr_attr ≡ true)
    × (is_value_state l.return_state ≡ true)
    × (l.provide_curr_input_char ≡ true)
StateInv _ l = Unit

abbrev pub Good : Lexer → M Flow → Type 0
Good l (ok (again l')) = (measure l' < measure l) × StateInv l'.state l'
Good l (ok (break_loop l')) = Unit
Good l (err (scan_error e)) = Unit
Good l (err runtime_error) = ⊥

module _ (refs : Bytes → Option Bytes) (l : Lexer) where
  Good-data_state :
      l.state ≡ data_state → StateInv data_state l → Good l (step_in refs data_state l)
  unfolding step_in in_data consume_next_input_char
  Good-data_state e h = ground arith

  Good-tag_open : l.state ≡ tag_open → Good l (step_in refs tag_open l)
  unfolding step_in in_tag_open consume_next_input_char
  Good-tag_open e = ground arith

  Good-tag_name : l.state ≡ tag_name → Good l (step_in refs tag_name l)
  unfolding step_in in_tag_name consume_next_input_char
  Good-tag_name e = ground arith

  Good-before_attr_name : l.state ≡ before_attr_name → Good l (step_in refs before_attr_name l)
  unfolding step_in in_before_attr_name consume_next_input_char new_attr
  Good-before_attr_name e = ground arith

  Good-attr_name : l.state ≡ attr_name → StateInv attr_name l → Good l (step_in refs attr_name l)
  unfolding step_in in_attr_name name_byte close_name consume_next_input_char append_curr_name
      cmp_attr_name
  Good-attr_name e h = ground arith

  Good-after_attr_name :
      l.state ≡ after_attr_name
      → StateInv after_attr_name l
      → Good l (step_in refs after_attr_name l)
  unfolding step_in in_after_attr_name consume_next_input_char new_attr
  Good-after_attr_name e h = ground arith

  Good-before_attr_val :
      l.state ≡ before_attr_val
      → StateInv before_attr_val l
      → Good l (step_in refs before_attr_val l)
  unfolding step_in in_before_attr_val consume_next_input_char
  Good-before_attr_val e h = ground arith

  Good-quoted :
      (s : State)
      → l.state ≡ s
      → is_value_state s ≡ true
      → has_attr l.curr_attr ≡ true
      → Good l (in_quoted s (consume_next_input_char l).0 (consume_next_input_char l).1)
  unfolding in_quoted consume_next_input_char append_curr_val
  Good-quoted attr_val_double_quote e v h = ground arith
  Good-quoted attr_val_single_quote e v h = ground arith
  Good-quoted attr_val_unquoted e v h = ground arith
  Good-quoted _ e v h = cc

  Good-attr_val_unquoted :
      l.state ≡ attr_val_unquoted
      → StateInv attr_val_unquoted l
      → Good l (step_in refs attr_val_unquoted l)
  unfolding step_in in_attr_val_unquoted consume_next_input_char append_curr_val
  Good-attr_val_unquoted e h = ground arith

  Good-after_attr_val_quoted :
      l.state ≡ after_attr_val_quoted → Good l (step_in refs after_attr_val_quoted l)
  unfolding step_in in_after_attr_val_quoted consume_next_input_char
  Good-after_attr_val_quoted e = ground arith

  Good-self_closing_start_tag :
      l.state ≡ self_closing_start_tag → Good l (step_in refs self_closing_start_tag l)
  unfolding step_in in_self_closing_start_tag consume_next_input_char
  Good-self_closing_start_tag e = ground arith

-- Back in a value state, the invariant is that there is an attribute.
value_state-StateInv :
    (s : State) (l : Lexer) → is_value_state s ≡ true → has_attr l.curr_attr ≡ true → StateInv s l
value_state-StateInv attr_val_double_quote l v h = h
value_state-StateInv attr_val_single_quote l v h = h
value_state-StateInv attr_val_unquoted l v h = h
value_state-StateInv _ l v h = cc

rank_of_value_state : (s : State) (ch : Option ℕ) → is_value_state s ≡ true → rank s ch ≡ 0
rank_of_value_state attr_val_double_quote ch v = refl
rank_of_value_state attr_val_single_quote ch v = refl
rank_of_value_state attr_val_unquoted ch v = refl
rank_of_value_state _ ch v = cc

-- What the inner loop of the named state leaves alone.
record Reads (l l' : Lexer) : Type 0 where
  shorter : length l'.raw ≤ length l.raw
  taken : l'.provide_curr_input_char ≡ false
  same_return : l'.return_state ≡ l.return_state
  same_attr : l'.curr_attr ≡ l.curr_attr

read_ident-Reads :
    (rest : Bytes) (ch : Option ℕ) (l : Lexer)
    → l.provide_curr_input_char ≡ false
    → Reads l (read_ident rest ch l).1
unfolding read_ident consume_next_input_char
read_ident-Reads [] ch l h = ground arith
read_ident-Reads (_ ∷ rest) ch l h = ground (
  arith,
  read_ident-Reads rest (consume_next_input_char (write_char_ref ch l)).0
      (consume_next_input_char (write_char_ref ch l)).1,
)

module _ (refs : Bytes → Option Bytes) (l : Lexer) where
  Good-char_ref : l.state ≡ char_ref → StateInv char_ref l → Good l (step_in refs char_ref l)
  unfolding step_in in_char_ref consume_next_input_char flush_char_ref
  Good-char_ref e h = ground (
    arith,
    rank_of_value_state l.return_state none h.1,
    λ (c : ℕ). rank_of_value_state l.return_state (some c) h.1,
    λ (l' : Lexer). value_state-StateInv l.return_state l' h.1,
  )

  -- Behind the identifier no character is provided again, so no more than `m` is left to do.
  Good-after_ident :
      (entry : Option Bytes) (ch : Option ℕ) (l' : Lexer)
      → StateInv char_ref l'
      → l'.provide_curr_input_char ≡ false
      → 10 * length l'.raw + 5 < measure l
      → Good l (after_ident entry ch l')
  unfolding after_ident flush_char_ref
  Good-after_ident none ch l' h p m = ground arith
  Good-after_ident (some ref) ch l' h p m =
      ground (arith, λ (l'' : Lexer). value_state-StateInv l'.return_state l'' h.1)

  Good-named_char_ref :
      l.state ≡ named_char_ref → StateInv named_char_ref l → Good l (step_in refs named_char_ref l)
  unfolding step_in in_named_char_ref
  Good-named_char_ref e h =
      let (ch, l') = consume_next_input_char l in
      let consumed : (l'.provide_curr_input_char ≡ false)
          × (l'.return_state ≡ l.return_state)
          × (l'.curr_attr ≡ l.curr_attr)
          × (10 * length l'.raw + 5 < measure l) =
        unfold consume_next_input_char in ground arith in
      let read = read_ident-Reads l'.raw ch l' consumed.0 in
      Good-after_ident (refs (read_ident l'.raw ch l').1.char_ref_buf) (read_ident l'.raw ch l').0
        (read_ident l'.raw ch l').1
        (cc (read.same_attr, consumed.2, h.0), cc (read.same_return, consumed.1, h.1)) read.taken
        (omega (arith, read.shorter, consumed.3))

-- Every round of the loop is good.
pub step-Good :
    (refs : Bytes → Option Bytes) (l : Lexer) → StateInv l.state l → Good l (step refs l)
unfolding step
step-Good refs l h = by_state l.state refl h
  where
    by_state : (s : State) → l.state ≡ s → StateInv s l → Good l (step_in refs s l)
    by_state data_state e k = Good-data_state refs l e k
    by_state tag_open e k = Good-tag_open refs l e
    by_state tag_name e k = Good-tag_name refs l e
    by_state before_attr_name e k = Good-before_attr_name refs l e
    by_state attr_name e k = Good-attr_name refs l e k
    by_state after_attr_name e k = Good-after_attr_name refs l e k
    by_state before_attr_val e k = Good-before_attr_val refs l e k
    by_state attr_val_double_quote e k = unfold step_in in Good-quoted refs l _ e refl k
    by_state attr_val_single_quote e k = unfold step_in in Good-quoted refs l _ e refl k
    by_state attr_val_unquoted e k = Good-attr_val_unquoted refs l e k
    by_state after_attr_val_quoted e k = Good-after_attr_val_quoted refs l e
    by_state char_ref e k = Good-char_ref refs l e k
    by_state named_char_ref e k = Good-named_char_ref refs l e k
    by_state numeric_char_ref e k = unfold step_in in tt
    by_state self_closing_start_tag e k = Good-self_closing_start_tag refs l e
    by_state ambiguous_ampersand e k = unfold step_in in tt
