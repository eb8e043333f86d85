-- ===== src/Lexer/Names/States.antt =====
-- Where the names that the lexer keeps stand in the tag, in each case of the switch.
use pushup.Base.{
  ℕ, ◌-◌, ◌≤◌, ◌≡◌, ◌∙◌, ap, true, false, Option, none, some, [], ◌∷◌, ◌++◌, map, drop, drop-map,
  All, Bytes, arith,
}
use pushup.Lexer.Defs.{
  State, data_state, tag_open, tag_name, before_attr_name, attr_name, after_attr_name,
  before_attr_val, attr_val_double_quote, attr_val_single_quote, attr_val_unquoted,
  after_attr_val_quoted, char_ref, named_char_ref, self_closing_start_tag, BufPos, AttrBuilder,
  Lexer, to_lower, M, new_attr, append_at, append_curr_name, append_curr_val, flush_char_ref,
  cmp_attr_name,
}
use pushup.Lexer.States.{
  Flow, char_byte, read_ident, in_data, in_tag_open, in_tag_name, in_before_attr_name, in_attr_name,
  in_after_attr_name, in_before_attr_val, in_quoted, in_attr_val_unquoted, in_after_attr_val_quoted,
  in_char_ref, in_named_char_ref, after_ident, name_byte, close_name, in_self_closing_start_tag,
}
use pushup.Lexer.Rounds.{is_value_state}
use pushup.Lexer.Loop.{Kept}
use pushup.Lexer.Cursor.{
  At, JustRead, unread, cursor_from, cursor, Begun, Open, Located, Located-of-Open, append_at-Open,
  At-of-JustRead, pos_of_cursor, read_ident-ReadOn, AllAttr, All-current,
}

module _ (src : Bytes) where
  -- The tag as names are kept: its ASCII capitals in lower case.
  abbrev pub lower : Bytes
  lower = map to_lower src

  abbrev pub NameLocated : AttrBuilder → Type 0
  NameLocated a = Located lower a.name

  abbrev pub CurrName : State → Bytes → Option AttrBuilder → Type 0
  CurrName attr_name u (some a) = Open lower (map to_lower u) a.name
  CurrName _ u a = AllAttr NameLocated a

  pub record NameInv (s : State) (l : Lexer) : Type 0 where
    pub here : At src l
    pub begun : Begun s (cursor l)
    pub done : All NameLocated l.earlier
    pub writing : CurrName s (unread l) l.curr_attr

  abbrev pub NamesKept : M Flow → Type 0
  NamesKept =
      Kept (λ l. NameInv l.state l)
        (λ l. All NameLocated l.earlier × AllAttr NameLocated l.curr_attr)

  -- The same, where `ch` has just been read.
  pub record NameRead (s : State) (ch : Option ℕ) (l : Lexer) : Type 0 where
    pub just_read : JustRead src ch l
    pub begun : Begun s (cursor_from true ch l.pos)
    pub done : All NameLocated l.earlier
    pub writing : CurrName s (char_byte ch ++ l.raw) l.curr_attr

  module _ (ch : Option ℕ) (l : Lexer) where
    pub in_data-NamesKept : NameRead data_state ch l → NamesKept (in_data ch l)
    unfolding in_data
    in_data-NamesKept h = ground arith

    pub in_tag_open-NamesKept :
        l.state ≡ tag_open → NameRead tag_open ch l → NamesKept (in_tag_open ch l)
    unfolding in_tag_open
    in_tag_open-NamesKept e h = ground arith

    pub in_tag_name-NamesKept :
        l.state ≡ tag_name → NameRead tag_name ch l → NamesKept (in_tag_name ch l)
    unfolding in_tag_name
    in_tag_name-NamesKept e h = ground arith

    pub in_before_attr_name-NamesKept :
        l.state ≡ before_attr_name
        → NameRead before_attr_name ch l
        → NamesKept (in_before_attr_name ch l)
    unfolding in_before_attr_name new_attr
    in_before_attr_name-NamesKept e h =
        ground (arith, All-current NameLocated l.earlier l.curr_attr h.done h.writing)

    pub in_after_attr_name-NamesKept :
        l.state ≡ after_attr_name
        → NameRead after_attr_name ch l
        → NamesKept (in_after_attr_name ch l)
    unfolding in_after_attr_name new_attr
    in_after_attr_name-NamesKept e h =
        ground (arith, All-current NameLocated l.earlier l.curr_attr h.done h.writing)

    pub in_before_attr_val-NamesKept :
        l.state ≡ before_attr_val
        → NameRead before_attr_val ch l
        → NamesKept (in_before_attr_val ch l)
    unfolding in_before_attr_val
    in_before_attr_val-NamesKept e h = ground arith

    pub in_attr_val_unquoted-NamesKept :
        l.state ≡ attr_val_unquoted
        → NameRead attr_val_unquoted ch l
        → NamesKept (in_attr_val_unquoted ch l)
    unfolding in_attr_val_unquoted append_curr_val
    in_attr_val_unquoted-NamesKept e h = ground arith

    pub in_after_attr_val_quoted-NamesKept :
        l.state ≡ after_attr_val_quoted
        → NameRead after_attr_val_quoted ch l
        → NamesKept (in_after_attr_val_quoted ch l)
    unfolding in_after_attr_val_quoted
    in_after_attr_val_quoted-NamesKept e h = ground arith

    pub in_self_closing_start_tag-NamesKept :
        l.state ≡ self_closing_start_tag
        → NameRead self_closing_start_tag ch l
        → NamesKept (in_self_closing_start_tag ch l)
    unfolding in_self_closing_start_tag
    in_self_closing_start_tag-NamesKept e h = ground arith

    pub in_quoted-NamesKept :
        (s : State)
        → is_value_state s ≡ true
        → l.state ≡ s
        → NameRead s ch l
        → NamesKept (in_quoted s ch l)
    unfolding in_quoted append_curr_val
    in_quoted-NamesKept attr_val_double_quote v e h = ground arith
    in_quoted-NamesKept attr_val_single_quote v e h = ground arith
    in_quoted-NamesKept attr_val_unquoted v e h = ground arith
    in_quoted-NamesKept _ v e h = cc

  append-NameOpen :
      (c pos : ℕ) (raw : Bytes) (b : BufPos)
      → 2 ≤ pos
      → drop (pos - 1) src ≡ c ∷ raw
      → Open lower (map to_lower (c ∷ raw)) b
      → Open lower (map to_lower raw) (append_at pos (to_lower c ∷ []) b)
  append-NameOpen c pos raw b p d h =
      append_at-Open lower (map to_lower raw) (to_lower c) pos b p
        (drop-map (pos - 1) to_lower src ∙ ap (map to_lower) d) h

  pub in_attr_name-NamesKept :
      (ch : Option ℕ) (a : Option AttrBuilder) (l : Lexer)
      → l.state ≡ attr_name
      → l.curr_attr ≡ a
      → NameRead attr_name ch l
      → NamesKept (in_attr_name ch l)
  unfolding in_attr_name name_byte close_name append_curr_name cmp_attr_name
  in_attr_name-NamesKept none none l e q h = ground arith
  in_attr_name-NamesKept (some c) none l e q h = ground arith
  in_attr_name-NamesKept none (some a) l e q h =
      ground (arith, Located-of-Open lower (map to_lower l.raw) a.name)
  in_attr_name-NamesKept (some c) (some a) l e q h = ground (
    arith,
    Located-of-Open lower (map to_lower (c ∷ l.raw)) a.name,
    append-NameOpen c l.pos l.raw a.name,
  )

  -- In a value state the name is complete.
  CurrName-value_state :
      (s : State) (u : Bytes) (a : Option AttrBuilder)
      → is_value_state s ≡ true
      → AllAttr NameLocated a
      → CurrName s u a
  CurrName-value_state attr_val_double_quote u a v h = ground arith
  CurrName-value_state attr_val_single_quote u a v h = ground arith
  CurrName-value_state attr_val_unquoted u a v h = ground arith
  CurrName-value_state _ u a v h = cc

  Begun-value_state : (s : State) (n : ℕ) → is_value_state s ≡ true → 1 ≤ n → Begun s n
  Begun-value_state attr_val_double_quote n v h = h
  Begun-value_state attr_val_single_quote n v h = h
  Begun-value_state attr_val_unquoted n v h = h
  Begun-value_state _ n v h = cc

  pub in_char_ref-NamesKept :
      (ch : Option ℕ) (l : Lexer)
      → is_value_state l.return_state ≡ true
      → NameRead char_ref ch l
      → NamesKept (in_char_ref ch l)
  unfolding in_char_ref flush_char_ref
  in_char_ref-NamesKept none l v h = ground (
    arith,
    CurrName-value_state l.return_state l.raw l.curr_attr v,
    Begun-value_state l.return_state l.pos v,
  )
  in_char_ref-NamesKept (some c) l v h = ground (
    arith,
    CurrName-value_state l.return_state (c ∷ l.raw) l.curr_attr v,
    Begun-value_state l.return_state (l.pos - 1) v,
  )

  after_ident-NamesKept :
      (entry : Option Bytes) (ch : Option ℕ) (l : Lexer)
      → is_value_state l.return_state ≡ true
      → At src l
      → (l.provide_curr_input_char ≡ false)
      → 1 ≤ l.pos
      → All NameLocated l.earlier
      → AllAttr NameLocated l.curr_attr
      → NamesKept (after_ident entry ch l)
  unfolding after_ident flush_char_ref
  after_ident-NamesKept none ch l v a p b d w = ground arith
  after_ident-NamesKept (some ref) ch l v a p b d w = ground (
    arith,
    CurrName-value_state l.return_state l.raw l.curr_attr v,
    Begun-value_state l.return_state l.pos v,
  )

  pub in_named_char_ref-NamesKept :
      (refs : Bytes → Option Bytes) (ch : Option ℕ) (l : Lexer)
      → is_value_state l.return_state ≡ true
      → NameRead named_char_ref ch l
      → NamesKept (in_named_char_ref refs ch l)
  unfolding in_named_char_ref
  in_named_char_ref-NamesKept refs ch l v h =
      let on = read_ident-ReadOn src l.raw ch l h.just_read in
      after_ident-NamesKept _ (read_ident l.raw ch l).0 (read_ident l.raw ch l).1
        (cc (on.same_return, v))
        (At-of-JustRead src (read_ident l.raw ch l).0 (read_ident l.raw ch l).1 on.just_read)
        on.just_read.0 (omega (arith, on.further, pos_of_cursor ch l.pos h.begun))
        (rw on.same_earlier h.done) (rw on.same_attr h.writing)
