-- ===== src/Lexer/Values/States.antt =====
-- Where the values that the lexer keeps stand in a tag with no '&', in each case of the switch.
use pushup.Base.{
  Lacks, ◌&&◌, ◌||◌, ℕ, ◌≡◌, Bool, true, ◌⊎◌, inl, inr, Option, none, some, [], ◌∷◌, ◌++◌, All,
  Bytes, arith,
}
use pushup.Lexer.Defs.{
  is, is_eof, State, data_state, tag_open, tag_name, before_attr_name, attr_name, after_attr_name,
  before_attr_val, attr_val_double_quote, attr_val_single_quote, attr_val_unquoted,
  after_attr_val_quoted, char_ref, named_char_ref, self_closing_start_tag, BufPos, AttrBuilder,
  Lexer, M, new_attr, append_curr_name, append_curr_val, cmp_attr_name,
}
use pushup.Lexer.States.{
  Flow, char_byte, in_data, in_tag_open, in_tag_name, in_before_attr_name, in_attr_name,
  in_after_attr_name, in_before_attr_val, in_quoted, in_attr_val_unquoted, in_after_attr_val_quoted,
  name_byte, close_name, in_self_closing_start_tag,
}
use pushup.Lexer.Rounds.{is_value_state}
use pushup.Lexer.Loop.{Kept}
use pushup.Lexer.Cursor.{
  At, JustRead, unread, cursor_from, cursor, Begun, Open, Located, Located-of-Open, append_at-Open,
  AllAttr, All-current,
}

-- A value buffer that nothing was written to.
abbrev pub IsFresh : BufPos → Type 0
IsFresh b = (b.text ≡ []) × (b.start ≡ 0)

-- The characters that `before_attr_name` hands on to `after_attr_name`.
abbrev pub ends_tag : Option ℕ → Bool
ends_tag ch = is b'/' ch || is b'>' ch || is_eof ch

module _ (src : Bytes) where
  abbrev pub ValueLocated : AttrBuilder → Type 0
  ValueLocated a = Located src a.value

  -- What holds of the value being written, where `provide` tells that `ch` is provided again.
  abbrev pub CurrValue : State → Bool → Option ℕ → Bytes → Option AttrBuilder → Type 0
  CurrValue char_ref provide ch u a = ⊥
  CurrValue named_char_ref provide ch u a = ⊥
  CurrValue s provide ch u none = Unit
  CurrValue attr_name provide ch u (some a) = IsFresh a.value
  CurrValue after_attr_name provide ch u (some a) =
      IsFresh a.value ⊎ (Located src a.value × ((provide && ends_tag ch) ≡ true))
  CurrValue before_attr_val provide ch u (some a) = IsFresh a.value
  CurrValue attr_val_double_quote provide ch u (some a) = Open src u a.value
  CurrValue attr_val_single_quote provide ch u (some a) = Open src u a.value
  CurrValue attr_val_unquoted provide ch u (some a) = Open src u a.value
  CurrValue s provide ch u (some a) = Located src a.value

  pub record ValueInv (s : State) (l : Lexer) : Type 0 where
    pub here : At src l
    pub begun : Begun s (cursor l)
    pub clean : Lacks b'&' (unread l)
    pub done : All ValueLocated l.earlier
    pub writing : CurrValue s l.provide_curr_input_char l.next_input_char (unread l) l.curr_attr

  abbrev pub ValuesDone : Lexer → Type 0
  ValuesDone l = All ValueLocated l.earlier × AllAttr ValueLocated l.curr_attr

  abbrev pub ValuesKept : M Flow → Type 0
  ValuesKept = Kept (λ l. ValueInv l.state l) ValuesDone

  -- The same, where `ch` has just been read.
  pub record ValueRead (s : State) (ch : Option ℕ) (l : Lexer) : Type 0 where
    pub just_read : JustRead src ch l
    pub begun : Begun s (cursor_from true ch l.pos)
    pub clean : Lacks b'&' (char_byte ch ++ l.raw)
    pub done : All ValueLocated l.earlier
    pub writing : CurrValue s true ch (char_byte ch ++ l.raw) l.curr_attr

  -- What is written is located, wherever a case leaves it behind.
  Located-before_attr_name :
      (u : Bytes) (ch : Option ℕ) (a : Option AttrBuilder)
      → CurrValue before_attr_name true ch u a
      → AllAttr ValueLocated a
  Located-before_attr_name u ch none h = tt
  Located-before_attr_name u ch (some a) h = h

  Located-after_attr_name :
      (u : Bytes) (ch : Option ℕ) (a : Option AttrBuilder)
      → CurrValue after_attr_name true ch u a
      → AllAttr ValueLocated a
  Located-after_attr_name u ch none h = tt
  Located-after_attr_name u ch (some a) (inl h) = inl h
  Located-after_attr_name u ch (some a) (inr h) = h.0

  module _ (ch : Option ℕ) (l : Lexer) where
    pub in_data-ValuesKept : ValueRead data_state ch l → ValuesKept (in_data ch l)
    unfolding in_data
    in_data-ValuesKept h = ground arith

    pub in_tag_open-ValuesKept :
        l.state ≡ tag_open → ValueRead tag_open ch l → ValuesKept (in_tag_open ch l)
    unfolding in_tag_open
    in_tag_open-ValuesKept e h = ground arith

    pub in_tag_name-ValuesKept :
        l.state ≡ tag_name → ValueRead tag_name ch l → ValuesKept (in_tag_name ch l)
    unfolding in_tag_name
    in_tag_name-ValuesKept e h = ground arith

    pub in_before_attr_name-ValuesKept :
        l.state ≡ before_attr_name
        → ValueRead before_attr_name ch l
        → ValuesKept (in_before_attr_name ch l)
    unfolding in_before_attr_name new_attr
    in_before_attr_name-ValuesKept e h = ground (
      arith,
      All-current ValueLocated l.earlier l.curr_attr h.done
          (Located-before_attr_name _ ch l.curr_attr h.writing),
    )

    pub in_after_attr_name-ValuesKept :
        l.state ≡ after_attr_name
        → ValueRead after_attr_name ch l
        → ValuesKept (in_after_attr_name ch l)
    unfolding in_after_attr_name new_attr
    in_after_attr_name-ValuesKept e h = ground (
      arith,
      All-current ValueLocated l.earlier l.curr_attr h.done
          (Located-after_attr_name _ ch l.curr_attr h.writing),
    )

    pub in_before_attr_val-ValuesKept :
        l.state ≡ before_attr_val
        → ValueRead before_attr_val ch l
        → ValuesKept (in_before_attr_val ch l)
    unfolding in_before_attr_val
    in_before_attr_val-ValuesKept e h = ground arith

    pub in_after_attr_val_quoted-ValuesKept :
        l.state ≡ after_attr_val_quoted
        → ValueRead after_attr_val_quoted ch l
        → ValuesKept (in_after_attr_val_quoted ch l)
    unfolding in_after_attr_val_quoted
    in_after_attr_val_quoted-ValuesKept e h = ground arith

    pub in_self_closing_start_tag-ValuesKept :
        l.state ≡ self_closing_start_tag
        → ValueRead self_closing_start_tag ch l
        → ValuesKept (in_self_closing_start_tag ch l)
    unfolding in_self_closing_start_tag
    in_self_closing_start_tag-ValuesKept e h = ground arith

  pub in_attr_val_unquoted-ValuesKept :
      (ch : Option ℕ) (a : Option AttrBuilder) (l : Lexer)
      → l.state ≡ attr_val_unquoted
      → l.curr_attr ≡ a
      → ValueRead attr_val_unquoted ch l
      → ValuesKept (in_attr_val_unquoted ch l)
  unfolding in_attr_val_unquoted append_curr_val
  in_attr_val_unquoted-ValuesKept none a l e q h = ground arith
  in_attr_val_unquoted-ValuesKept (some c) none l e q h = ground arith
  in_attr_val_unquoted-ValuesKept (some c) (some a) l e q h =
      ground
        (arith, Located-of-Open src (c ∷ l.raw) a.value, append_at-Open src l.raw c l.pos a.value)

  pub in_quoted-ValuesKept :
      (s : State) (ch : Option ℕ) (a : Option AttrBuilder) (l : Lexer)
      → is_value_state s ≡ true
      → l.state ≡ s
      → l.curr_attr ≡ a
      → ValueRead s ch l
      → ValuesKept (in_quoted s ch l)
  unfolding in_quoted append_curr_val
  in_quoted-ValuesKept s none a l v e q h = tt
  in_quoted-ValuesKept attr_val_double_quote (some c) none l v e q h = ground arith
  in_quoted-ValuesKept attr_val_double_quote (some c) (some a) l v e q h =
      ground
        (arith, Located-of-Open src (c ∷ l.raw) a.value, append_at-Open src l.raw c l.pos a.value)
  in_quoted-ValuesKept attr_val_single_quote (some c) none l v e q h = ground arith
  in_quoted-ValuesKept attr_val_single_quote (some c) (some a) l v e q h =
      ground
        (arith, Located-of-Open src (c ∷ l.raw) a.value, append_at-Open src l.raw c l.pos a.value)
  in_quoted-ValuesKept attr_val_unquoted (some c) none l v e q h = ground arith
  in_quoted-ValuesKept attr_val_unquoted (some c) (some a) l v e q h =
      ground
        (arith, Located-of-Open src (c ∷ l.raw) a.value, append_at-Open src l.raw c l.pos a.value)
  in_quoted-ValuesKept _ (some c) a l v e q h = cc

  pub in_attr_name-ValuesKept :
      (ch : Option ℕ) (a : Option AttrBuilder) (l : Lexer)
      → l.state ≡ attr_name
      → l.curr_attr ≡ a
      → ValueRead attr_name ch l
      → ValuesKept (in_attr_name ch l)
  unfolding in_attr_name name_byte close_name append_curr_name cmp_attr_name
  in_attr_name-ValuesKept none none l e q h = ground arith
  in_attr_name-ValuesKept (some c) none l e q h = ground arith
  in_attr_name-ValuesKept none (some a) l e q h = ground arith
  in_attr_name-ValuesKept (some c) (some a) l e q h = ground arith
