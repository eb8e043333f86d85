-- ===== src/Lexer/Values.antt =====
-- The values that `scanAttrs` returns, and their places (lexer.go).
mod States
use pushup.Base.{
  Lacks, codes, ◌&&◌, ℕ, zero, suc, ◌+◌, ◌-◌, ◌≤◌, ◌≡◌, refl, sym, ◌∙◌, ap, Bool, true, false, ◌⊎◌,
  inl, inr, Option, none, some, List, [], ◌∷◌, ◌++◌, map, ◌==◌, if◌then◌else◌, length, take,
  map-take, take-append_length, All-map, drop, drop-map, All, Bytes, ok, err, arith,
}
use pushup.Lexer.Defs.{
  Attr, new_open_tag_lexer, attrs, State, data_state, tag_open, tag_name, before_attr_name,
  attr_name, after_attr_name, before_attr_val, attr_val_double_quote, attr_val_single_quote,
  attr_val_unquoted, after_attr_val_quoted, char_ref, named_char_ref, numeric_char_ref,
  self_closing_start_tag, ambiguous_ampersand, BufPos, AttrBuilder, Lexer, to_lower,
  consume_next_input_char, M, new_attr, append_at, append_curr_name, append_curr_val,
  flush_char_ref, cmp_attr_name,
}
use pushup.Lexer.States.{
  Flow, again, break_loop, char_byte, write_char_ref, step, read_ident, step_in, in_data,
  in_tag_open, in_tag_name, in_before_attr_name, in_attr_name, in_after_attr_name,
  in_before_attr_val, in_quoted, in_attr_val_unquoted, in_after_attr_val_quoted, in_char_ref,
  in_named_char_ref, after_ident, name_byte, close_name, in_self_closing_start_tag,
}
use pushup.Lexer.Scan.{build, finished, next, run, scan_attrs, parsed}
use pushup.Lexer.Rounds.{step-Good, Good, is_value_state, has_attr, StateInv}
use pushup.Lexer.Loop.{scan_attrs-Post}
use pushup.Lexer.Values.States.{
  IsFresh, ValueLocated, CurrValue, ValueInv, ValuesDone, ValuesKept, ValueRead, in_data-ValuesKept,
  in_tag_open-ValuesKept, in_tag_name-ValuesKept, in_before_attr_name-ValuesKept,
  in_after_attr_name-ValuesKept, in_before_attr_val-ValuesKept, in_attr_val_unquoted-ValuesKept,
  in_after_attr_val_quoted-ValuesKept, in_self_closing_start_tag-ValuesKept, in_quoted-ValuesKept,
  in_attr_name-ValuesKept,
}
use pushup.Lexer.Cursor.{
  AtFrom, At, JustRead, unread, cursor_from, cursor, Begun, Consumed, consume-Consumed, Open,
  Located, Located-of-Open, append_at-Open, At-of-JustRead, ReadOn, pos_of_cursor,
  read_ident-ReadOn, AllAttr, All-current,
}

module _ (src : Bytes) where
  -- Once a character is read, it is the one that the state may know of.
  CurrValue-read :
      (s : State) (provide : Bool) (ch ch' : Option ℕ) (u : Bytes) (a : Option AttrBuilder)
      → (provide ≡ true → ch ≡ ch')
      → CurrValue src s provide ch u a
      → CurrValue src s true ch' u a
  CurrValue-read after_attr_name provide ch ch' u (some a) same (inl h) = inl h
  CurrValue-read after_attr_name true ch ch' u (some a) same (inr h) =
      inr (h.0, rw (← same refl) h.1)
  CurrValue-read after_attr_name false ch ch' u (some a) same (inr h) = cc (h.1)
  CurrValue-read after_attr_name provide ch ch' u none same h = tt
  CurrValue-read s provide ch ch' u none same h = h
  CurrValue-read s provide ch ch' u (some a) same h = h

  -- Reading a character turns the invariant into the one that each case starts from.
  consume-ValueRead :
      (s : State) (l : Lexer)
      → ValueInv src s l
      → ValueRead src s (consume_next_input_char l).0 (consume_next_input_char l).1
  consume-ValueRead s l h =
      let c = consume-Consumed src l h.here in
      record {
        just_read = c.just_read;
        begun = rw c.same_cursor h.begun;
        clean = rw c.same_unread h.clean;
        done = rw c.same_earlier h.done;
        writing =
            rw (c.same_unread, c.same_attr) (CurrValue-read s _ _ _ _ _ c.same_char h.writing);
      }

  module _ (refs : Bytes → Option Bytes) (l : Lexer) where
    abbrev ch : Option ℕ
    ch = (consume_next_input_char l).0

    abbrev l' : Lexer
    l' = (consume_next_input_char l).1

    same_state : (s : State) → l.state ≡ s → At src l → l'.state ≡ s
    same_state s e a = (consume-Consumed src l a).same_state ∙ e

    step_in-ValuesKept :
        (s : State) → l.state ≡ s → ValueInv src s l → ValuesKept src (step_in refs s l)
    unfolding step_in
    step_in-ValuesKept data_state e h =
        in_data-ValuesKept src ch l' (consume-ValueRead data_state l h)
    step_in-ValuesKept tag_open e h =
        in_tag_open-ValuesKept src ch l' (same_state tag_open e h.here)
          (consume-ValueRead tag_open l h)
    step_in-ValuesKept tag_name e h =
        in_tag_name-ValuesKept src ch l' (same_state tag_name e h.here)
          (consume-ValueRead tag_name l h)
    step_in-ValuesKept before_attr_name e h =
        in_before_attr_name-ValuesKept src ch l' (same_state before_attr_name e h.here)
          (consume-ValueRead before_attr_name l h)
    step_in-ValuesKept attr_name e h =
        in_attr_name-ValuesKept src ch l'.curr_attr l' (same_state attr_name e h.here) refl
          (consume-ValueRead attr_name l h)
    step_in-ValuesKept after_attr_name e h =
        in_after_attr_name-ValuesKept src ch l' (same_state after_attr_name e h.here)
          (consume-ValueRead after_attr_name l h)
    step_in-ValuesKept before_attr_val e h =
        in_before_attr_val-ValuesKept src ch l' (same_state before_attr_val e h.here)
          (consume-ValueRead before_attr_val l h)
    step_in-ValuesKept attr_val_double_quote e h =
        in_quoted-ValuesKept src attr_val_double_quote ch l'.curr_attr l' refl
          (same_state attr_val_double_quote e h.here) refl
          (consume-ValueRead attr_val_double_quote l h)
    step_in-ValuesKept attr_val_single_quote e h =
        in_quoted-ValuesKept src attr_val_single_quote ch l'.curr_attr l' refl
          (same_state attr_val_single_quote e h.here) refl
          (consume-ValueRead attr_val_single_quote l h)
    step_in-ValuesKept attr_val_unquoted e h =
        in_attr_val_unquoted-ValuesKept src ch l'.curr_attr l'
          (same_state attr_val_unquoted e h.here) refl (consume-ValueRead attr_val_unquoted l h)
    step_in-ValuesKept after_attr_val_quoted e h =
        in_after_attr_val_quoted-ValuesKept src ch l' (same_state after_attr_val_quoted e h.here)
          (consume-ValueRead after_attr_val_quoted l h)
    step_in-ValuesKept char_ref e h = absurd h.writing
    step_in-ValuesKept named_char_ref e h = absurd h.writing
    step_in-ValuesKept numeric_char_ref e h = tt
    step_in-ValuesKept self_closing_start_tag e h =
        in_self_closing_start_tag-ValuesKept src ch l' (same_state self_closing_start_tag e h.here)
          (consume-ValueRead self_closing_start_tag l h)
    step_in-ValuesKept ambiguous_ampersand e h = tt

  new-ValueInv :
      (s : Bytes) → src ≡ s → Lacks b'&' s → ValueInv src data_state (new_open_tag_lexer s)
  unfolding new_open_tag_lexer
  new-ValueInv s e k = record { here = e; begun = tt; clean = k; done = tt; writing = tt }

step-ValuesKept :
    (src : Bytes) (refs : Bytes → Option Bytes) (l : Lexer)
    → StateInv l.state l
    → ValueInv src l.state l
    → ValuesKept src (step refs l)
unfolding step
step-ValuesKept src refs l g h = step_in-ValuesKept src refs l l.state refl h

-- The text at a value's start, as long as the value, is the value.
abbrev pub ValueStands : Bytes → Attr → Type 0
ValueStands s a = take (length a.value.text) (drop a.value.start s) ≡ a.value.text

ValueStands-build : (src : Bytes) (a : AttrBuilder) → ValueLocated src a → ValueStands src (build a)
ValueStands-build src a (inl h) = rw h.0
ValueStands-build src a (inr (u, h)) =
    ap (take (length a.value.text)) h ∙ take-append_length a.value.text u

ValuesDone-stand :
    (s : Bytes) (found : List Attr)
    → (found ≡ []) ⊎ ((l : Lexer) × ValuesDone s l × (found ≡ map build (attrs l)))
    → All (ValueStands s) found
ValuesDone-stand s found (inl nothing) = rw nothing tt
ValuesDone-stand s found (inr (l, d, built)) = rw built (
    All-map (ValueLocated s) (ValueStands s) build (ValueStands-build s) (attrs l)
      (All-current (ValueLocated s) l.earlier l.curr_attr d.0 d.1))

-- Whatever `scanAttrs` returns for a tag that holds no '&', each attribute's value stands in the
-- tag at the start that is returned with it.
pub scan_attrs-values :
    (refs : Bytes → Option Bytes) (s : Bytes) (found : List Attr)
    → Lacks b'&' s
    → scan_attrs refs s ≡ parsed found
    → All (ValueStands s) found
unfolding new_open_tag_lexer
scan_attrs-values refs s found k e = ValuesDone-stand s found (
    scan_attrs-Post (λ l. ValueInv s l.state l) (ValuesDone s) refs (step-ValuesKept s refs) s found
      (new-ValueInv s s refl k) e)
