-- ===== src/Lexer/Names.antt =====
-- The names that `scanAttrs` returns, and their places (lexer.go).
mod States
use pushup.Base.{
  ℕ, zero, suc, ◌+◌, ◌-◌, ◌≤◌, ◌≡◌, refl, sym, ◌∙◌, ap, Bool, true, false, ◌⊎◌, inl, inr, Option,
  none, some, List, [], ◌∷◌, ◌++◌, map, ◌==◌, if◌then◌else◌, length, take, map-take,
  take-append_length, All-map, drop, drop-map, All, Bytes, ok, err, arith,
}
use pushup.Lexer.Defs.{
  Attr, new_open_tag_lexer, attrs, State, data_state, tag_open, tag_name, before_attr_name,
  attr_name, after_attr_name, before_attr_val, attr_val_double_quote, attr_val_single_quote,
  attr_val_unquoted, after_attr_val_quoted, char_ref, named_char_ref, numeric_char_ref,
  self_closing_start_tag, ambiguous_ampersand, BufPos, AttrBuilder, Lexer, to_lower,
  consume_next_input_char, M, new_attr, append_at, append_curr_name, append_curr_val,
  flush_char_ref, cmp_attr_name,
}
use pushup.Lexer.States.{
  Flow, again, break_loop, char_byte, write_char_ref, step, read_ident, step_in, in_data,
  in_tag_open, in_tag_name, in_before_attr_name, in_attr_name, in_after_attr_name,
  in_before_attr_val, in_quoted, in_attr_val_unquoted, in_after_attr_val_quoted, in_char_ref,
  in_named_char_ref, after_ident, name_byte, close_name, in_self_closing_start_tag,
}
use pushup.Lexer.Scan.{build, finished, next, run, scan_attrs, parsed}
use pushup.Lexer.Rounds.{step-Good, Good, is_value_state, has_attr, StateInv}
use pushup.Lexer.Loop.{scan_attrs-Post}
use pushup.Lexer.Names.States.{
  lower, NameLocated, NameInv, NamesKept, NameRead, in_data-NamesKept, in_tag_open-NamesKept,
  in_tag_name-NamesKept, in_before_attr_name-NamesKept, in_after_attr_name-NamesKept,
  in_before_attr_val-NamesKept, in_attr_val_unquoted-NamesKept, in_after_attr_val_quoted-NamesKept,
  in_self_closing_start_tag-NamesKept, in_quoted-NamesKept, in_attr_name-NamesKept,
  in_char_ref-NamesKept, in_named_char_ref-NamesKept,
}
use pushup.Lexer.Cursor.{
  AtFrom, At, JustRead, unread, cursor_from, cursor, Begun, Consumed, consume-Consumed, Open,
  Located, Located-of-Open, append_at-Open, At-of-JustRead, ReadOn, pos_of_cursor,
  read_ident-ReadOn, AllAttr, All-current,
}

module _ (src : Bytes) where
  -- Reading a character turns the invariant into the one that each case starts from.
  consume-NameRead :
      (s : State) (l : Lexer)
      → NameInv src s l
      → NameRead src s (consume_next_input_char l).0 (consume_next_input_char l).1
  consume-NameRead s l h =
      let c = consume-Consumed src l h.here in
      record {
        just_read = c.just_read;
        begun = rw c.same_cursor h.begun;
        done = rw c.same_earlier h.done;
        writing = rw (c.same_unread, c.same_attr) h.writing;
      }

  module _ (refs : Bytes → Option Bytes) (l : Lexer) where
    abbrev ch : Option ℕ
    ch = (consume_next_input_char l).0

    abbrev l' : Lexer
    l' = (consume_next_input_char l).1

    same_state : (s : State) → l.state ≡ s → At src l → l'.state ≡ s
    same_state s e a = (consume-Consumed src l a).same_state ∙ e

    same_return :
        is_value_state l.return_state ≡ true → At src l → is_value_state l'.return_state ≡ true
    same_return v a = rw (consume-Consumed src l a).same_return v

    step_in-NamesKept :
        (s : State)
        → l.state ≡ s
        → StateInv s l
        → NameInv src s l
        → NamesKept src (step_in refs s l)
    unfolding step_in
    step_in-NamesKept data_state e g h =
        in_data-NamesKept src ch l' (consume-NameRead data_state l h)
    step_in-NamesKept tag_open e g h =
        in_tag_open-NamesKept src ch l' (same_state tag_open e h.here)
          (consume-NameRead tag_open l h)
    step_in-NamesKept tag_name e g h =
        in_tag_name-NamesKept src ch l' (same_state tag_name e h.here)
          (consume-NameRead tag_name l h)
    step_in-NamesKept before_attr_name e g h =
        in_before_attr_name-NamesKept src ch l' (same_state before_attr_name e h.here)
          (consume-NameRead before_attr_name l h)
    step_in-NamesKept attr_name e g h =
        in_attr_name-NamesKept src ch l'.curr_attr l' (same_state attr_name e h.here) refl
          (consume-NameRead attr_name l h)
    step_in-NamesKept after_attr_name e g h =
        in_after_attr_name-NamesKept src ch l' (same_state after_attr_name e h.here)
          (consume-NameRead after_attr_name l h)
    step_in-NamesKept before_attr_val e g h =
        in_before_attr_val-NamesKept src ch l' (same_state before_attr_val e h.here)
          (consume-NameRead before_attr_val l h)
    step_in-NamesKept attr_val_double_quote e g h =
        in_quoted-NamesKept src ch l' attr_val_double_quote refl
          (same_state attr_val_double_quote e h.here) (consume-NameRead attr_val_double_quote l h)
    step_in-NamesKept attr_val_single_quote e g h =
        in_quoted-NamesKept src ch l' attr_val_single_quote refl
          (same_state attr_val_single_quote e h.here) (consume-NameRead attr_val_single_quote l h)
    step_in-NamesKept attr_val_unquoted e g h =
        in_attr_val_unquoted-NamesKept src ch l' (same_state attr_val_unquoted e h.here)
          (consume-NameRead attr_val_unquoted l h)
    step_in-NamesKept after_attr_val_quoted e g h =
        in_after_attr_val_quoted-NamesKept src ch l' (same_state after_attr_val_quoted e h.here)
          (consume-NameRead after_attr_val_quoted l h)
    step_in-NamesKept char_ref e g h =
        let fresh = record l { char_ref_buf = b'&' ∷ [] } in
        let inv : NameInv src char_ref fresh = record {
          here = h.here;
          begun = h.begun;
          done = h.done;
          writing = h.writing;
        } in
        in_char_ref-NamesKept src (consume_next_input_char fresh).0
          (consume_next_input_char fresh).1 (rw (consume-Consumed src fresh h.here).same_return g.1)
          (consume-NameRead char_ref fresh inv)
    step_in-NamesKept named_char_ref e g h =
        in_named_char_ref-NamesKept src refs ch l' (same_return g.1 h.here)
          (consume-NameRead named_char_ref l h)
    step_in-NamesKept numeric_char_ref e g h = tt
    step_in-NamesKept self_closing_start_tag e g h =
        in_self_closing_start_tag-NamesKept src ch l' (same_state self_closing_start_tag e h.here)
          (consume-NameRead self_closing_start_tag l h)
    step_in-NamesKept ambiguous_ampersand e g h = tt

  new-NameInv : (s : Bytes) → src ≡ s → NameInv src data_state (new_open_tag_lexer s)
  unfolding new_open_tag_lexer
  new-NameInv s e = record { here = e; begun = tt; done = tt; writing = tt }

-- The text at a name's start, as long as the name, is the name up to ASCII case.
abbrev pub NameStands : Bytes → Attr → Type 0
NameStands s a = map to_lower (take (length a.name.text) (drop a.name.start s)) ≡ a.name.text

NameStands-build : (src : Bytes) (a : AttrBuilder) → NameLocated src a → NameStands src (build a)
NameStands-build src a (inl h) = rw h.0
NameStands-build src a (inr (u, h)) =
    map-take (length a.name.text) to_lower (drop a.name.start src)
    ∙ ap (take (length a.name.text)) (sym (drop-map a.name.start to_lower src) ∙ h)
    ∙ take-append_length a.name.text u

step-NamesKept :
    (src : Bytes) (refs : Bytes → Option Bytes) (l : Lexer)
    → StateInv l.state l
    → NameInv src l.state l
    → NamesKept src (step refs l)
unfolding step
step-NamesKept src refs l g h = step_in-NamesKept src refs l l.state refl g h

-- The names of all attributes stand in the tag.
abbrev NamesDone : Bytes → Lexer → Type 0
NamesDone src l = All (NameLocated src) l.earlier × AllAttr (NameLocated src) l.curr_attr

NamesDone-stand :
    (s : Bytes) (found : List Attr)
    → (found ≡ []) ⊎ ((l : Lexer) × NamesDone s l × (found ≡ map build (attrs l)))
    → All (NameStands s) found
NamesDone-stand s found (inl nothing) = rw nothing tt
NamesDone-stand s found (inr (l, d, built)) = rw built (
    All-map (NameLocated s) (NameStands s) build (NameStands-build s) (attrs l)
      (All-current (NameLocated s) l.earlier l.curr_attr d.0 d.1))

-- Whatever `scanAttrs` returns for a tag, each attribute's name stands in the tag at the start that
-- is returned with it, up to the case of ASCII letters.
pub scan_attrs-names :
    (refs : Bytes → Option Bytes) (s : Bytes) (found : List Attr)
    → scan_attrs refs s ≡ parsed found
    → All (NameStands s) found
unfolding new_open_tag_lexer
scan_attrs-names refs s found e = NamesDone-stand s found (
    scan_attrs-Post (λ l. NameInv s l.state l) (NamesDone s) refs (step-NamesKept s refs) s found
      (new-NameInv s s refl) e)
