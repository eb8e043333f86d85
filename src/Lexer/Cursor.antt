-- ===== src/Lexer/Cursor.antt =====
-- Where the lexer stands in its source, and the text of a buffer there (lexer.go).
use pushup.Base.{
  ℕ, ◌-◌, ◌≤◌, ◌≡◌, refl, Bool, true, false, ◌⊎◌, inl, inr, Option, none, some, List, [], ◌∷◌, ◌++◌,
  append_assoc, drop, drop-cons, All, All-append, Bytes, arith,
}
use pushup.Lexer.Defs.{
  State, data_state, BufPos, AttrBuilder, Lexer, consume_from, consume_next_input_char, append_at,
  current,
}
use pushup.Lexer.States.{char_byte, write_char_ref, read_ident}

-- The lexer has read `pos` bytes of `src`. A character that is provided again is the last of
-- them, unless it is eof.
abbrev pub AtFrom : Bytes → Bool → Option ℕ → ℕ → Bytes → Type 0
AtFrom src false ch pos raw = drop pos src ≡ raw
AtFrom src true none pos raw = (drop pos src ≡ raw) × (raw ≡ [])
AtFrom src true (some c) pos raw = (1 ≤ pos) × (drop (pos - 1) src ≡ c ∷ raw) × (drop pos src ≡ raw)

abbrev pub At : Bytes → Lexer → Type 0
At src l = AtFrom src l.provide_curr_input_char l.next_input_char l.pos l.raw

-- What is known right after `ch` was read.
abbrev pub JustRead : Bytes → Option ℕ → Lexer → Type 0
JustRead src ch l =
    (l.provide_curr_input_char ≡ false) × (l.next_input_char ≡ ch) × AtFrom src true ch l.pos l.raw

-- The bytes that no round has taken yet.
abbrev pub unread_from : Bool → Option ℕ → Bytes → Bytes
unread_from false ch raw = raw
unread_from true ch raw = char_byte ch ++ raw

abbrev pub unread : Lexer → Bytes
unread l = unread_from l.provide_curr_input_char l.next_input_char l.raw

-- The bytes that have been taken.
abbrev pub cursor_from : Bool → Option ℕ → ℕ → ℕ
cursor_from false ch pos = pos
cursor_from true none pos = pos
cursor_from true (some c) pos = pos - 1

abbrev pub cursor : Lexer → ℕ
cursor l = cursor_from l.provide_curr_input_char l.next_input_char l.pos

-- All but the first state begin behind the '<'.
abbrev pub Begun : State → ℕ → Type 0
Begun data_state n = Unit
Begun _ n = 1 ≤ n

-- Reading a character takes it from the unread bytes, and moves nothing else.
pub record Consumed (src : Bytes) (l : Lexer) (ch : Option ℕ) (l' : Lexer) : Type 0 where
  pub just_read : JustRead src ch l'
  pub same_char : l.provide_curr_input_char ≡ true → l.next_input_char ≡ ch
  pub same_unread : char_byte ch ++ l'.raw ≡ unread l
  pub same_cursor : cursor_from true ch l'.pos ≡ cursor l
  pub same_state : l'.state ≡ l.state
  pub same_return : l'.return_state ≡ l.return_state
  pub same_earlier : l'.earlier ≡ l.earlier
  pub same_attr : l'.curr_attr ≡ l.curr_attr

pub consume-Consumed :
    (src : Bytes) (l : Lexer)
    → At src l
    → Consumed src l (consume_next_input_char l).0 (consume_next_input_char l).1
unfolding consume_next_input_char
consume-Consumed src l h = by_raw l.provide_curr_input_char l.raw l.next_input_char refl refl refl h
  where
    by_raw :
        (provide : Bool) (raw : Bytes) (ch : Option ℕ)
        → l.provide_curr_input_char ≡ provide
        → l.raw ≡ raw
        → l.next_input_char ≡ ch
        → AtFrom src provide ch l.pos raw
        → Consumed src l (consume_from provide raw l).0 (consume_from provide raw l).1
    by_raw true raw none p r c k = ground arith
    by_raw true raw (some b) p r c k = ground arith
    by_raw false [] ch p r c k = ground arith
    by_raw false (b ∷ raw) ch p r c k = ground (arith, drop-cons l.pos src b raw k)

-- While a buffer is written it is empty, or spells the text from its start up to the bytes `u`.
abbrev pub Open : Bytes → Bytes → BufPos → Type 0
Open src u b = ((b.text ≡ []) × (b.start ≡ 0)) ⊎ ((1 ≤ b.start) × (drop b.start src ≡ b.text ++ u))

-- The buffer is empty, or its text stands in `src` at its start.
abbrev pub Located : Bytes → BufPos → Type 0
Located src b = ((b.text ≡ []) × (b.start ≡ 0)) ⊎ ((u : Bytes) × (drop b.start src ≡ b.text ++ u))

pub Located-of-Open : (src u : Bytes) (b : BufPos) → Open src u b → Located src b
Located-of-Open src u b (inl h) = inl h
Located-of-Open src u b (inr (p, h)) = inr (u, h)

pub append_at-Open :
    (src u : Bytes) (c pos : ℕ) (b : BufPos)
    → 2 ≤ pos
    → drop (pos - 1) src ≡ c ∷ u
    → Open src (c ∷ u) b
    → Open src u (append_at pos (c ∷ []) b)
append_at-Open src u c pos b p d (inl (t, s)) = inr (ground arith, ground arith)
append_at-Open src u c pos b p d (inr (s, h)) =
    inr (ground arith, ground (arith, append_assoc b.text (c ∷ []) u))

-- The names or the values of all attributes but the one being written.
module _ (P : AttrBuilder → Type 0) where
  abbrev pub AllAttr : Option AttrBuilder → Type 0
  AllAttr none = Unit
  AllAttr (some a) = P a

  pub All-current :
      (earlier : List AttrBuilder) (a : Option AttrBuilder)
      → All P earlier
      → AllAttr a
      → All P (earlier ++ current a)
  All-current earlier none h p = All-append P earlier [] h tt
  All-current earlier (some a) h p = All-append P earlier (a ∷ []) h (p, tt)

pub At-of-JustRead : (src : Bytes) (ch : Option ℕ) (l : Lexer) → JustRead src ch l → At src l
At-of-JustRead src none l h = ground arith
At-of-JustRead src (some c) l h = ground arith

-- The inner loop of the named state reads on, and leaves the attributes alone.
pub record ReadOn (src : Bytes) (l : Lexer) (ch' : Option ℕ) (l' : Lexer) : Type 0 where
  pub just_read : JustRead src ch' l'
  pub further : l.pos ≤ l'.pos
  pub same_return : l'.return_state ≡ l.return_state
  pub same_earlier : l'.earlier ≡ l.earlier
  pub same_attr : l'.curr_attr ≡ l.curr_attr

consume-ReadOn :
    (src : Bytes) (ch : Option ℕ) (l : Lexer)
    → JustRead src ch l
    → ReadOn src l
        (consume_next_input_char (write_char_ref ch l)).0
        (consume_next_input_char (write_char_ref ch l)).1
consume-ReadOn src ch l h =
    let c = consume-Consumed src (write_char_ref ch l) (At-of-JustRead src ch l h) in
    let taken : l.provide_curr_input_char ≡ false = h.0 in
    record {
      just_read = c.just_read;
      further = unfold consume_next_input_char consume_from in ground arith;
      same_return = c.same_return;
      same_earlier = c.same_earlier;
      same_attr = c.same_attr;
    }

pub read_ident-ReadOn :
    (src rest : Bytes) (ch : Option ℕ) (l : Lexer)
    → JustRead src ch l
    → ReadOn src l (read_ident rest ch l).0 (read_ident rest ch l).1
unfolding read_ident
read_ident-ReadOn src [] ch l h = ground (arith, consume-ReadOn src ch l h)
read_ident-ReadOn src (_ ∷ rest) ch l h =
    let on = consume-ReadOn src ch l h in
    ground (
      arith,
      on,
      read_ident-ReadOn src rest (consume_next_input_char (write_char_ref ch l)).0
          (consume_next_input_char (write_char_ref ch l)).1 on.just_read,
    )

pub pos_of_cursor : (ch : Option ℕ) (pos : ℕ) → 1 ≤ cursor_from true ch pos → 1 ≤ pos
pos_of_cursor none pos h = h
pos_of_cursor (some c) pos h = omega arith
