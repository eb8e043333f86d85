-- ===== src/Lexer/SingleQuotes/Inside.antt =====
-- The state of single-quoted values, where no '"' is ahead (lexer.go).
use pushup.Base.{
  ℕ, zero, suc, Bool, ◌≡◌, ◌≢◌, refl, ◌∙◌, true, false, Option, none, some, [], ◌∷◌, ◌++◌, Lacks,
  Bytes, ok, err, arith,
}
use pushup.Lexer.Defs.{
  State, attr_val_single_quote, char_ref, named_char_ref, numeric_char_ref, ambiguous_ampersand,
  Lexer, is_space, is_ascii_alpha, consume_from, consume_next_input_char, M, append_curr_val,
  flush_char_ref, cmp_attr_name,
}
use pushup.Lexer.States.{
  Flow, again, break_loop, char_byte, write_char_ref, step, read_ident, step_in, in_quoted,
  in_char_ref, in_named_char_ref, after_ident,
}
use pushup.Lexer.Scan.{finished, next, run}
use pushup.Lexer.Cursor.{unread}

abbrev pub NoEnd : Bytes → Type 0
NoEnd u = Lacks b'"' u

-- The scan is inside a single-quoted value, or at a character reference in one.
abbrev pub InSingle : State → Lexer → Type 0
InSingle attr_val_single_quote l = NoEnd (unread l)
InSingle char_ref l = (l.return_state ≡ attr_val_single_quote) × NoEnd (unread l)
InSingle named_char_ref l = (l.return_state ≡ attr_val_single_quote) × NoEnd (unread l)
InSingle numeric_char_ref l = Unit
InSingle ambiguous_ampersand l = Unit
InSingle _ l = ⊥

-- A round stays inside, or fails.
abbrev pub Inside : M Flow → Type 0
Inside (ok (again l)) = InSingle l.state l
Inside (ok (break_loop l)) = ⊥
Inside (err _) = Unit

pub record ReadIn (ch : Option ℕ) (l : Lexer) : Type 0 where
  pub taken : l.provide_curr_input_char ≡ false
  pub provided : l.next_input_char ≡ ch
  pub no_end : NoEnd (char_byte ch ++ l.raw)

pub consume-ReadIn :
    (l : Lexer)
    → NoEnd (unread l)
    → ReadIn (consume_next_input_char l).0 (consume_next_input_char l).1
unfolding consume_next_input_char consume_from
consume-ReadIn l h = ground arith

in_quoted-Inside :
    (ch : Option ℕ) (l : Lexer)
    → l.state ≡ attr_val_single_quote
    → ReadIn ch l
    → Inside (in_quoted attr_val_single_quote ch l)
unfolding in_quoted append_curr_val
in_quoted-Inside none l e h = tt
in_quoted-Inside (some c) l e h = ground arith

in_char_ref-Inside :
    (ch : Option ℕ) (l : Lexer)
    → l.return_state ≡ attr_val_single_quote
    → ReadIn ch l
    → Inside (in_char_ref ch l)
unfolding in_char_ref flush_char_ref
in_char_ref-Inside none l e h = ground arith
in_char_ref-Inside (some c) l e h = ground arith

pub record ReadMore (l : Lexer) (ch : Option ℕ) (l' : Lexer) : Type 0 where
  pub read_in : ReadIn ch l'
  pub same_return : l'.return_state ≡ l.return_state

read_ident-ReadMore :
    (rest : Bytes) (ch : Option ℕ) (l : Lexer)
    → ReadIn ch l
    → ReadMore l (read_ident rest ch l).0 (read_ident rest ch l).1
unfolding read_ident consume_next_input_char consume_from
read_ident-ReadMore [] none l h = ground arith
read_ident-ReadMore [] (some c) l h = ground arith
read_ident-ReadMore (_ ∷ rest) none l h = ground arith
read_ident-ReadMore (_ ∷ rest) (some c) l h = ground (
  arith,
  read_ident-ReadMore rest (consume_next_input_char (write_char_ref (some c) l)).0
      (consume_next_input_char (write_char_ref (some c) l)).1,
)

after_ident-Inside :
    (entry : Option Bytes) (ch : Option ℕ) (l : Lexer)
    → l.return_state ≡ attr_val_single_quote
    → l.provide_curr_input_char ≡ false
    → NoEnd l.raw
    → Inside (after_ident entry ch l)
unfolding after_ident flush_char_ref
after_ident-Inside none ch l e p h = ground arith
after_ident-Inside (some ref) ch l e p h = ground arith

NoEnd-append : (ch : Option ℕ) (u : Bytes) → NoEnd (char_byte ch ++ u) → NoEnd u
NoEnd-append none u h = h
NoEnd-append (some c) u h = h.1

-- What reading a character leaves alone.
pub record SameMode (l l' : Lexer) : Type 0 where
  pub same_state : l'.state ≡ l.state
  pub same_return : l'.return_state ≡ l.return_state

pub consume-SameMode : (l : Lexer) → SameMode l (consume_next_input_char l).1
unfolding consume_next_input_char consume_from
consume-SameMode l = ground arith

pub cmp_attr_name-eq-ok : (l l' : Lexer) → cmp_attr_name l ≡ ok l' → l' ≡ l
unfolding cmp_attr_name
cmp_attr_name-eq-ok l l' h = ground arith

-- The bytes that a tag's name goes on with, and those that an attribute's name is made of.
abbrev pub IsTagByte : ℕ → Type 0
IsTagByte c = (is_space (some c) ≡ false) × (c ≢ b'/') × (c ≢ b'>') × (c ≢ 0)

abbrev pub IsNameByte : ℕ → Type 0
IsNameByte c = IsTagByte c × (c ≢ b'=') × (c ≢ b'"') × (c ≢ b'\'') × (c ≢ b'<')

-- Letters are both.
abbrev pub IsLetter : ℕ → Type 0
IsLetter c = is_ascii_alpha (some c) ≡ true

pub IsLetter-IsNameByte : (c : ℕ) → IsLetter c → IsNameByte c
IsLetter-IsNameByte c h = (
  (ground arith, ground arith, ground arith, ground arith),
  ground arith,
  ground arith,
  ground arith,
  ground arith,
)

-- `<tag attr='` and what follows it.
abbrev pub single_quoted_tag : Bytes → Bytes → Bytes → Bytes
single_quoted_tag tag attr body = b'<' ∷ (tag ++ (b' ' ∷ (attr ++ (b'=' ∷ b'\'' ∷ body))))

-- The bytes that the lexer is about to read.
abbrev pub AheadFrom : Bool → Option ℕ → Bytes → Bytes → Type 0
AheadFrom false ch raw u = raw ≡ u
AheadFrom true none raw u = ⊥
AheadFrom true (some c) raw u = c ∷ raw ≡ u

abbrev pub Ahead : Lexer → Bytes → Type 0
Ahead l u = AheadFrom l.provide_curr_input_char l.next_input_char l.raw u

pub record Took (c : ℕ) (u : Bytes) (ch : Option ℕ) (l : Lexer) : Type 0 where
  pub char : ch ≡ some c
  pub taken : l.provide_curr_input_char ≡ false
  pub next : l.next_input_char ≡ some c
  pub rest : l.raw ≡ u

pub consume-Ahead :
    (l : Lexer) (c : ℕ) (u : Bytes)
    → Ahead l (c ∷ u)
    → Took c u (consume_next_input_char l).0 (consume_next_input_char l).1
unfolding consume_next_input_char consume_from
consume-Ahead l c u h = ground arith

module _ (refs : Bytes → Option Bytes) where
  in_named_char_ref-Inside :
      (ch : Option ℕ) (l : Lexer)
      → l.return_state ≡ attr_val_single_quote
      → ReadIn ch l
      → Inside (in_named_char_ref refs ch l)
  unfolding in_named_char_ref
  in_named_char_ref-Inside ch l e h =
      let more = read_ident-ReadMore l.raw ch l h in
      after_ident-Inside (refs (read_ident l.raw ch l).1.char_ref_buf) (read_ident l.raw ch l).0
        (read_ident l.raw ch l).1 (more.same_return ∙ e) more.read_in.taken
        (NoEnd-append (read_ident l.raw ch l).0 (read_ident l.raw ch l).1.raw more.read_in.no_end)

  step_in-Inside : (s : State) (l : Lexer) → l.state ≡ s → InSingle s l → Inside (step_in refs s l)
  unfolding step_in
  step_in-Inside attr_val_single_quote l e h =
      in_quoted-Inside (consume_next_input_char l).0 (consume_next_input_char l).1
        ((consume-SameMode l).same_state ∙ e) (consume-ReadIn l h)
  step_in-Inside char_ref l e h =
      let l1 = record l { char_ref_buf = b'&' ∷ [] } in
      in_char_ref-Inside (consume_next_input_char l1).0 (consume_next_input_char l1).1
        ((consume-SameMode l1).same_return ∙ h.0) (consume-ReadIn l1 h.1)
  step_in-Inside named_char_ref l e h =
      in_named_char_ref-Inside (consume_next_input_char l).0 (consume_next_input_char l).1
        ((consume-SameMode l).same_return ∙ h.0) (consume-ReadIn l h.1)
  step_in-Inside numeric_char_ref l e h = tt
  step_in-Inside ambiguous_ampersand l e h = tt
  step_in-Inside _ l e h = absurd h

  -- However many rounds follow, the scan does not finish.
  abbrev pub Dead : Lexer → Type 0
  Dead l = (fuel : ℕ) (last : Lexer) → run refs fuel l ≢ finished last

  pub Dead-InSingle :
      (fuel : ℕ) (l last : Lexer) → InSingle l.state l → run refs fuel l ≢ finished last
  unfolding run step
  Dead-InSingle zero l last h = cc
  Dead-InSingle (suc fuel) l last h =
      by_round (step_in refs l.state l) (step_in-Inside l.state l refl h)
        (λ m. Dead-InSingle fuel m last)
    where
      by_round :
          (r : M Flow)
          → Inside r
          → ((m : Lexer) → InSingle m.state m → run refs fuel m ≢ finished last)
          → next (run refs fuel) r ≢ finished last
      by_round (ok (again m)) i rec = rec m i
      by_round (ok (break_loop m)) i rec = absurd i
      by_round (err p) i rec = cc
