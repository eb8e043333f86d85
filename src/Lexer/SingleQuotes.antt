-- ===== src/Lexer/SingleQuotes.antt =====
-- The single-quoted state ends at '"' (lexer.go, case openTagLexAttrValSingleQuote).
pub mod Inside
use pushup.Base.{
  ℕ, zero, suc, Bool, ◌≡◌, ◌≢◌, refl, sym, ap, ◌∙◌, true, false, ◌⊎◌, inl, inr, Option, none, some,
  List, [], ◌∷◌, ◌++◌, All, Lacks, Bytes, ok, err, ◌>>=◌, arith,
}
use mathlib.Core.Path.{subst}
use pushup.Lexer.Defs.{
  State, data_state, tag_open, tag_name, before_attr_name, attr_name, before_attr_val,
  attr_val_single_quote, char_ref, named_char_ref, numeric_char_ref, ambiguous_ampersand, ScanError,
  Attr, AttrBuilder, Lexer, runtime_error, append_at, to_lower, is_ascii_alpha, consume_from,
  consume_next_input_char, M, new_attr, new_open_tag_lexer, append_curr_name, append_curr_val,
  flush_char_ref, cmp_attr_name,
}
use pushup.Lexer.States.{
  stay, Flow, again, break_loop, char_byte, write_char_ref, step, read_ident, step_in, in_data,
  in_tag_open, in_tag_name, in_before_attr_name, in_attr_name, in_before_attr_val, in_quoted,
  in_char_ref, in_named_char_ref, after_ident, name_byte, close_name,
}
use pushup.Lexer.Scan.{finished, failed, parsed, next, run, scan_attrs}
use pushup.Lexer.Cursor.{unread_from, unread}
use pushup.Lexer.Loop.{recovered-eq-parsed}
use pushup.Lexer.Total.{scan_attrs_total}
use pushup.Lexer.SingleQuotes.Inside.{
  NoEnd, InSingle, Dead, Dead-InSingle, IsTagByte, IsNameByte, single_quoted_tag,
  cmp_attr_name-eq-ok, Ahead, AheadFrom, Took, consume-Ahead, SameMode, consume-SameMode,
}

module _ (refs : Bytes → Option Bytes) where
  -- A round of a dead end: it fails, or leads to a dead end.
  abbrev DeadRound : M Flow → Type 0
  DeadRound (ok (again l)) = Dead refs l
  DeadRound (ok (break_loop l)) = ⊥
  DeadRound (err _) = Unit

  Dead-step : (l : Lexer) → DeadRound (step refs l) → Dead refs l
  unfolding run
  Dead-step l d zero last = cc
  Dead-step l d (suc fuel) last = by_round (step refs l) d
    where
      by_round : (r : M Flow) → DeadRound r → next (run refs fuel) r ≢ finished last
      by_round (ok (again m)) d' = d' fuel last
      by_round (ok (break_loop m)) d' = absurd d'
      by_round (err p) d' = cc

  -- Every lexer in state `s` that has just these bytes ahead is a dead end.
  abbrev DeadFrom : State → Bytes → Type 0
  DeadFrom s u = (l : Lexer) → l.state ≡ s → Ahead l u → Dead refs l

  -- One round from state `s` at the character `c`, which the case `f` handles.
  Dead-read :
      (s : State) (f : Option ℕ → Lexer → M Flow) (c : ℕ) (u : Bytes)
      → ((l : Lexer)
          → step_in refs s l ≡ f (consume_next_input_char l).0 (consume_next_input_char l).1)
      → ((l : Lexer)
          → l.state ≡ s
          → l.provide_curr_input_char ≡ false
          → l.next_input_char ≡ some c
          → l.raw ≡ u
          → DeadRound (f (some c) l))
      → DeadFrom s (c ∷ u)
  unfolding step
  Dead-read s f c u by_case k l e a =
      let r = consume-Ahead l c u a in
      let l' = (consume_next_input_char l).1 in
      let round : step_in refs l.state l ≡ f (some c) l' =
        ap (λ t. step_in refs t l) e ∙ by_case l ∙ ap (λ ch. f ch l') r.char in
      Dead-step l (
        subst DeadRound (sym round)
          (k l' ((consume-SameMode l).same_state ∙ e) r.taken r.next r.rest))

  Dead-data_state : (u : Bytes) → DeadFrom tag_open u → DeadFrom data_state (b'<' ∷ u)
  Dead-data_state u k =
      Dead-read data_state in_data b'<' u (λ l. unfold step_in in refl)
        λ l e p n r. unfold in_data in k (record l { state = tag_open }) refl (rw p r)

  Dead-tag_open :
      (c : ℕ) (u : Bytes)
      → is_ascii_alpha (some c) ≡ true
      → DeadFrom tag_name (c ∷ u)
      → DeadFrom tag_open (c ∷ u)
  Dead-tag_open c u h k =
      Dead-read tag_open in_tag_open c u (λ l. unfold step_in in refl)
        λ l e p n r.
          let l' = record l { provide_curr_input_char = true; state = tag_name } in
          let round : in_tag_open (some c) l ≡ ok (again l') = unfold in_tag_open in ground arith in
          subst DeadRound (sym round) (k l' refl (ground arith))

  Dead-tag_name_letter :
      (c : ℕ) (u : Bytes)
      → is_ascii_alpha (some c) ≡ true
      → DeadFrom tag_name u
      → DeadFrom tag_name (c ∷ u)
  Dead-tag_name_letter c u h k =
      Dead-read tag_name in_tag_name c u (λ l. unfold step_in in refl)
        λ l e p n r.
          let round : in_tag_name (some c) l ≡ ok (again l) = unfold in_tag_name in ground arith in
          subst DeadRound (sym round) (k l e (ground arith))

  Dead-tag_name_byte :
      (c : ℕ) (u : Bytes) → IsTagByte c → DeadFrom tag_name u → DeadFrom tag_name (c ∷ u)
  Dead-tag_name_byte c u h k =
      Dead-read tag_name in_tag_name c u (λ l. unfold step_in in refl)
        λ l e p n r.
          let round : in_tag_name (some c) l ≡ ok (again l) = unfold in_tag_name in ground arith in
          subst DeadRound (sym round) (k l e (ground arith))

  Dead-tag_name_space : (u : Bytes) → DeadFrom before_attr_name u → DeadFrom tag_name (b' ' ∷ u)
  Dead-tag_name_space u k =
      Dead-read tag_name in_tag_name b' ' u (λ l. unfold step_in in refl)
        λ l e p n r. unfold in_tag_name in k (record l { state = before_attr_name }) refl (rw p r)

  Dead-before_attr_name :
      (c : ℕ) (u : Bytes)
      → IsNameByte c
      → DeadFrom attr_name (c ∷ u)
      → DeadFrom before_attr_name (c ∷ u)
  Dead-before_attr_name c u h k =
      Dead-read before_attr_name in_before_attr_name c u (λ l. unfold step_in in refl)
        λ l e p n r.
          let l' = record (new_attr l) { provide_curr_input_char = true; state = attr_name } in
          let round : in_before_attr_name (some c) l ≡ ok (again l') =
            unfold in_before_attr_name in ground arith in
          subst DeadRound (sym round) (k l' refl (unfold new_attr in ground arith))

  attr_name_byte :
      (c : ℕ) (u : Bytes) (l : Lexer) (a : Option AttrBuilder)
      → IsNameByte c
      → DeadFrom attr_name u
      → l.curr_attr ≡ a
      → l.state ≡ attr_name
      → Ahead l u
      → DeadRound (in_attr_name (some c) l)
  attr_name_byte c u l none h k q e a =
      let round : in_attr_name (some c) l ≡ err runtime_error =
        unfold in_attr_name name_byte append_curr_name in ground arith in
      subst DeadRound (sym round) tt
  attr_name_byte c u l (some b) h k q e a =
      let l' = record l {
        curr_attr = some (record b { name = append_at l.pos (to_lower c ∷ []) b.name });
      } in
      let round : in_attr_name (some c) l ≡ ok (again l') =
        unfold in_attr_name name_byte append_curr_name in ground arith in
      subst DeadRound (sym round) (k l' e a)

  Dead-attr_name_byte :
      (c : ℕ) (u : Bytes) → IsNameByte c → DeadFrom attr_name u → DeadFrom attr_name (c ∷ u)
  Dead-attr_name_byte c u h k =
      Dead-read attr_name in_attr_name c u (λ l. unfold step_in in refl)
        λ l e p n r. attr_name_byte c u l l.curr_attr h k refl e (ground arith)

  -- At '=' the name is compared with the earlier ones, and the value begins.
  attr_name_equals :
      (u : Bytes) (l : Lexer)
      → DeadFrom before_attr_val u
      → Ahead l u
      → (r : M Lexer) → cmp_attr_name (record l { state = before_attr_val }) ≡ r
      → DeadRound (in_attr_name (some b'=') l)
  attr_name_equals u l k a (ok l') q =
      let same = cmp_attr_name-eq-ok (record l { state = before_attr_val }) l' q in
      let round : in_attr_name (some b'=') l ≡ ok (again l') =
        unfold in_attr_name close_name in ap (λ m. m >>= stay) q in
      subst DeadRound (sym round)
        (k l' (ap (λ m. m.state) same) (subst (λ m. Ahead m u) (sym same) a))
  attr_name_equals u l k a (err x) q =
      let round : in_attr_name (some b'=') l ≡ err x =
        unfold in_attr_name close_name in ap (λ m. m >>= stay) q in
      subst DeadRound (sym round) tt

  Dead-attr_name_equals : (u : Bytes) → DeadFrom before_attr_val u → DeadFrom attr_name (b'=' ∷ u)
  Dead-attr_name_equals u k =
      Dead-read attr_name in_attr_name b'=' u (λ l. unfold step_in in refl)
        λ l e p n r.
          attr_name_equals u l k (ground arith)
            (cmp_attr_name (record l { state = before_attr_val })) refl

  Dead-before_attr_val :
      (u : Bytes) → DeadFrom attr_val_single_quote u → DeadFrom before_attr_val (b'\'' ∷ u)
  Dead-before_attr_val u k =
      Dead-read before_attr_val in_before_attr_val b'\'' u (λ l. unfold step_in in refl)
        λ l e p n r.
          unfold in_before_attr_val in k (record l { state = attr_val_single_quote }) refl (rw p r)

  Dead-single_quote : (u : Bytes) → NoEnd u → DeadFrom attr_val_single_quote u
  Dead-single_quote u h l e a fuel last =
      Dead-InSingle refs fuel l last (subst (λ s. InSingle s l) (sym e) (ground arith))

  -- Over the rest of the name of the tag, and over the name of the attribute.
  Dead-tag_name_word :
      (w u : Bytes) → All IsTagByte w → DeadFrom tag_name u → DeadFrom tag_name (w ++ u)
  Dead-tag_name_word [] u h k = k
  Dead-tag_name_word (c ∷ w) u (p, h) k =
      Dead-tag_name_byte c (w ++ u) p (Dead-tag_name_word w u h k)

  Dead-attr_name_word :
      (w u : Bytes) → All IsNameByte w → DeadFrom attr_name u → DeadFrom attr_name (w ++ u)
  Dead-attr_name_word [] u h k = k
  Dead-attr_name_word (c ∷ w) u (p, h) k =
      Dead-attr_name_byte c (w ++ u) p (Dead-attr_name_word w u h k)

  -- No such tag is scanned.
  Dead-tag :
      (t : ℕ) (ts : Bytes) (n : ℕ) (ns body : Bytes)
      → is_ascii_alpha (some t) ≡ true
      → All IsTagByte ts
      → All IsNameByte (n ∷ ns)
      → NoEnd body
      → Dead refs (new_open_tag_lexer (single_quoted_tag (t ∷ ts) (n ∷ ns) body))
  unfolding new_open_tag_lexer
  Dead-tag t ts n ns body ht hs hn hb =
      let value = Dead-attr_name_equals _ (Dead-before_attr_val body (Dead-single_quote body hb)) in
      let attr = Dead-before_attr_name n _ hn.0 (Dead-attr_name_word (n ∷ ns) _ hn value) in
      let name =
        Dead-tag_name_letter t _ ht (Dead-tag_name_word ts _ hs (Dead-tag_name_space _ attr)) in
      Dead-data_state _ (Dead-tag_open t _ ht name) _ refl refl

failed-of-not-parsed :
    (refs : Bytes → Option Bytes) (s : Bytes)
    → ((found : List Attr) → scan_attrs refs s ≢ parsed found)
    → (e : ScanError) × (scan_attrs refs s ≡ failed e)
failed-of-not-parsed refs s h = by_total (scan_attrs_total refs s)
  where
    by_total :
        ((found : List Attr) × (scan_attrs refs s ≡ parsed found))
          ⊎ ((e : ScanError) × (scan_attrs refs s ≡ failed e))
        → (e : ScanError) × (scan_attrs refs s ≡ failed e)
    by_total (inl (found, e)) = absurd (h found e)
    by_total (inr f) = f

-- A tag whose first attribute stands one space behind the tag's name, has `=` behind its name and a
-- value that starts with a single quote, and has no '"' behind that quote, is never scanned, whatever
-- follows: for every tag name that starts with a letter, such as `h1`, and every attribute name, such as
-- `data-x`, of bytes that the lexer takes in names, `scanAttrs` returns an error.
pub scan_attrs_single_quotes :
    (refs : Bytes → Option Bytes) (t : ℕ) (ts : Bytes) (n : ℕ) (ns body : Bytes)
    → is_ascii_alpha (some t) ≡ true
    → All IsTagByte ts
    → All IsNameByte (n ∷ ns)
    → Lacks b'"' body
    → (e : ScanError) × (scan_attrs refs (single_quoted_tag (t ∷ ts) (n ∷ ns) body) ≡ failed e)
unfolding scan_attrs
scan_attrs_single_quotes refs t ts n ns body ht hs hn hb =
    failed-of-not-parsed refs (single_quoted_tag (t ∷ ts) (n ∷ ns) body) λ found e.
      let (last, ran, _) = recovered-eq-parsed _ found e in
      Dead-tag refs t ts n ns body ht hs hn hb _ last ran
