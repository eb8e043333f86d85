-- ===== src/Parser/Loops.antt =====
-- parser.go: the loops over the tokens of a block of Go code, and where they end.
use pushup.Base.{
  ℕ, zero, suc, ◌+◌, ◌-◌, ◌≤◌, ◌<◌, Bool-cases, ◌≡◌, ◌≢◌, ◌⊎◌, inl, inr, refl, sym, ap, ◌∙◌, none,
  some, [], ◌∷◌, ◌==◌, length, Bytes, arith,
}
use mathlib.Core.Path.{subst}
use pushup.Parser.State.{
  Token, lbrace, rbrace, eof, GoToken, Parser, eof_in_code_block, Outcome, returned, syntax_error,
  crashed, out_of_fuel, errorf, raise,
}
use pushup.Parser.Bind.{>>=-returned}
use pushup.Parser.Errors.{error_in-IsPlace}
use pushup.Parser.Env.{Env}
use pushup.Parser.Tokens.{token_offset, scanned_token, peek, advance}
use pushup.Parser.Blocks.{
  go_on, stop, handler_round, handler_next, handler_loop, block_round, block_next, block_loop,
}

module _ (env : Env) where
  -- The parser looks at token `n` of its scanner, and has pushed none back.
  pub record IsAt (n : ℕ) (p : Parser) : Type 0 where
    pub ahead : p.lookahead_token ≡ some (scanned_token env p.scanned n)
    pub calls : p.scans ≡ n + 1
    pub no_buffer : p.buffered_token ≡ none

  pub peek-IsAt :
      (n : ℕ) (p : Parser) → IsAt n p → peek env p ≡ returned (scanned_token env p.scanned n) p
  unfolding peek
  peek-IsAt n p h = rw h.ahead refl

  -- What `advance` makes of it.
  abbrev pub moved : ℕ → Parser → Parser
  moved n p =
      let t = scanned_token env p.scanned n in
      record p {
        offset = token_offset t p + length t.lit;
        accepted_token = some t;
        scans = p.scans + 1;
        lookahead_token = some (scanned_token env p.scanned p.scans);
      }

  pub advance-moved : (n : ℕ) (p : Parser) → IsAt n p → advance env p ≡ returned tt (moved n p)
  unfolding advance
  advance-moved n p h = rw (h.ahead, h.no_buffer) refl

  pub moved-IsAt : (n : ℕ) (p : Parser) → IsAt n p → IsAt (n + 1) (moved n p)
  moved-IsAt n p h = record {
    ahead = ap (λ k. some (scanned_token env p.scanned k)) h.calls;
    calls = omega (arith, h.calls);
    no_buffer = h.no_buffer;
  }

  handler_round-go_on :
      (t : Token) (depth : ℕ) → t ≢ rbrace → (d : ℕ) × (handler_round env t depth ≡ go_on d)
  handler_round-go_on lbrace depth h = (depth + 1, refl)
  handler_round-go_on rbrace depth h = absurd (h refl)
  handler_round-go_on _ depth h = (depth, refl)

  -- The loop of parseHandlerKeyword goes on for ever where no `}` is ahead.
  pub handler_loop-out_of_fuel :
      (fuel depth n : ℕ) (p : Parser)
      → IsAt n p
      → ((k : ℕ) → n ≤ k → (env.scan p.scanned k).tok ≢ rbrace)
      → handler_loop env fuel depth p ≡ out_of_fuel
  unfolding handler_loop handler_next
  handler_loop-out_of_fuel zero depth n p h k = refl
  handler_loop-out_of_fuel (suc fuel) depth n p h k =
      let t = scanned_token env p.scanned n in
      let (d, e) = handler_round-go_on t.tok depth (k n (omega arith)) in
      >>=-returned (peek env)
        (λ u. handler_next env (handler_loop env fuel) (handler_round env u.tok depth)) p t p
        (peek-IsAt n p h)
      ∙ (ap (λ r. handler_next env (handler_loop env fuel) r p) e
          ∙ (>>=-returned (advance env) (λ _. handler_loop env fuel d) p tt (moved n p)
                (advance-moved n p h)
              ∙ handler_loop-out_of_fuel fuel d (n + 1) (moved n p) (moved-IsAt n p h)
                  (λ j l. k j (omega (arith, l)))))

  -- How the loop of parseCodeBlock ends: at a `}`, which is looked at next, or at the end of the text
  -- with a syntax error, which is a crash in an empty source.
  abbrev pub IsBlockEnd : Parser → Outcome GoToken → Type 0
  IsBlockEnd p (returned last q) =
      (m : ℕ) × IsAt m q × (q.scanned ≡ p.scanned) × ((env.scan p.scanned m).tok ≡ rbrace)
  IsBlockEnd p (syntax_error e) = e.err ≡ eof_in_code_block
  IsBlockEnd p crashed = p.src ≡ []
  IsBlockEnd p out_of_fuel = ⊥

  errorf-IsBlockEnd : (p : Parser) → IsBlockEnd p (errorf eof_in_code_block p)
  unfolding errorf
  errorf-IsBlockEnd p = by_src p.src refl
    where
      by_src : (src : Bytes) → p.src ≡ src → IsBlockEnd p (raise eof_in_code_block src p)
      by_src [] h = h
      by_src (b ∷ src) h = (error_in-IsPlace eof_in_code_block (b ∷ src) p).0

  rbrace-cases :
      (depth : ℕ)
      → ((d : ℕ) × (block_round env rbrace depth ≡ go_on d)) ⊎ (block_round env rbrace depth ≡ stop)
  rbrace-cases depth = elim (Bool-cases (depth - 1 == 0)) [
    | inl e ↦ inr (rw e refl)
    | inr e ↦ inl (depth - 1, rw e refl)
  ]

  -- If call `last_scan` of the scanner gives the end of the file, a round for each call up to it is
  -- enough for the loop of parseCodeBlock to end, from any token up to there.
  pub block_loop-IsBlockEnd :
      (fuel depth n last_scan : ℕ) (last : GoToken) (p : Parser)
      → IsAt n p
      → n ≤ last_scan
      → last_scan < n + fuel
      → (env.scan p.scanned last_scan).tok ≡ eof
      → IsBlockEnd p (block_loop env fuel depth last p)
  unfolding block_loop block_next
  block_loop-IsBlockEnd zero depth n last_scan last p h le lt e = absurd (omega (arith, le, lt))
  block_loop-IsBlockEnd (suc fuel) depth n last_scan last p h le lt e =
      let t = scanned_token env p.scanned n in
      subst (IsBlockEnd p)
        (sym (
          >>=-returned (peek env)
            (λ u. block_next env (block_loop env fuel) u last (block_round env u.tok depth)) p t p
            (peek-IsAt n p h)))
        (by_tok t.tok refl (λ d m.
          block_loop-IsBlockEnd fuel d (n + 1) last_scan t (moved n p) (moved-IsAt n p h)
            (omega (arith, le, m)) (omega (arith, lt)) e))
    where
      go :
          (d : ℕ)
          → IsBlockEnd p (block_loop env fuel d (scanned_token env p.scanned n) (moved n p))
          → IsBlockEnd p (
              block_next env (block_loop env fuel) (scanned_token env p.scanned n) last (go_on d) p)
      go d r =
          let t = scanned_token env p.scanned n in
          subst (IsBlockEnd p)
            (sym (
              >>=-returned (advance env) (λ _. block_loop env fuel d t) p tt (moved n p)
                (advance-moved n p h)))
            r

      differs : (k : Token) → (env.scan p.scanned n).tok ≡ k → k ≢ eof → n ≢ last_scan
      differs k q m z = m (sym q ∙ (ap (λ i. (env.scan p.scanned i).tok) z ∙ e))

      by_tok :
          (k : Token)
          → (env.scan p.scanned n).tok ≡ k
          → ((d : ℕ)
              → n ≢ last_scan
              → IsBlockEnd p (block_loop env fuel d (scanned_token env p.scanned n) (moved n p)))
          → IsBlockEnd p (
              block_next env
                (block_loop env fuel)
                (scanned_token env p.scanned n)
                last
                (block_round env k depth)
                p)
      by_tok rbrace q rec = elim (rbrace-cases depth) [
        | inl (d, r) ↦
            subst
              (λ x.
                IsBlockEnd p
                  (block_next env (block_loop env fuel) (scanned_token env p.scanned n) last x p))
              (sym r) (go d (rec d (differs rbrace q (ground arith))))
        | inr r ↦
            subst
              (λ x.
                IsBlockEnd p
                  (block_next env (block_loop env fuel) (scanned_token env p.scanned n) last x p))
              (sym r) (n, h, refl, q)
      ]
      by_tok eof q rec = errorf-IsBlockEnd p
      by_tok lbrace q rec = go (depth + 1) (rec (depth + 1) (differs lbrace q (ground arith)))
      by_tok k q rec = go depth (rec depth (differs k q (ground arith)))
