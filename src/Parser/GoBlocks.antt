-- ===== src/Parser/GoBlocks.antt =====
-- parser.go: `parseHandlerKeyword` and `parseCodeBlock` on blocks that do not end, end, or are empty.
use pushup.Base.{ℕ, suc, ◌+◌, ◌≤◌, ◌<◌, ◌≡◌, ◌≢◌, refl, ◌∷◌, Bytes, codes, arith}
use pushup.Tree.Node.{go_code, GoCode, inline_go_code}
use pushup.Parser.State.{
  lbrace, rbrace, eof, GoToken, Parser, Outcome, returned, syntax_error, crashed, out_of_fuel,
  source_from,
}
use pushup.Parser.Env.{Env}
use pushup.Parser.Tokens.{scanned_token}
use pushup.Parser.Blocks.{parse_handler_keyword, block_loop, block_next, parse_code_block}
use pushup.Parser.Loops.{
  IsAt, peek-IsAt, moved, advance-moved, moved-IsAt, handler_loop-out_of_fuel, IsBlockEnd,
  block_loop-IsBlockEnd,
}

module _ (env : Env) where
  -- A handler whose `{` has no `}` behind it: parseHandlerKeyword never returns, whatever fuel its loop
  -- is given.
  pub parse_handler_keyword-out_of_fuel :
      (fuel n : ℕ) (p : Parser)
      → IsAt env n p
      → (env.scan p.scanned n).tok ≡ lbrace
      → ((k : ℕ) → n < k → (env.scan p.scanned k).tok ≢ rbrace)
      → parse_handler_keyword env fuel p ≡ out_of_fuel
  unfolding parse_handler_keyword
  parse_handler_keyword-out_of_fuel fuel n p h b k = ground (
    arith,
    peek-IsAt env n p h,
    advance-moved env n p h,
    peek-IsAt env (n + 1) (moved env n p) (moved-IsAt env n p h),
    handler_loop-out_of_fuel env fuel 1 (n + 1) (moved env n p) (moved-IsAt env n p h)
        (λ (j : ℕ) (l : n + 1 ≤ j). k j (omega (arith, l))),
  )

  -- `{` with the first `}` right behind it: the code of the block is the text of that `}`, since
  -- maxread and lastlit start at the token behind `{`.
  pub parse_code_block-empty :
      (fuel n : ℕ) (p : Parser) (rest : Bytes)
      → IsAt env n p
      → (env.scan p.scanned n).tok ≡ lbrace
      → (env.scan p.scanned (n + 1)).tok ≡ rbrace
      → source_from (p.base_offset + (env.scan p.scanned (n + 1)).pos) p ≡ b'}' ∷ rest
      → (e : GoCode) × (q : Parser) × (parse_code_block env (suc fuel) p ≡ returned (go_code e) q)
        × (e.code ≡ codes "}")
  unfolding parse_code_block block_loop block_next
  parse_code_block-empty fuel n p rest h b c s =
      let p1 = moved env n p in
      let first = scanned_token env p.scanned (n + 1) in
      let from = p1.offset in
      (
        record {
          context = inline_go_code;
          code = codes "}";
          pos = record { start = from; end = from + 1 };
        },
        moved env (n + 1) p1,
        ground (
          arith,
          peek-IsAt env n p h,
          advance-moved env n p h,
          peek-IsAt env (n + 1) p1 (moved-IsAt env n p h),
          advance-moved env (n + 1) p1 (moved-IsAt env n p h),
        ),
        refl,
      )

  -- A code block ends, or fails, for every text whose scanner comes to the end of the file, with a round
  -- for each token up to there.
  pub parse_code_block-ne-out_of_fuel :
      (fuel n last_scan : ℕ) (p : Parser)
      → IsAt env n p
      → (env.scan p.scanned n).tok ≡ lbrace
      → n < last_scan
      → last_scan ≤ n + fuel
      → (env.scan p.scanned last_scan).tok ≡ eof
      → parse_code_block env fuel p ≢ out_of_fuel
  unfolding parse_code_block
  parse_code_block-ne-out_of_fuel fuel n last_scan p h b lt le e =
      let p1 = moved env n p in
      let first = scanned_token env p.scanned (n + 1) in
      by_end (block_loop env fuel 1 first p1) refl (
        block_loop-IsBlockEnd env fuel 1 (n + 1) last_scan first p1 (moved-IsAt env n p h)
          (omega (arith, lt)) (omega (arith, le)) e)
    where
      by_end :
          (o : Outcome GoToken)
          → block_loop env fuel 1 (scanned_token env p.scanned (n + 1)) (moved env n p) ≡ o
          → IsBlockEnd env (moved env n p) o
          → parse_code_block env fuel p ≢ out_of_fuel
      by_end (returned last q) r (m, k, s, c) = ground (
        arith,
        r,
        peek-IsAt env n p h,
        advance-moved env n p h,
        peek-IsAt env (n + 1) (moved env n p) (moved-IsAt env n p h),
        advance-moved env m q k,
      )
      by_end (syntax_error x) r c = ground (
        arith,
        r,
        peek-IsAt env n p h,
        advance-moved env n p h,
        peek-IsAt env (n + 1) (moved env n p) (moved-IsAt env n p h),
      )
      by_end crashed r c = ground (
        arith,
        r,
        peek-IsAt env n p h,
        advance-moved env n p h,
        peek-IsAt env (n + 1) (moved env n p) (moved-IsAt env n p h),
      )
      by_end out_of_fuel r c = absurd c
