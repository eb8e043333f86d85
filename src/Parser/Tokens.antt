-- ===== src/Parser/Tokens.antt =====
-- parser.go: how `codeParser` reads its tokens.
use pushup.Base.{ℕ, ◌+◌, ◌-◌, Option, none, some, leb, if◌then◌else◌, length, get_elem?, Bytes}
use pushup.Parser.State.{
  GoToken, Parser, returned, crashed, M, pure, ◌>>=◌, ◌>>◌, modify, of_option, source_from, slice,
}
use pushup.Parser.Env.{Env, has_lit, token_string}

abbrev pub remaining_source : Parser → Bytes
remaining_source p = source_from p.offset p

unfoldable pub reset : M (Unit {0})
reset = modify (λ p. record p {
  base_offset = p.offset;
  scanned = remaining_source p;
  scans = 0;
  buffered_token = none;
  accepted_token = none;
  lookahead_token = none;
})

-- `tokenOffset`
abbrev pub token_offset : GoToken → Parser → ℕ
token_offset t p = p.base_offset + t.pos

abbrev pub char_at : ℕ → Parser → ℕ
char_at offset p = elim (get_elem? p.src offset) [ none ↦ 0 | some c ↦ c ]

-- `prev`, which panics before the first `advance`.
unfoldable pub prev : M GoToken
prev p = of_option p.accepted_token p

-- `p.sourceFrom(pos)[:n]`
abbrev pub code_from : ℕ → ℕ → M Bytes
code_from pos n p = of_option (slice 0 n (source_from (p.base_offset + pos) p)) p

-- `(p.file.Offset(from) - p.file.Offset(start)) + len(lit)`; negative, it makes the slice by it a
-- crash.
abbrev pub extent : ℕ → ℕ → ℕ → M ℕ
extent from start len =
    of_option (if leb start (from + len) then some (from + len - start) else none)

module _ (env : Env) where
  -- The token of `lookahead`: its text is the scanner's, or the name of the token.
  abbrev pub scanned_token : Bytes → ℕ → GoToken
  scanned_token text n =
      let t = env.scan text n in
      record t { lit = if has_lit t.tok then t.lit else token_string env t.tok }

  unfoldable pub lookahead_in : Option GoToken → M GoToken
  lookahead_in (some t) p = returned t (record p { buffered_token = none })
  lookahead_in none p =
      returned (scanned_token p.scanned p.scans) (record p { scans = p.scans + 1 })

  unfoldable pub lookahead : M GoToken
  unfolding lookahead_in
  lookahead p = lookahead_in p.buffered_token p

  unfoldable pub peek_in : Option GoToken → M GoToken
  peek_in (some t) = pure t
  peek_in none = do t ← lookahead; modify (λ p. record p { lookahead_token = some t }); pure t

  unfoldable pub peek : M GoToken
  unfolding peek_in lookahead
  peek p = peek_in p.lookahead_token p

  -- `sync`: the parser's offset is moved behind the token.
  unfoldable pub sync : M GoToken
  unfolding peek
  sync = do t ← peek; modify (λ p. record p { offset = token_offset t p + length t.lit }); pure t

  unfoldable pub advance : M (Unit {0})
  unfolding sync lookahead
  advance = do
    t ← sync
    modify (λ p. record p { accepted_token = some t })
    next ← lookahead
    modify (λ p. record p { lookahead_token = some next })

  unfoldable pub backup_in : Option GoToken → Option GoToken → Option GoToken → M (Unit {0})
  backup_in (some t) ahead accepted p = crashed
  backup_in none none accepted p = crashed
  backup_in none (some t) none p = crashed
  backup_in none (some next) (some t) p =
      returned tt (record p {
        offset = token_offset t p;
        buffered_token = some next;
        lookahead_token = some t;
      })

  unfoldable pub backup : M (Unit {0})
  unfolding backup_in
  backup p = backup_in p.buffered_token p.lookahead_token p.accepted_token p
