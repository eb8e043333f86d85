-- ===== src/Parser/Backup.antt =====
-- parser.go: `codeParser.backup`.
use pushup.Base.{ℕ, ◌≡◌, refl, some}
use pushup.Parser.State.{Parser, returned, ◌>>◌}
use pushup.Parser.Env.{Env}
use pushup.Parser.Tokens.{
  token_offset, scanned_token, peek, advance, sync, lookahead, lookahead_in, backup, backup_in,
}
use pushup.Parser.Loops.{IsAt, moved}

module _ (env : Env) where
  -- Behind an advance, a backup shows the token that was accepted again, with the offset at that token,
  -- and the next advance makes the same state of it: the scanner is not asked a second time.
  pub backup-advance :
      (n : ℕ) (p : Parser)
      → IsAt env n p
      → (q : Parser) × ((advance env >> backup env) p ≡ returned tt q)
        × (peek env q ≡ returned (scanned_token env p.scanned n) q)
        × (q.offset ≡ token_offset (scanned_token env p.scanned n) p)
        × (advance env q ≡ advance env p)
  unfolding advance backup backup_in peek lookahead lookahead_in sync
  backup-advance n p h =
      let t = scanned_token env p.scanned n in
      let b = moved env n p in
      (
        record b {
          offset = token_offset t p;
          buffered_token = some (scanned_token env p.scanned p.scans);
          lookahead_token = some t;
        },
        rw (h.ahead, h.no_buffer) refl,
        refl,
        refl,
        rw (h.ahead, h.no_buffer) refl,
      )
