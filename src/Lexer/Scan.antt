-- ===== src/Lexer/Scan.antt =====
-- lexer.go: the loop of `openTagLexer.scan`, and `scanAttrs`.
use pushup.Base.{
  ℕ, zero, suc, ◌+◌, ◌*◌, Option, List, [], ◌∷◌, map, ◌==◌, if◌then◌else◌, length, Bytes, ok, err,
}
use pushup.Lexer.Defs.{
  ScanError, expected_open, Panic, scan_error, runtime_error, BufPos, AttrBuilder, StringPos, Attr,
  Lexer, new_open_tag_lexer, M, attrs,
}
use pushup.Lexer.States.{Flow, again, break_loop, step}

-- How a scan ends. `out_of_fuel` is not a behaviour of the source.
pub data Scanned (A : Type 0) : Type 0 where
  finished : A → Scanned A
  panicked : Panic → Scanned A
  out_of_fuel : Scanned A

abbrev pub to_string_pos : BufPos → StringPos
to_string_pos b = record { text = b.text; start = b.start }

-- `builder.name.String()` with its start, and the same of the value.
abbrev pub build : AttrBuilder → Attr
build a = record { name = to_string_pos a.name; value = to_string_pos a.value }

-- The result of `scanAttrs`; `crashed` is a panic that it passes on.
pub data ScanResult : Type 0 where
  parsed : List Attr → ScanResult
  failed : ScanError → ScanResult
  crashed : ScanResult
  no_fuel : ScanResult

abbrev pub recovered : Scanned Lexer → ScanResult
recovered (finished l) = parsed (map build (attrs l))
recovered (panicked (scan_error e)) = failed e
recovered (panicked runtime_error) = crashed
recovered out_of_fuel = no_fuel

-- Enough rounds for a tag of `n` bytes: each byte is looked at by at most ten rounds.
abbrev pub enough : ℕ → ℕ
enough n = 10 * n + 6

-- What a round leads to, where `rounds` makes the later ones.
abbrev pub next : (Lexer → Scanned Lexer) → M Flow → Scanned Lexer
next rounds (ok (again l)) = rounds l
next rounds (ok (break_loop l)) = finished l
next rounds (err p) = panicked p

module _ (named_char_refs : Bytes → Option Bytes) where
  unfoldable pub run : ℕ → Lexer → Scanned Lexer
  run zero l = out_of_fuel
  run (suc fuel) l = next (run fuel) (step named_char_refs l)

  unfoldable pub scan_attrs : Bytes → ScanResult
  unfolding run
  scan_attrs [] = parsed []
  scan_attrs (c ∷ s) =
      if c == b'<'
      then recovered (run (enough (suc (length s))) (new_open_tag_lexer (c ∷ s)))
      else failed (expected_open c)
