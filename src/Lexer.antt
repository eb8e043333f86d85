-- ===== src/Lexer.antt =====
-- The lexer of open tags (lexer.go): HTML5 tokenization of one start tag, which finds each
-- attribute's name and value together with its byte position.
--
-- `Defs` holds the machine's state and its helpers, `States` one function for each case of the
-- switch in `openTagLexer.scan`, `Scan` the loop and `scanAttrs`.
pub mod Defs
pub mod States
pub mod Scan
mod Rounds
mod Cursor
mod Loop
pub mod Total
pub mod Names
pub mod Values
pub mod SingleQuotes
mod Tests
