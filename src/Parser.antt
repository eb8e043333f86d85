-- ===== src/Parser.antt =====
-- The parser of pages (parser.go): an HTML parser over a tokenizer and a parser of the Go code in
-- the page over a scanner, which hand one text back and forth by the offset that they share.
pub mod State
pub mod Env
pub mod Tokens
pub mod Blocks
pub mod Expressions
pub mod Html
pub mod Elements
pub mod Code
pub mod Document
mod Errors
mod Loops
mod Bind
mod GoBlocks
pub mod Ranges
mod StartTag
pub mod Static
mod Rounds
pub mod Verbatim
pub mod Quoted
mod Backup
pub mod Tests
