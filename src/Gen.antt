-- ===== src/Gen.antt =====
-- The printer of a page's code (codegen.go: `pageCodeGen`).
pub mod Defs
mod Balanced
mod Braces
mod Tests
pub mod Layout
pub mod Partials
pub mod Inline
pub mod Scopes
pub mod Silent
pub mod Typenames
