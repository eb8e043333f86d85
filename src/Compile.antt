-- ===== src/Compile.antt =====
-- The compiler of one .up file (compiler.go: `compile`): the parser, the optimizer and the two
-- generators behind each other.
pub mod Defs
mod Literals
pub mod Verbatim
mod Tests
