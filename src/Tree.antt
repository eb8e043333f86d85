-- ===== src/Tree.antt =====
-- The syntax tree (ast.go) and its optimizer.
pub mod Node
pub mod Coalesce
pub mod Optimize
pub mod Walk
mod Stream
mod Inspect
mod Tests
