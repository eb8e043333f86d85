-- ===== src/Page.antt =====
-- The page that the code generator works on (codegen.go: `newPageFromTree`).
pub mod Defs
pub mod Compact
pub mod Fields
mod Errors
pub mod Made
pub mod Partials
mod Tests
