-- ===== src/Runtime.antt =====
-- The runtime that is built into each project (_runtime/pushup_support.go): its table of routes, and
-- how a request finds its page.
pub mod Route
pub mod Match
mod Matched
mod Specific
pub mod Params
mod Slugs
pub mod Respond
pub mod Prefix
pub mod Resegments
mod Tests
