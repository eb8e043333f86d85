-- ===== src/Reload.antt =====
-- The development reloader (reloader.go): which files it watches, and how it collects the events of one
-- file into one reload.
mod Filename
mod Debounce
mod Armed
mod Calls
mod Quiet
mod Tests
