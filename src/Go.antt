-- ===== src/Go.antt =====
-- The parts of Go's language and standard library that every package of the program uses: errors
-- as values, functions that change state and may fail, and time as text.
pub mod Errors
pub mod Exec
pub mod Time
