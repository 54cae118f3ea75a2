-- ===== src/Commands.antt =====
-- cmd/ and main.go: the command line.
pub mod Defs
pub mod Answers
pub mod Whole
