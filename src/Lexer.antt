-- ===== src/Lexer.antt =====
-- lex.cpp: the lexer.
pub mod Scan
pub mod Next
pub mod Reads
pub mod Skips
pub mod Comments
pub mod Strings
pub mod Numbers
pub mod Shape
mod Words
pub mod Sound
mod Stages
pub mod Complete
pub mod Munch
pub mod Steps
pub mod Traces
mod Tests
