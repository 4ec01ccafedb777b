-- ===== src/Examples.antt =====
-- The theorems at concrete inputs.
pub mod Lexing
pub mod Pools
pub mod Typing
pub mod Parsing
pub mod Programs
pub mod Desugaring
pub mod Converting
pub mod Checking
