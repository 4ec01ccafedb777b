-- ===== src/Parser.antt =====
-- parse.cpp: the parser's state, and its access to tokens.
pub mod Tokens
pub mod Literals
pub mod Combine
pub mod Grammar
pub mod Comments
pub mod Keywords
pub mod Advance
pub mod Reports
pub mod Goes
pub mod Outcomes
pub mod Escapes
pub mod Ranges
pub mod Safe
pub mod Climbing
