-- ===== src/Typecheck.antt =====
-- typecheck.cpp: the check of binary operators. Its other parts are not modelled.
pub mod Operators
pub mod Casts
pub mod Coerce
pub mod Check
pub mod Values
pub mod Join
pub mod Verdict
pub mod Poison
