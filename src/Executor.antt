-- ===== src/Executor.antt =====
-- The executor.
pub mod Operators
pub mod Row
pub mod Select
pub mod Eval
pub mod Like
