-- ===== src/Parser.antt =====
-- The front end of parser/.
pub mod Ast
pub mod Lexer
