-- ===== src/Parser.antt =====
-- The lexer and the parser of paths (path/parser).
pub mod Token
pub mod Chars
pub mod Lexer
pub mod Escape
pub mod Text
pub mod Number
pub mod Lex
pub mod Tables
pub mod Symbol
pub mod Actions
pub mod Driver
pub mod Tests
