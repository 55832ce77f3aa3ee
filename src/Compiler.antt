-- ===== src/Compiler.antt =====
-- The compiler package, of which the scanner is here: compiler/tokens.py and compiler/lexer.py.
pub mod Tokens
pub mod Lexer
pub mod Types
pub mod Tests
