-- ===== src/Parser.antt =====
-- src/lang/core.py, class `Parser`.
pub mod Tokens
pub mod Monad
pub mod Types
pub mod Patterns
pub mod Operators
pub mod Exprs
pub mod Consumes
pub mod Decls
