-- ===== src/Mmz.antt =====
-- src/mmz: the specification side, which reads the mmz file and compares it with the binary file.
pub mod Map
pub mod Data
pub mod Mem
pub mod Monad
pub mod Lexer
pub mod Token
pub mod Coercion
pub mod Notation
pub mod GeneralNotation
pub mod CoercionStmt
pub mod Check
pub mod Operators
pub mod MathParser
pub mod Binders
pub mod Statement
pub mod Round
pub mod Until
