-- ===== src/Util.antt =====
-- src/util.rs: the types and parsers that both checkers share.
pub mod Ty
pub mod View
pub mod Bytes
pub mod Stmt
pub mod Cmd
pub mod Decl
pub mod Header
pub mod Outline
pub mod IndexEntry
