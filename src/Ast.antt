-- ===== src/Ast.antt =====
-- The syntax of annotated C programs: src/ast.
pub mod Expr
pub mod Types
pub mod Stmts
pub mod Functions
