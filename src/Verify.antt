-- ===== src/Verify.antt =====
-- The execution of expressions and statements on a state: src/ast/expr/verify.c, src/ast/stmt/verify.c
-- and what src/ast/function/function.c does with a state.
pub mod Results
pub mod Lvalue
pub mod Reduce
pub mod Assume
pub mod Virtual
pub mod Abstract
pub mod Absexec
pub mod Setup
pub mod Call
pub mod Eval
pub mod Decide
pub mod Exec
pub mod Step
