-- ===== src/Verify/Assume.antt =====
-- `ast_expr_assume` of src/ast/expr/verify.c and `ast_stmt_preprocess` of src/ast/stmt/verify.c: a
-- condition is installed among those that the state takes to hold.
pub mod Decided
use xr.Prelude.{Bool, true, false, not, Option, none, some, Run, ok, abort, ◌>>=◌, if◌then◌else◌}
use xr.Prelude.Str.{Str}
use xr.Ast.Expr.{
  BinaryOp, Expr, identifier, unary, bracketed, call, structmember, binary, op_bang, ast_expr_copy,
  ast_expr_inverted_copy,
}
use xr.Ast.Stmts.{AstStmt, ast_stmt_isassume, ast_stmt_labelled_stmt, ast_stmt_as_expr}
use xr.Props.{props_contradicts, props_install}
use xr.Value.Objects.{value_as_sync}
use xr.Value.Objects.Print.{value_to_expr}
use xr.State.Machine.{State, state_copy}
use xr.Verify.Results.{Preresult}
use xr.Verify.Results.{result_as_value, preresult_empty_create, preresult_contradiction_create}
use xr.Verify.Reduce.{expr_identifier_eval, ast_expr_pf_reduce}

-- The condition is installed unless the conditions of the state contradict it.
unfoldable pub assume_unless : Bool → Expr → State → Run (State × Preresult)
unfolding preresult_empty_create preresult_contradiction_create
assume_unless true e s = ok (s, preresult_contradiction_create)
assume_unless false e s = do
  copy ← ast_expr_copy e
  props ← props_install s.props copy
  ok (record s { props = props }, preresult_empty_create)

unfoldable pub irreducible_assume_actual : Expr → State → Run (State × Preresult)
unfolding assume_unless
irreducible_assume_actual e s = do
  contradicted ← props_contradicts s.props e
  assume_unless contradicted e s

unfoldable pub irreducible_assume : Expr → Bool → State → Run (State × Preresult)
unfolding ast_expr_inverted_copy irreducible_assume_actual
irreducible_assume e value s = do
  prop ← ast_expr_inverted_copy e (not value)
  irreducible_assume_actual prop s

-- The identifier is evaluated on a copy of the state.
unfoldable pub identifier_assume : Str → Bool → State → Run (State × Preresult)
unfolding state_copy expr_identifier_eval result_as_value value_as_sync irreducible_assume
identifier_assume id value s = do
  s_copy ← state_copy s
  (s', res) ← expr_identifier_eval id s_copy
  v ← result_as_value res
  e ← value_as_sync v
  irreducible_assume e value s

unfoldable pub ast_expr_pf_reduce_assume : Expr → Bool → State → Run (State × Preresult)
unfolding ast_expr_pf_reduce result_as_value value_as_sync irreducible_assume
ast_expr_pf_reduce_assume expr value s = do
  (s', res) ← ast_expr_pf_reduce expr s
  v ← result_as_value res
  e ← value_as_sync v
  irreducible_assume e value s'

unfoldable pub binary_assume : Expr → BinaryOp → Expr → Bool → State → Run (State × Preresult)
unfolding ast_expr_pf_reduce result_as_value value_to_expr irreducible_assume
binary_assume e1 op e2 value s = do
  (s1, r1) ← ast_expr_pf_reduce e1 s
  (s2, r2) ← ast_expr_pf_reduce e2 s1
  v1 ← result_as_value r1
  v2 ← result_as_value r2
  f1 ← value_to_expr v1
  f2 ← value_to_expr v2
  irreducible_assume (binary f1 op f2) value s2

unfoldable pub reduce_assume : Expr → Bool → State → Run (State × Preresult)
unfolding identifier_assume ast_expr_pf_reduce_assume binary_assume
reduce_assume (identifier id) value s = identifier_assume id value s
reduce_assume (unary op_bang e) value s = reduce_assume e (not value) s
reduce_assume (bracketed e) value s = reduce_assume e value s
reduce_assume (call root args) value s = ast_expr_pf_reduce_assume (call root args) value s
reduce_assume (structmember root field) value s =
    ast_expr_pf_reduce_assume (structmember root field) value s
reduce_assume (binary e1 op e2) value s = binary_assume e1 op e2 value s
reduce_assume _ value s = abort

unfoldable pub ast_expr_assume : Expr → State → Run (State × Preresult)
unfolding reduce_assume
ast_expr_assume expr s = reduce_assume expr true s

unfoldable pub ast_stmt_preprocess : AstStmt → State → Run (State × Preresult)
unfolding ast_expr_assume preresult_empty_create
ast_stmt_preprocess st s =
    if ast_stmt_isassume st
    then (do
      labelled ← ast_stmt_labelled_stmt st
      e ← ast_stmt_as_expr labelled
      ast_expr_assume e s)
    else ok (s, preresult_empty_create)
