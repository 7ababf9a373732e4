-- ===== src/Value/Objects/Extents.antt =====
-- Where an object begins and ends: the comparisons of src/object/object.c with an offset.
-- `state_eval` is `vconst_eval`, which is `ast_expr_matheval`: no state is read.
use xr.Prelude.{Bool, Run, ok, ◌>>=◌}
use xr.Prelude.Int.{pos}
use xr.Math.{and_run}
use xr.Ast.Expr.{
  Expr, binary, op_eq, op_lt, op_le, op_addition, ast_expr_copy, ast_expr_matheval,
  ast_expr_constant_create,
}
use xr.Value.Objects.{Object, unassigned, assigned, deallocand_range, range_size}

unfoldable pub object_size : Object → Run Expr
unfolding range_size
object_size (deallocand_range offset r) = range_size r >>= ast_expr_copy
object_size _ = ok (ast_expr_constant_create (pos 1))

unfoldable pub object_lower : Object → Expr
object_lower (unassigned offset) = offset
object_lower (assigned offset v) = offset
object_lower (deallocand_range offset r) = offset

unfoldable pub object_upper : Object → Run Expr
unfolding object_size object_lower
object_upper obj = do
  lw ← ast_expr_copy (object_lower obj)
  ok (binary lw op_addition (← object_size obj))

unfoldable pub object_contains : Object → Expr → Run Bool
unfolding object_lower object_upper
object_contains obj of = do
  up ← object_upper obj
  lw ← ast_expr_copy (object_lower obj)
  of1 ← ast_expr_copy of
  of2 ← ast_expr_copy of
  up' ← ast_expr_copy up
  and_run (ast_expr_matheval (binary lw op_le of1)) (ast_expr_matheval (binary of2 op_lt up'))

unfoldable pub object_contains_upperincl : Object → Expr → Run Bool
unfolding object_lower object_upper
object_contains_upperincl obj of = do
  up ← object_upper obj
  and_run (ast_expr_matheval (binary (object_lower obj) op_le of))
      (ast_expr_matheval (binary of op_le up))

unfoldable pub object_isempty : Object → Run Bool
unfolding object_lower object_upper
object_isempty obj = do
  up ← object_upper obj
  ast_expr_matheval (binary (object_lower obj) op_eq up)

unfoldable pub object_contig_precedes : Object → Object → Run Bool
unfolding object_lower object_upper
object_contig_precedes before after = do
  lw ← object_upper before
  ast_expr_matheval (binary lw op_eq (object_lower after))

unfoldable pub object_issingular : Object → Run Bool
unfolding object_lower object_upper
object_issingular obj = do
  up ← object_upper obj
  ast_expr_matheval
      (binary (binary (object_lower obj) op_addition (ast_expr_constant_create (pos 1))) op_eq up)
