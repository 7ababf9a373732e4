-- ===== src/Verify/Decide.antt =====
-- What an assertion is decided by: values that are compared, and pointers to what can be freed, one or
-- a range of them; `ast_expr_rangedecide` of src/ast/expr/verify.c.
use xr.Prelude.{Bool, not, none, some, Run, ok, abort, ◌>>=◌, ◌>>◌, assert, is_some}
use xr.Prelude.Str.{codes}
use xr.Props.{or_run}
use xr.Ast.Expr.{
  BinaryOp, Expr, identifier, unary, binary, isdeallocand, op_bang, op_dereference, op_eq, op_ne,
  ast_expr_equal,
}
use xr.Value.Objects.{Value, value_equal}
use xr.State.Machine.{State}
use xr.State.Machine.Values.{state_addresses_deallocand}
use xr.State.Machine.Arrays.{state_range_aredeallocands}
use xr.Verify.Results.{Spot, read_object, lvalue_object}
use xr.Verify.Lvalue.{ast_expr_lvalue}

-- The values must be of one kind.
unfoldable pub value_compare : Value → BinaryOp → Value → Run Bool
unfolding value_equal
value_compare v1 op_eq v2 = value_equal v1 v2
value_compare v1 op_ne v2 = do ok (not (← value_equal v1 v2))
value_compare v1 _ v2 = abort

-- `hack_object_from_assertion`: the lvalue must be there.
unfoldable pub hack_object_from_assertion : Expr → State → Run (State × Spot)
unfolding ast_expr_lvalue lvalue_object
hack_object_from_assertion assertand s = do
  (s', res) ← ast_expr_lvalue assertand s
  assert (not (is_some res.err))
  obj ← lvalue_object res.lval
  elim obj [ none ↦ abort | some p ↦ ok (s', p) ]

unfoldable pub expr_isdeallocand_decide : Expr → State → Run (State × Bool)
unfolding hack_object_from_assertion read_object state_addresses_deallocand
expr_isdeallocand_decide assertand s = do
  (s', p) ← hack_object_from_assertion assertand s
  obj ← read_object s' p
  b ← state_addresses_deallocand s' obj
  ok (s', b)

-- The operands of `ast_expr_binary_e1` and `ast_expr_binary_e2`, which assert the kind.
unfoldable pub ast_expr_binary_e1 : Expr → Run Expr
ast_expr_binary_e1 (binary e1 op e2) = ok e1
ast_expr_binary_e1 _ = abort

unfoldable pub ast_expr_binary_e2 : Expr → Run Expr
ast_expr_binary_e2 (binary e1 op e2) = ok e2
ast_expr_binary_e2 _ = abort

unfoldable pub ast_expr_dereferenced : Expr → Run Expr
ast_expr_dereferenced (unary op_dereference e) = ok e
ast_expr_dereferenced _ = abort

-- The assertions on `acc`: a dereference at the offset `i` or `j`.
unfoldable pub known_offset : Expr → Run (Unit {0})
unfolding ast_expr_dereferenced ast_expr_binary_e2
known_offset acc = do
  inner ← ast_expr_dereferenced acc
  e2 ← ast_expr_binary_e2 inner
  known ←
      or_run (ast_expr_equal e2 (identifier (codes "i")))
        (ast_expr_equal e2 (identifier (codes "j")))
  assert known

-- The lvalue is that of the left operand of `acc` itself, not of what `acc` dereferences.
unfoldable pub expr_isdeallocand_rangedecide : Expr → Expr → Expr → State → Run (State × Bool)
unfolding known_offset ast_expr_binary_e1 hack_object_from_assertion read_object
    state_range_aredeallocands
expr_isdeallocand_rangedecide acc lw up s = do
  known_offset acc
  arr ← ast_expr_binary_e1 acc
  (s', p) ← hack_object_from_assertion arr s
  obj ← read_object s' p
  b ← state_range_aredeallocands s' obj lw up
  ok (s', b)

unfoldable pub negated : State × Bool → State × Bool
negated (s, b) = (s, not b)

unfoldable pub ast_expr_rangedecide : Expr → Expr → Expr → State → Run (State × Bool)
unfolding negated expr_isdeallocand_rangedecide
ast_expr_rangedecide (unary op_bang e) lw up s = do
  r ← ast_expr_rangedecide e lw up s
  ok (negated r)
ast_expr_rangedecide (isdeallocand acc) lw up s = expr_isdeallocand_rangedecide acc lw up s
ast_expr_rangedecide _ lw up s = abort
