-- ===== src/Verify/Eval.antt =====
-- `ast_expr_eval` of src/ast/expr/verify.c. An expression may call a function whose annotation has
-- expressions again, without end, so that there is fuel for the depth of the evaluation; without fuel
-- it is `abort`.
pub mod Assignment
use xr.Prelude.{
  ℕ, zero, suc, Bool, true, false, Option, none, some, List, [], ◌∷◌, ◌++◌, Run, ok, abort, ◌>>=◌,
  if◌then◌else◌,
}
use xr.Prelude.Int.{pos}
use xr.Prelude.Str.{Str, codes}
use xr.Ast.Expr.{
  UnaryOp, BinaryOp, Expr, identifier, constant, string_literal, call, incdec, structmember, unary,
  binary, assignment, arbarg, op_address, op_dereference, op_bang, op_addition, op_subtraction,
  ast_expr_copy, ast_expr_constant_create,
}
use xr.Ast.Expr.Print.{ast_expr_str}
use xr.Ast.Types.{ast_type_create_voidptr}
use xr.Ast.Stmts.{AstStmt}
use xr.Value.Objects.{
  Value, Object, value_copy, value_literal_create, value_sync_create, object_as_value,
}
use xr.Value.Objects.Members.{value_struct_member}
use xr.Value.Objects.Print.{value_to_expr}
use xr.State.Machine.{State}
use xr.State.Machine.Access.{ObjectRes, Place, state_deref}
use xr.State.Machine.Values.{state_getloc}
use xr.Verify.Results.{Err}
use xr.Verify.Results.{
  Result, message, error_result, value_result, spot_of, read_object, result_as_value,
  result_error_create, result_value_create,
}
use xr.Verify.Lvalue.{no_field}
use xr.Verify.Reduce.{expr_constant_eval, expr_literal_eval, expr_identifier_eval, binary_value}
use xr.Verify.Virtual.{state_vconst}
use xr.Verify.Abstract.{assign_result}
use xr.Verify.Call.Apply.{expr_call_eval}

-- `*(e)` of the text.
unfoldable pub undefined_indirection : Expr → Run Result
unfolding ast_expr_str result_error_create
undefined_indirection e = do
  text ← ast_expr_str e
  ok (
      result_error_create
        (message (codes "undefined indirection: *(" ++ (text ++ codes ") has no value"))))

-- A copy of what the object holds, or the error for one that is not there or holds nothing.
unfoldable pub object_result : Expr → State → Option Place → Run Result
unfolding undefined_indirection read_object spot_of object_as_value value_copy result_value_create
object_result e s none = undefined_indirection e
object_result e s (some p) = do
  obj ← read_object s (spot_of p)
  v ← object_as_value obj
  elim v [
    | none ↦ undefined_indirection e
    | some w ↦ do copy ← value_copy w; ok (result_value_create (some copy))
  ]

-- The object at the index from the value.
unfoldable pub deref_value : Expr → Expr → State × Result → Run (State × Result)
unfolding result_as_value state_deref result_error_create object_result
deref_value e index (s, error_result err) = ok (s, error_result err)
deref_value e index (s, value_result val) = do
  arr ← result_as_value (value_result val)
  (s', res) ← state_deref s arr index
  elim res.err [
    | some m ↦ ok (s', result_error_create (message m))
    | none ↦ do r ← object_result e s' res.obj; ok (s', r)
  ]

unfoldable pub expr_to_binary : Expr → Run Expr
expr_to_binary (binary e1 op e2) = ast_expr_copy (binary e1 op e2)
expr_to_binary e = do
  copy ← ast_expr_copy e
  ok (binary copy op_addition (ast_expr_constant_create (pos 0)))

-- The address of a variable.
unfoldable pub address_eval : Expr → State → Run (State × Result)
unfolding state_getloc result_value_create
address_eval (identifier id) s = do v ← state_getloc s id; ok (s, result_value_create (some v))
address_eval _ s = abort

unfoldable pub member_result : Expr → Str → State × Result → Run (State × Result)
unfolding result_as_value value_struct_member no_field result_error_create object_as_value
    value_copy result_value_create
member_result root field (s, error_result err) = ok (s, error_result err)
member_result root field (s, value_result val) = do
  v ← result_as_value (value_result val)
  member ← value_struct_member v field
  elim member [
    | none ↦ do err ← no_field root field; ok (s, result_error_create err)
    | some obj ↦ do
      w ← object_as_value obj
      elim w [
        | none ↦ ok (s, result_value_create none)
        | some x ↦ do copy ← value_copy x; ok (s, result_value_create (some copy))
      ]
  ]

-- Both operands have been evaluated; the first one's error comes first.
unfoldable pub binary_result : BinaryOp → Result → Result → Run Result
unfolding result_as_value binary_value
binary_result op (error_result e) r2 = ok (error_result e)
binary_result op (value_result v) (error_result e) = ok (error_result e)
binary_result op (value_result v) (value_result w) = do
  v1 ← result_as_value (value_result v)
  v2 ← result_as_value (value_result w)
  binary_value v1 op v2

unfoldable pub ast_expr_incdec_to_assignment : Expr → Bool → Run (Expr × Expr)
ast_expr_incdec_to_assignment root inc = do
  lval ← ast_expr_copy root
  e1 ← ast_expr_copy root
  ok (
    lval,
    binary e1 (if inc then op_addition else op_subtraction) (ast_expr_constant_create (pos 1)),
  )

unfoldable pub not_an_lvalue : Expr → Run Err
unfolding ast_expr_str
not_an_lvalue lval = do
  text ← ast_expr_str lval
  ok (message (codes "undefined indirection: " ++ (text ++ codes " is not an lvalue")))

-- A result that is dropped must not be an error.
unfoldable pub destroyed : Result → State × Result → Run (State × Result)
destroyed res (s, error_result e) = abort
destroyed res (s, value_result v) = ok (s, res)

-- `eval` is `ast_expr_eval`, `position` the text of a statement's position in the source, and `depth`
-- the fuel for pointers and types.
module _ (eval : Expr → State → Run (State × Result)) (position : AstStmt → Option Str)
    (depth : ℕ) where
  -- The operand's operator is not looked at.
  unfoldable pub binary_deref_eval : Expr → State → Run (State × Result)
  unfolding deref_value
  binary_deref_eval (binary e1 op e2) s = eval e1 s >>= deref_value (binary e1 op e2) e2
  binary_deref_eval _ s = abort

  unfoldable pub dereference_eval : Expr → State → Run (State × Result)
  unfolding expr_to_binary binary_deref_eval
  dereference_eval operand s = do b ← expr_to_binary operand; binary_deref_eval b s

  unfoldable pub expr_unary_eval : UnaryOp → Expr → State → Run (State × Result)
  unfolding dereference_eval address_eval result_value_create value_literal_create
  expr_unary_eval op_dereference e s = dereference_eval e s
  expr_unary_eval op_address e s = address_eval e s
  expr_unary_eval op_bang e s =
      ok (s, result_value_create (some (value_literal_create (codes "hack"))))
  expr_unary_eval _ e s = abort

  unfoldable pub expr_structmember_eval : Expr → Str → State → Run (State × Result)
  unfolding member_result
  expr_structmember_eval root field s = eval root s >>= member_result root field

  unfoldable pub expr_assign_eval : Expr → Expr → State → Run (State × Result)
  unfolding assign_result not_an_lvalue
  expr_assign_eval lval rval s = eval rval s >>= assign_result (not_an_lvalue lval) lval

  -- `i++` has the value of `i` before; the result of its assignment is dropped.
  unfoldable pub expr_incdec_eval : Expr → Bool → Bool → State → Run (State × Result)
  unfolding ast_expr_incdec_to_assignment expr_assign_eval destroyed
  expr_incdec_eval root inc true s = do
    (lval, rval) ← ast_expr_incdec_to_assignment root inc
    expr_assign_eval lval rval s
  expr_incdec_eval root inc false s = do
    (lval, rval) ← ast_expr_incdec_to_assignment root inc
    (s1, res) ← eval root s
    assigned ← expr_assign_eval lval rval s1
    destroyed res assigned

  unfoldable pub expr_binary_eval : Expr → BinaryOp → Expr → State → Run (State × Result)
  unfolding binary_result
  expr_binary_eval e1 op e2 s = do
    (s1, res1) ← eval e1 s
    (s2, res2) ← eval e2 s1
    r ← binary_result op res1 res2
    ok (s2, r)

  unfoldable pub arbarg_eval : State → Run (State × Result)
  unfolding state_vconst ast_type_create_voidptr result_value_create
  arbarg_eval s = do
    (s', v) ← state_vconst depth s ast_type_create_voidptr none false
    ok (s', result_value_create (some v))

  -- The switch over the kinds.
  unfoldable pub expr_eval : Expr → State → Run (State × Result)
  unfolding expr_constant_eval expr_literal_eval expr_identifier_eval expr_unary_eval
      expr_structmember_eval expr_call_eval expr_assign_eval expr_incdec_eval expr_binary_eval
      arbarg_eval
  expr_eval (constant k ischar) s = expr_constant_eval k s
  expr_eval (string_literal lit) s = expr_literal_eval lit s
  expr_eval (identifier id) s = expr_identifier_eval id s
  expr_eval (unary op e) s = expr_unary_eval op e s
  expr_eval (structmember root field) s = expr_structmember_eval root field s
  expr_eval (call root args) s = expr_call_eval eval position depth root args s
  expr_eval (assignment lval rval) s = expr_assign_eval lval rval s
  expr_eval (incdec root inc pre) s = expr_incdec_eval root inc pre s
  expr_eval (binary e1 op e2) s = expr_binary_eval e1 op e2 s
  expr_eval arbarg s = arbarg_eval s
  expr_eval _ s = abort

unfoldable pub ast_expr_eval : (AstStmt → Option Str) → ℕ → Expr → State → Run (State × Result)
unfolding expr_eval
ast_expr_eval position zero e s = abort
ast_expr_eval position (suc n) e s = expr_eval (ast_expr_eval position n) position (suc n) e s
