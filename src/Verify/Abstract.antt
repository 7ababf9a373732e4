-- ===== src/Verify/Abstract.antt =====
-- The execution of annotations: `ast_expr_abseval` of src/ast/expr/verify.c, `ast_stmt_absexec` and
-- `ast_stmt_setupabsexec` of src/ast/stmt/verify.c, and what src/ast/function/function.c does with
-- them. `ast_expr_eval`, which calls functions and so comes back here, is a parameter.
use xr.Prelude.{
  Bool, true, false, not, Option, none, some, List, [], ◌∷◌, ◌++◌, Run, ok, abort, ◌>>=◌, ◌>>◌,
  assert, is_some,
}
use xr.Prelude.Str.{Str, codes}
use xr.Util.Error.{error_printf, error_str}
use xr.Ast.Expr.{
  AllocKind, Expr, identifier, unary, binary, assignment, allocation, dealloc, ast_expr_equal,
}
use xr.Ast.Types.{AstVariable, VariableArr, no_variables, variable, ast_variable_create}
use xr.Ast.Stmts.{AstStmt, compound, expression, block, no_stmts, stmt, ast_stmt_as_expr}
use xr.Value.Objects.{Value, Object, value_copy}
use xr.Value.Objects.Print.{value_to_expr}
use xr.State.Block.{state_dealloc}
use xr.State.Machine.{State, state_declare}
use xr.State.Machine.Arrays.{state_range_alloc, state_range_dealloc}
use xr.Verify.Results.{Err}
use xr.Verify.Results.{
  Result, message, error_result, value_result, result_as_value, result_error_create,
  result_value_create, read_object, assign_object, lvalue_object,
}
use xr.Verify.Lvalue.{ast_expr_lvalue}

-- A state, with an error beside it if there is one.
abbrev pub Stepped : Type 0
Stepped = Run (State × Option Err)

-- An error whose text is the given one and that of the error it wraps.
unfoldable pub wrapped : Str → Err → Err
unfolding error_printf error_str
wrapped text err = error_printf (text ++ error_str err) (err ∷ [])

unfoldable pub message_if : Option Str → Option Err
message_if none = none
message_if (some m) = some (message m)

unfoldable pub result_error : Result → Option Err
result_error (error_result e) = some e
result_error (value_result v) = none

-- The next step, if there is no error so far.
unfoldable pub and_then : State × Option Err → (State → Stepped) → Stepped
and_then (s, none) next = next s
and_then (s, some e) next = ok (s, some e)

-- The end of an assignment: the value is copied to the object that the lvalue names, and is the
-- result. The error for an object that is not there is made where it is needed.
unfoldable pub assign_lvalue : Run Err → Expr → State → Value → Run (State × Result)
unfolding ast_expr_lvalue lvalue_object value_copy assign_object result_error_create
    result_value_create
assign_lvalue undefined lval s v = do
  (s1, res) ← ast_expr_lvalue lval s
  elim res.err [
    | some e ↦ ok (s1, result_error_create e)
    | none ↦ do
      obj ← lvalue_object res.lval
      elim obj [
        | none ↦ do e ← undefined; ok (s1, result_error_create e)
        | some p ↦ do
          copy ← value_copy v
          s2 ← assign_object s1 p (some copy)
          ok (s2, result_value_create (some v))
      ]
  ]

unfoldable pub assign_result : Run Err → Expr → State × Result → Run (State × Result)
unfolding result_as_value assign_lvalue
assign_result undefined lval (s, error_result e) = ok (s, error_result e)
assign_result undefined lval (s, value_result val) = do
  v ← result_as_value (value_result val)
  assign_lvalue undefined lval s v

-- The value at a heap location is freed; the result has no value.
unfoldable pub dealloc_result : State × Result → Run (State × Result)
unfolding result_as_value state_dealloc result_error_create result_value_create
dealloc_result (s, error_result e) = ok (s, error_result e)
dealloc_result (s, value_result val) = do
  v ← result_as_value (value_result val)
  (heap, err) ← state_dealloc v s.heap
  ok (
    record s { heap = heap },
    elim err [ none ↦ result_value_create none | some m ↦ result_error_create (message m) ],
  )

-- `*(arr+i)`: the object of `arr`. The offset must be the variable `i`.
unfoldable pub hack_base_object_from_alloc : Expr → State → Run (State × Object)
unfolding ast_expr_lvalue lvalue_object read_object
hack_base_object_from_alloc (unary op (binary e1 op' e2)) s = do
  i ← ast_expr_equal e2 (identifier (codes "i"))
  assert i
  (s', res) ← ast_expr_lvalue e1 s
  assert (not (is_some res.err))
  obj ← lvalue_object res.lval
  elim obj [ none ↦ abort | some p ↦ do o ← read_object s' p; ok (s', o) ]
hack_base_object_from_alloc _ s = abort

unfoldable pub is_dealloc : AllocKind → Bool
is_dealloc dealloc = true
is_dealloc _ = false

unfoldable pub rangeprocess_alloc : Expr → Expr → Expr → Expr → State → Stepped
unfolding is_dealloc hack_base_object_from_alloc state_range_alloc message_if
rangeprocess_alloc lval (allocation kind arg) lw up s = do
  assert (not (is_dealloc kind))
  (s1, obj) ← hack_base_object_from_alloc lval s
  (s2, err) ← state_range_alloc s1 obj lw up
  ok (s2, message_if err)
rangeprocess_alloc lval _ lw up s = abort

unfoldable pub rangeprocess_dealloc : Expr → Expr → Expr → State → Stepped
unfolding hack_base_object_from_alloc state_range_dealloc message_if
rangeprocess_dealloc arg lw up s = do
  (s1, obj) ← hack_base_object_from_alloc arg s
  (s2, err) ← state_range_dealloc s1 obj lw up
  ok (s2, message_if err)

unfoldable pub rangeprocess : Expr → Expr → Expr → State → Stepped
unfolding rangeprocess_alloc rangeprocess_dealloc
rangeprocess (assignment lval rval) lw up s = rangeprocess_alloc lval rval lw up s
rangeprocess (allocation kind arg) lw up s = rangeprocess_dealloc arg lw up s
rangeprocess _ lw up s = abort

-- Both bounds have been evaluated; the lower one's error comes first.
unfoldable pub bounds_rangeprocess : Expr → Result → Result → State → Stepped
unfolding result_as_value value_to_expr rangeprocess
bounds_rangeprocess e (error_result err) up s = ok (s, some err)
bounds_rangeprocess e (value_result lw) (error_result err) s = ok (s, some err)
bounds_rangeprocess e (value_result lw) (value_result up) s = do
  v1 ← result_as_value (value_result lw)
  v2 ← result_as_value (value_result up)
  res_lw ← value_to_expr v1
  res_up ← value_to_expr v2
  rangeprocess e res_lw res_up s

-- `hack_alloc_from_neteffect`: the only statement of the body, an expression.
unfoldable pub hack_alloc_from_neteffect : AstStmt → Run Expr
unfolding ast_stmt_as_expr
hack_alloc_from_neteffect (compound (block no_variables (stmt st no_stmts))) = ast_stmt_as_expr st
hack_alloc_from_neteffect _ = abort

unfoldable pub ast_stmt_iter_lower_bound : AstStmt → Run Expr
ast_stmt_iter_lower_bound (expression (assignment lval rval)) = ok rval
ast_stmt_iter_lower_bound _ = abort

unfoldable pub ast_stmt_iter_upper_bound : AstStmt → Run Expr
ast_stmt_iter_upper_bound (expression (binary e1 op e2)) = ok e2
ast_stmt_iter_upper_bound _ = abort

-- The loop over the declarations.
unfoldable pub declare_each : VariableArr → Bool → State → Run State
unfolding state_declare ast_variable_create
declare_each no_variables isparam s = ok s
declare_each (variable name t arr) isparam s = do
  s' ← state_declare s (ast_variable_create name t) isparam
  declare_each arr isparam s'

unfoldable pub params_declare : List AstVariable → State → Run State
unfolding state_declare
params_declare [] s = ok s
params_declare (v ∷ vs) s = do s' ← state_declare s v true; params_declare vs s'
