-- ===== src/Tests/Verify.antt =====
-- The execution of expressions and statements at concrete inputs.
use xr.Prelude.{ℕ, ◌≡◌, refl, true, false, Option, none, some, [], ◌∷◌, Run, ok, abort}
use xr.Prelude.Int.{pos, ◌+ℤ◌, ◌-ℤ◌, as_int}
use xr.Prelude.Str.{Str, codes, str_eq}
use xr.Util.Map.{entry, map_create, map_get}
use xr.Ast.Expr.{Expr, constant, identifier, binary, op_eq, ast_expr_copy, ast_expr_constant_create}
use xr.Ast.Expr.Copy.{is_copyable}
use xr.Ast.Expr.Equal.{is_comparable}
use xr.Ast.Stmts.{AstStmt, nop, expression, jump, stmt, no_stmts}
use xr.Props.{props_contradicts, props_install}
use xr.Value.Objects.{Value, value_int, value_sync, value_copy, value_int_create}
use xr.Value.Objects.Print.{value_to_expr}
use xr.Value.Number.{
  computed, ranges, constant, number_single_create, number_range_arr_single_create, number_to_expr,
  number_range_issingle, number_copy,
}
use xr.State.Stack.{Frame, Variable}
use xr.State.Stack.Frames.{new_block, at_address}
use xr.State.Machine.{State}
use xr.Verify.Results.{Err}
use xr.Verify.Results.{Result, value_result}
use xr.Verify.Reduce.{ast_expr_pf_reduce, is_builtin, has_prefix, expr_identifier_eval}
use xr.Verify.Reduce.Decide.{sel_decide}
use xr.Verify.Assume.{reduce_assume}
use xr.Verify.Assume.Decided.{sel_decide-reduce_assume}
use xr.Verify.Eval.{ast_expr_eval, expr_assign_eval}
use xr.Verify.Eval.Assignment.{expr_identifier_eval-expr_assign_eval}
use xr.Verify.Decide.{ast_expr_rangedecide}
use xr.Verify.Exec.{stmts_exec, stmt_iter_verify, iter_empty}
use xr.Verify.Exec.Blocks.{stmts_append, stmts_exec-behind_return}
use xr.Verify.Exec.Ranges.{stmt_iter_verify-iter_empty}
use xr.Tests.Machine.{main_state, main_frame, int_type, two_constants}

abbrev nowhere : AstStmt → Option Str
nowhere st = none

-- `ast_expr_eval` with fuel for expressions of two levels.
abbrev evaluator : Expr → State → Run (State × Result)
evaluator = ast_expr_eval nowhere 2

abbrev pub number : ℕ → Expr
number n = Expr.constant (pos n) false

stmts_exec-behind_return_example :
    stmts_exec evaluator nowhere
      (stmts_append (stmt nop no_stmts) (stmt (jump (some (number 1))) (stmt nop no_stmts)))
      main_state
    ≡ stmts_exec evaluator nowhere
        (stmts_append (stmt nop no_stmts) (stmt (jump (some (number 1))) no_stmts))
        main_state
stmts_exec-behind_return_example =
    stmts_exec-behind_return evaluator nowhere (stmt nop no_stmts) (some (number 1))
      (stmt nop no_stmts) no_stmts main_state

stmt_iter_verify-iter_empty_example :
    (iter_empty evaluator nowhere (expression (number 0)) (expression (number 0)) main_state
      ≡ ok (main_state, true))
    × (◌≡◌ {A = Option Err} none none)
    × (ast_expr_rangedecide (number 0) (number 0) (number 0) main_state ≡ abort)
unfolding stmt_iter_verify ast_expr_eval value_int_create number_single_create
    number_range_arr_single_create as_int ◌+ℤ◌
stmt_iter_verify-iter_empty_example =
    stmt_iter_verify-iter_empty evaluator nowhere (expression (number 0)) (expression (number 0))
      nop main_state main_state none (number 0) (number 0) (number 0) main_state refl

-- A state with the virtual constants `$0` and `#0`.
abbrev pub constants_state : State
constants_state = record main_state { vconst = two_constants }

abbrev pub dollar_zero : Expr
dollar_zero = identifier (codes "$0")

-- The values of `$0` and of 0.
abbrev pub unknown_value : Value
unknown_value = value_sync (computed dollar_zero)

abbrev pub zero_value : Value
zero_value = value_int (ranges (record { lower = constant (pos 0); upper = constant (pos 1) } ∷ []))

abbrev assumed_state : State
assumed_state = record constants_state { props = binary dollar_zero op_eq (number 0) ∷ [] }

sel_decide-reduce_assume_example :
    sel_decide (binary dollar_zero op_eq (number 0)) assumed_state
    ≡ ok (assumed_state, record { decision = true; err = none })
unfolding is_comparable is_copyable ast_expr_pf_reduce value_to_expr reduce_assume map_get str_eq
    as_int ◌+ℤ◌ value_int_create number_single_create number_range_arr_single_create ast_expr_copy
    number_to_expr number_range_issingle ◌-ℤ◌ ast_expr_constant_create props_contradicts
    props_install
sel_decide-reduce_assume_example =
    sel_decide-reduce_assume dollar_zero (number 0) dollar_zero (number 0) op_eq unknown_value
      zero_value constants_state assumed_state true (record { err = none; iscontradiction = false })
      refl refl refl refl (record { comparable = refl; copyable = refl }) tt refl refl

-- The variable `x` in the frame of `main`.
abbrev variable_x : Variable
variable_x = record { type = int_type; loc = at_address 0 1; isparam = false }

abbrev frame_x : Frame
frame_x = record main_frame {
  frame = new_block ∷ new_block ∷ [];
  varmap = entry (codes "x") variable_x ∷ [];
}

abbrev state_x : State
state_x = record main_state { stack = frame_x ∷ [] }

expr_identifier_eval-expr_assign_eval_example :
    (s' : State) × (expr_assign_eval evaluator nowhere 2 (identifier (codes "x")) (number 0) state_x
      ≡ ok (s', value_result (some zero_value)))
    × (expr_identifier_eval (codes "x") s' ≡ ok (s', value_result (some zero_value)))
unfolding ast_expr_eval map_get str_eq is_builtin has_prefix value_copy as_int ◌+ℤ◌ value_int_create
    number_single_create number_range_arr_single_create number_copy map_create
expr_identifier_eval-expr_assign_eval_example =
    expr_identifier_eval-expr_assign_eval evaluator nowhere 2 (number 0) state_x state_x frame_x []
      (codes "x") variable_x 1 none zero_value zero_value zero_value refl refl refl refl refl refl
      refl refl refl refl
