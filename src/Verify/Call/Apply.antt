-- ===== src/Verify/Call/Apply.antt =====
-- `expr_call_eval` of src/ast/expr/verify.c: a function is applied to its arguments by executing its
-- annotation in a new frame. `ast_expr_eval` is a parameter.
use xr.Prelude.{
  ℕ, true, not, Option, none, some, List, [], ◌∷◌, ◌++◌, Run, ok, abort, ◌>>=◌, if◌then◌else◌,
  length, ◌==◌,
}
use xr.Prelude.Str.{Str, codes, decimal}
use xr.Ast.Expr.{Expr, Args, identifier, call, no_args, arg}
use xr.Ast.Types.{AstVariable}
use xr.Ast.Stmts.{AstStmt}
use xr.Ast.Functions.{AstFunction, externals_getfunc}
use xr.Value.Objects.{value_copy}
use xr.State.Machine.{State, state_create, state_copy, state_pushframe, state_popframe}
use xr.Verify.Results.{Err}
use xr.Verify.Results.{Result, message, result_error_create, error_result, value_result}
use xr.Verify.Abstract.{wrapped}
use xr.Verify.Absexec.{ast_function_absexec}
use xr.Verify.Setup.{ast_function_initparams}
use xr.Verify.Call.{
  Computed, uncomputed, computed_args, count_args, verify_params, pf_augment, prepare_parameters,
  computed_param, computed_call,
}

unfoldable pub wrong_nargs : Str → ℕ → ℕ → Err
wrong_nargs name nargs nparams = message (
    codes "`"
    ++ (name
        ++ (codes "' given "
            ++ (decimal nargs
                ++ (codes " arguments instead of " ++ (decimal nparams ++ codes "\n"))))))

unfoldable pub not_found : Str → Str → Str → Err
not_found before name after =
    message (before ++ (codes "`" ++ (name ++ (codes "' not found" ++ after))))

module _ (eval : Expr → State → Run (State × Result)) (position : AstStmt → Option Str)
    (depth : ℕ) where
  -- The loop; the errors are kept in the results.
  unfoldable pub prepare_arguments : Args → State → Run (State × List Result)
  prepare_arguments no_args s = ok (s, [])
  prepare_arguments (arg e es) s = do
    (s1, res) ← eval e s
    (s2, rest) ← prepare_arguments es s1
    ok (s2, res ∷ rest)

  -- The parameters as the function's annotation alone sets them up, beside what the call gave them.
  unfoldable pub call_setupverify : AstFunction → State → Run (Option Err)
  unfolding state_create ast_function_initparams verify_params
  call_setupverify f arg_state = do
    param_state ← state_create f.name f.abstract f.ret true arg_state.ext
    (param_state', err) ← ast_function_initparams eval position depth f param_state
    elim err [
      | some e ↦ ok (some e)
      | none ↦ verify_params depth f.name f.param param_state' arg_state
    ]

  -- The loop of `call_to_computed_value`.
  unfoldable pub computed_params : List AstVariable → State → Run (State × Computed)
  unfolding computed_param
  computed_params [] s = ok (s, computed_args no_args)
  computed_params (v ∷ vs) s = do
    (s1, res) ← eval (identifier v.name) s
    elim res [
      | error_result e ↦ ok (s1, uncomputed (error_result e))
      | value_result val ↦ do
        e ← computed_param (value_result val)
        (s2, rest) ← computed_params vs s1
        ok (
          s2,
          elim rest [ uncomputed r ↦ uncomputed r | computed_args es ↦ computed_args (arg e es) ],
        )
    ]

  unfoldable pub call_to_computed_value : AstFunction → State → Run (State × Result)
  unfolding computed_params computed_call
  call_to_computed_value f s = do r ← computed_params f.param s; ok (computed_call f.name r)

  -- A function whose annotation gives no value returns what is not known of it.
  unfoldable pub call_absexec : Str → State → Run (State × Result)
  unfolding externals_getfunc not_found result_error_create ast_function_absexec
      call_to_computed_value
  call_absexec name s = elim (externals_getfunc s.ext name) [
    | none ↦ ok (s, result_error_create (not_found (codes "function ") name []))
    | some f ↦ do
      (s', res) ← ast_function_absexec eval position f s
      elim res [
        | error_result e ↦ ok (s', error_result e)
        | value_result none ↦ call_to_computed_value f s'
        | value_result (some v) ↦ ok (s', value_result (some v))
      ]
  ]

  -- The end of a call: the value is copied, and the frame popped.
  unfoldable pub call_result : Expr → State × Result → Run (State × Result)
  unfolding result_error_create wrapped value_copy state_popframe pf_augment
  call_result e (s, error_result err) = ok (s, result_error_create (wrapped (codes "\n\t") err))
  call_result e (s, value_result none) = do s' ← state_popframe s; ok (s', value_result none)
  call_result e (s, value_result (some v)) = do
    copy ← value_copy v
    s' ← state_popframe s
    pf_augment copy e s'

  unfoldable pub call_prepared : Expr → Str → AstFunction → State → Run (State × Result)
  unfolding state_copy call_setupverify result_error_create wrapped call_absexec call_result
  call_prepared e name f s = do
    copy ← state_copy s
    failure ← call_setupverify f copy
    elim failure [
      | some err ↦ ok (
        s,
        result_error_create
            (wrapped (codes "`" ++ (name ++ codes "' precondition failure\n\t")) err),
      )
      | none ↦ call_absexec name s >>= call_result e
    ]

  unfoldable pub call_function : Expr → Str → Args → AstFunction → State → Run (State × Result)
  unfolding count_args wrong_nargs result_error_create prepare_arguments state_pushframe
      prepare_parameters call_prepared
  call_function e name args f s =
      if not (count_args args == length f.param)
      then ok (s, result_error_create (wrong_nargs name (count_args args) (length f.param)))
      else (do
        (s1, given) ← prepare_arguments args s
        s2 ← state_pushframe s1 f.name f.abstract f.ret true
        (s3, err) ← prepare_parameters f.param given name s2
        elim err [ some er ↦ ok (s3, result_error_create er) | none ↦ call_prepared e name f s3 ])

  -- The root of the call must be a name.
  unfoldable pub expr_call_eval : Expr → Args → State → Run (State × Result)
  unfolding externals_getfunc not_found result_error_create call_function
  expr_call_eval (identifier name) args s = elim (externals_getfunc s.ext name) [
    | none ↦ ok (s, result_error_create (not_found [] name (codes "\n")))
    | some f ↦ call_function (call (identifier name) args) name args f s
  ]
  expr_call_eval _ args s = abort
