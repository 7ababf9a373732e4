-- ===== src/Path.antt =====
-- `struct path` of src/path/path.c: the verification of one function as a tree of execution paths,
-- which splits on a condition that the state cannot decide. The audit of a path at its end, and the
-- steps that lead to it, compare states by their text and are not modelled.
pub mod Split
use xr.Prelude.{
  ℕ, Bool, true, false, not, ◌&&◌, ◌++◌, Option, none, some, if◌then◌else◌, Run, ok, abort, ◌>>=◌,
  ◌>>◌, assert,
}
use xr.Prelude.Str.{Str, codes}
use xr.Util.Error.{error_to_undecideable_cond, error_get_undecideable_cond}
use xr.Ast.Expr.{Expr, ast_expr_inverted_copy}
use xr.Ast.Expr.Print.{ast_expr_str}
use xr.Ast.Types.{AstType}
use xr.Ast.Stmts.{AstStmt, AstBlock}
use xr.Ast.Functions.{
  AstFunction, Externals, ast_function_copy, ast_function_setname, ast_function_body,
}
use xr.Props.{Props, props_copy}
use xr.State.Machine.{State, state_create}
use xr.State.Machine.Values.{state_copywithname, state_atend}
use xr.Verify.Results.{Err, preresult_iserror, preresult_iscontradiction}
use xr.Verify.Assume.{ast_expr_assume}
use xr.Verify.Setup.{ast_function_initparams, ast_function_setupabsexec}
use xr.Verify.Eval.{ast_expr_eval}
use xr.Verify.Step.{state_step}

-- A constructor for each `path_state`, with the fields that are set in it. A path at its end has
-- an actual state only if it got there from one. The externals are those of all paths.
pub data ExecutionPath : Type 0 where
  uninit : AstFunction → ExecutionPath
  abstract : AstFunction → State → ExecutionPath
  halfway : AstFunction → State → ExecutionPath
  actual : AstFunction → State → State → ExecutionPath
  audit : AstFunction → State → State → ExecutionPath
  split : AstFunction → ExecutionPath → ExecutionPath → ExecutionPath
  atend : AstFunction → State → Option State → ExecutionPath

-- What a step returns: the path that it has changed, or an error, at which the caller gives the
-- path up.
pub data Outcome : Type 0 where
  stepped : ExecutionPath → Outcome
  failed : Err → Outcome

-- `p->f`
unfoldable pub path_function : ExecutionPath → AstFunction
path_function (uninit f) = f
path_function (abstract f a) = f
path_function (halfway f a) = f
path_function (actual f a c) = f
path_function (audit f a c) = f
path_function (split f p_true p_false) = f
path_function (atend f a c) = f

unfoldable pub path_create : AstFunction → Run ExecutionPath
unfolding ast_function_copy
path_create f = do copy ← ast_function_copy f; ok (uninit copy)

unfoldable pub path_atend : ExecutionPath → Bool
path_atend (split f p_true p_false) = path_atend p_true && path_atend p_false
path_atend (atend f a c) = true
path_atend _ = false

-- The state with the condition assumed, and false if that is a contradiction.
unfoldable pub state_assume : State → Expr → Run (State × Bool)
unfolding ast_expr_assume preresult_iserror preresult_iscontradiction
state_assume s cond = do
  assumed ← ast_expr_assume cond s
  assert (not (preresult_iserror assumed.1))
  ok (assumed.0, not (preresult_iscontradiction assumed.1))

unfoldable pub split_name : Str → Expr → Run Str
unfolding ast_expr_str
split_name name assumption = do
  assumption_str ← ast_expr_str assumption
  ok (name ++ (codes " | " ++ assumption_str))

unfoldable pub copy_withcondname : AstFunction → Expr → Run AstFunction
unfolding ast_function_copy ast_function_setname split_name
copy_withcondname old cond = do
  f ← ast_function_copy old
  name ← split_name f.name cond
  ok (ast_function_setname f name)

-- The function of the new path.
unfoldable pub copied_function : AstFunction → Expr → Run AstFunction
unfolding copy_withcondname path_create path_function
copied_function old cond = do
  f ← copy_withcondname old cond
  p ← path_create f
  ok (path_function p)

unfoldable pub path_copywithcond : ExecutionPath → Expr → Run ExecutionPath
unfolding copied_function state_copywithname state_assume
path_copywithcond (abstract old a) cond = do
  f ← copied_function old cond
  a' ← state_copywithname a f.name
  assumed ← state_assume a' cond
  ok (if assumed.1 then abstract f assumed.0 else atend f assumed.0 none)
path_copywithcond (actual old a c) cond = do
  f ← copied_function old cond
  a' ← state_copywithname a f.name
  c' ← state_copywithname c f.name
  assumed ← state_assume c' cond
  ok (if assumed.1 then actual f a' assumed.0 else atend f a' (some assumed.0))
path_copywithcond _ cond = abort

unfoldable pub path_split : ExecutionPath → Expr → Run ExecutionPath
unfolding path_copywithcond path_function
path_split p cond = do
  p_true ← path_copywithcond p cond
  inverted ← ast_expr_inverted_copy cond true
  p_false ← path_copywithcond p inverted
  ok (split (path_function p) p_true p_false)

-- The end of `path_step_abstract`, on what the step of the state returned.
unfoldable pub split_or_fail : ExecutionPath → Option Err → Run Outcome
unfolding path_split
split_or_fail p none = ok (stepped p)
split_or_fail p (some err) = elim (error_to_undecideable_cond err) [
  | none ↦ ok (failed err)
  | some uc_err ↦ do
    cond ← error_get_undecideable_cond uc_err
    p' ← path_split p cond
    ok (stepped p')
]

-- The error if there is one, and the path otherwise.
unfoldable pub unless_error : ExecutionPath → Option Err → Outcome
unless_error p none = stepped p
unless_error p (some err) = failed err

-- `state_create_withprops` of src/state/state.c.
unfoldable pub state_create_withprops :
    Str → AstBlock → AstType → Bool → Externals → Props → Run State
unfolding state_create
state_create_withprops name b ret abs ext props = do
  s ← state_create name b ret abs ext
  copy ← props_copy props
  ok (record s { props = copy })

-- `position` is the text of a statement's position in the source, `depth` the fuel of the evaluation.
module _ (ext : Externals) (position : AstStmt → Option Str) (depth : ℕ) where
  unfoldable pub path_init_abstract : AstFunction → Run Outcome
  unfolding state_create ast_function_initparams unless_error
  path_init_abstract f = do
    s ← state_create f.name f.abstract f.ret true ext
    (a, err) ← ast_function_initparams (ast_expr_eval position depth) position depth f s
    ok (unless_error (abstract f a) err)

  unfoldable pub path_init_actual : AstFunction → State → Run Outcome
  unfolding ast_function_body state_create_withprops ast_function_initparams
      ast_function_setupabsexec unless_error
  path_init_actual f a = do
    body ← ast_function_body f
    s ← state_create_withprops f.name body f.ret false ext a.props
    (c, err) ← ast_function_initparams (ast_expr_eval position depth) position depth f s
    elim err [
      | some e ↦ ok (failed e)
      | none ↦ do
        (c', err') ← ast_function_setupabsexec (ast_expr_eval position depth) position depth f c
        ok (unless_error (actual f a c') err')
    ]

  -- At the end of the state it goes on at once with the step from `halfway`.
  unfoldable pub path_step_abstract : AstFunction → State → Run Outcome
  unfolding state_atend path_init_actual state_step split_or_fail
  path_step_abstract f a = do
    ended ← state_atend a
    if ended then path_init_actual f a else (do
      (a', err) ← state_step (ast_expr_eval position depth) position a
      split_or_fail (abstract f a') err)
