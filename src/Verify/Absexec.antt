-- ===== src/Verify/Absexec.antt =====
-- The execution of annotations: `ast_expr_abseval` of src/ast/expr/verify.c, `ast_stmt_absexec` of
-- src/ast/stmt/verify.c and `ast_function_absexec` of src/ast/function/function.c. `ast_expr_eval`,
-- which calls functions and so comes back here, is a parameter.
use xr.Prelude.{
  Bool, true, false, Option, none, some, ◌++◌, Run, ok, abort, ◌>>=◌, ◌>>◌, assert, if◌then◌else◌,
}
use xr.Prelude.Str.{Str, codes}
use xr.Ast.Expr.{
  AllocKind, Expr, identifier, constant, unary, call, structmember, arbarg, assignment,
  isdereferencable, allocation, alloc, dealloc, clump,
}
use xr.Ast.Stmts.{
  AstStmt, NestedStmt, AstBlock, Stmts, nop, labelled, compound, expression, selection, iteration,
  jump, no_nest, nest, block, no_stmts, stmt, ast_block_decls, ast_block_stmts, ast_stmt_ispre,
}
use xr.Ast.Functions.{AstFunction}
use xr.Props.{props_install}
use xr.Value.Objects.{object_as_value}
use xr.State.Block.{state_alloc}
use xr.State.Machine.{State}
use xr.State.Machine.Access.{Place, state_getresult, state_clump}
use xr.Verify.Results.{Err}
use xr.Verify.Results.{
  Result, message, spot_of, read_object, result_value_create, result_error_create,
}
use xr.Verify.Reduce.Decide.{sel_decide}
use xr.Verify.Abstract.{
  Stepped, wrapped, result_error, and_then, assign_result, dealloc_result, bounds_rangeprocess,
  hack_alloc_from_neteffect, ast_stmt_iter_lower_bound, ast_stmt_iter_upper_bound, declare_each,
}

-- `assert(loc)` and the text of the position: there must be one.
unfoldable pub at_position : Option Str → Str → State × Option Err → Stepped
unfolding wrapped
at_position loc fname (s, none) = ok (s, none)
at_position none fname (s, some err) = abort
at_position (some m) fname (s, some err) =
    ok (s, some (wrapped (m ++ (codes ":" ++ (fname ++ codes ": "))) err))

unfoldable pub no_value : Result
unfolding result_value_create
no_value = result_value_create none

-- `eval` is `ast_expr_eval`, `position` the text of a statement's position in the source.
module _ (eval : Expr → State → Run (State × Result)) (position : AstStmt → Option Str) where
  unfoldable pub alloc_absexec : AllocKind → Expr → State → Run (State × Result)
  unfolding state_alloc result_value_create dealloc_result state_clump
  alloc_absexec alloc arg s =
      let (heap, v) = state_alloc s.heap in
      ok (record s { heap = heap }, result_value_create (some v))
  alloc_absexec dealloc arg s = eval arg s >>= dealloc_result
  alloc_absexec clump arg s = let (s', v) = state_clump s in ok (s', result_value_create (some v))

  unfoldable pub ast_expr_abseval : Expr → State → Run (State × Result)
  unfolding alloc_absexec assign_result no_value
  ast_expr_abseval (assignment lval rval) s =
      ast_expr_abseval rval s
      >>= assign_result (ok (message (codes "undefined indirection (lvalue)"))) lval
  ast_expr_abseval (isdereferencable e) s = do
    props ← props_install s.props (isdereferencable e)
    ok (record s { props = props }, no_value)
  ast_expr_abseval (allocation kind arg) s = alloc_absexec kind arg s
  ast_expr_abseval (identifier id) s = eval (identifier id) s
  ast_expr_abseval (constant k ischar) s = eval (constant k ischar) s
  ast_expr_abseval (unary op e) s = eval (unary op e) s
  ast_expr_abseval (call root args) s = eval (call root args) s
  ast_expr_abseval (structmember root field) s = eval (structmember root field) s
  ast_expr_abseval arbarg s = eval arbarg s
  ast_expr_abseval _ s = abort

  unfoldable pub expr_absexec : Expr → State → Stepped
  unfolding ast_expr_abseval result_error
  expr_absexec e s = do (s', res) ← ast_expr_abseval e s; ok (s', result_error res)

  unfoldable pub ast_expr_alloc_rangeprocess : Expr → Expr → Expr → State → Stepped
  unfolding bounds_rangeprocess
  ast_expr_alloc_rangeprocess e lw up s = do
    (s1, result_lw) ← eval lw s
    (s2, result_up) ← eval up s1
    bounds_rangeprocess e result_lw result_up s2

  unfoldable pub iter_absexec : AstStmt → AstStmt → AstStmt → State → Stepped
  unfolding hack_alloc_from_neteffect ast_stmt_iter_lower_bound ast_stmt_iter_upper_bound
      ast_expr_alloc_rangeprocess
  iter_absexec init cond body s = do
    e ← hack_alloc_from_neteffect body
    lw ← ast_stmt_iter_lower_bound init
    up ← ast_stmt_iter_upper_bound cond
    ast_expr_alloc_rangeprocess e lw up s

  -- A return is an assignment to the result; its value is read.
  unfoldable pub jump_absexec : Option Expr → State → Stepped
  unfolding expr_absexec
  jump_absexec none s = abort
  jump_absexec (some rv) s = expr_absexec (assignment (identifier (codes "return")) rv) s

  unfoldable mutual
    unfolding expr_absexec iter_absexec jump_absexec sel_decide and_then

    pub ast_stmt_absexec : Bool → AstStmt → State → Stepped
    ast_stmt_absexec should_setup nop s = ok (s, none)
    -- Where the setup is not wanted, it is not executed.
    ast_stmt_absexec should_setup (labelled label st) s =
        let setup = ast_stmt_absexec should_setup st s in
        do assert (ast_stmt_ispre (labelled label st)); if should_setup then setup else ok (s, none)
    ast_stmt_absexec should_setup (expression e) s = expr_absexec e s
    ast_stmt_absexec should_setup (selection isswitch cond body n) s = do
      (s', dec) ← sel_decide cond s
      elim dec.err [
        | some e ↦ ok (s', some e)
        | none ↦ elim dec.decision [
          | true ↦ ast_stmt_absexec should_setup body s'
          | false ↦ nest_absexec should_setup n s'
        ]
      ]
    ast_stmt_absexec should_setup (iteration init cond iter abstract body) s =
        iter_absexec init cond body s
    ast_stmt_absexec should_setup (compound b) s = comp_absexec should_setup b s
    ast_stmt_absexec should_setup (jump rv) s = jump_absexec rv s
    ast_stmt_absexec should_setup _ s = abort

    pub nest_absexec : Bool → NestedStmt → State → Stepped
    nest_absexec should_setup no_nest s = ok (s, none)
    nest_absexec should_setup (nest st) s = ast_stmt_absexec should_setup st s

    pub comp_absexec : Bool → AstBlock → State → Stepped
    comp_absexec should_setup (block decls stmts) s = stmts_absexec should_setup stmts s

    -- The loop, up to the first error.
    pub stmts_absexec : Bool → Stmts → State → Stepped
    stmts_absexec should_setup no_stmts s = ok (s, none)
    stmts_absexec should_setup (stmt st ss) s = do
      r ← ast_stmt_absexec should_setup st s
      and_then r λ s'. stmts_absexec should_setup ss s'

  unfoldable pub ast_stmt_absprocess : AstStmt → Str → State → Bool → Stepped
  unfolding ast_stmt_absexec at_position
  ast_stmt_absprocess st fname s should_setup =
      ast_stmt_absexec should_setup st s >>= at_position (position st) fname

  -- The loop over the statements of the annotation, without their setup.
  unfoldable pub absprocess_each : Stmts → Str → State → Stepped
  unfolding ast_stmt_absprocess and_then
  absprocess_each no_stmts fname s = ok (s, none)
  absprocess_each (stmt st ss) fname s = do
    r ← ast_stmt_absprocess st fname s false
    and_then r λ s'. absprocess_each ss fname s'

  -- The value of the result, whose object must be there.
  unfoldable pub function_result : State → Option Place → Run (State × Result)
  unfolding read_object spot_of object_as_value result_value_create
  function_result s none = abort
  function_result s (some p) = do
    obj ← read_object s (spot_of p)
    v ← object_as_value obj
    ok (s, result_value_create v)

  unfoldable pub ast_function_absexec : AstFunction → State → Run (State × Result)
  unfolding declare_each absprocess_each state_getresult function_result result_error_create
  ast_function_absexec f s = do
    s1 ← declare_each (ast_block_decls f.abstract) false s
    (s2, err) ← absprocess_each (ast_block_stmts f.abstract) f.name s1
    elim err [
      | some e ↦ ok (s2, result_error_create e)
      | none ↦ do (s3, res) ← state_getresult s2; function_result s3 res.obj
    ]
