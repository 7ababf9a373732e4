-- ===== src/Verify/Exec.antt =====
-- The execution and verification of a function's body: `ast_expr_decide` of src/ast/expr/verify.c,
-- `ast_stmt_exec`, `ast_stmt_verify` and `ast_stmt_process` of src/ast/stmt/verify.c.
pub mod Blocks
pub mod Ranges
use xr.Prelude.{
  ℕ, Bool, true, false, not, ◌||◌, ◌==◌, Option, none, some, List, [], ◌∷◌, ◌++◌, Run, ok, abort,
  ◌>>=◌, ◌>>◌, assert, if◌then◌else◌, is_some,
}
use xr.Prelude.Int.{pos, eqb_ℤ}
use xr.Prelude.Str.{Str, codes}
use xr.Props.{or_run}
use xr.Ast.Expr.{
  BinaryOp, Expr, identifier, constant, unary, binary, isdeallocand, op_bang, op_dereference, op_eq,
  op_ne, ast_expr_equal, ast_expr_copy,
}
use xr.Ast.Types.{no_variables}
use xr.Ast.Stmts.{
  AstStmt, NestedStmt, AstBlock, Stmts, nop, labelled, compound, compound_v, expression, selection,
  iteration, jump, no_nest, nest, block, no_stmts, stmt, count_decls, count_stmts, ast_stmt_copy,
  ast_block_copy, ast_stmt_as_expr,
}
use xr.Value.Objects.{Value, value_equal, value_copy}
use xr.State.Machine.{State}
use xr.State.Machine.Access.{Place, state_getresult}
use xr.State.Machine.Values.{state_addresses_deallocand}
use xr.State.Machine.Arrays.{state_range_aredeallocands}
use xr.Verify.Results.{Err}
use xr.Verify.Results.{
  Result, Spot, message, error_result, value_result, spot_of, read_object, assign_object,
  lvalue_object, result_as_value,
}
use xr.Verify.Lvalue.{ast_expr_lvalue}
use xr.Verify.Reduce.Decide.{sel_decide, ast_stmt_isterminal}
use xr.Verify.Abstract.{
  Stepped, wrapped, result_error, and_then, ast_stmt_iter_lower_bound, ast_stmt_iter_upper_bound,
  hack_alloc_from_neteffect,
}
use xr.Verify.Absexec.{at_position, ast_stmt_absexec}
use xr.Verify.Decide.{value_compare, expr_isdeallocand_decide, ast_expr_rangedecide, negated}

-- The only statement of the body, and the bounds.
unfoldable pub iter_range : AstStmt → AstStmt → AstStmt → Run (Expr × Expr × Expr)
unfolding hack_alloc_from_neteffect ast_stmt_iter_lower_bound ast_stmt_iter_upper_bound
iter_range init cond body = do
  assertion ← hack_alloc_from_neteffect body
  lw ← ast_stmt_iter_lower_bound init
  up ← ast_stmt_iter_upper_bound cond
  ok (assertion, lw, up)

-- The end of `stmt_iter_verify`, for an iteration that is not empty.
unfoldable pub verify_range : Run (Expr × Expr × Expr) → State → Stepped
unfolding ast_expr_rangedecide
verify_range range s = do
  (assertion, lw, up) ← range
  (s', b) ← ast_expr_rangedecide assertion lw up s
  ok (s', if b then none else some (message (codes "could not verify")))

-- `iter_neteffect`: `none` is an empty annotation, of which nothing is executed.
unfoldable pub iter_neteffect : AstStmt → AstStmt → Expr → AstBlock → Run (Option AstStmt)
unfolding count_stmts count_decls
iter_neteffect init cond iter (block decls stmts) = if count_stmts stmts == 0 then ok none else (do
  assert (count_decls decls == 0)
  assert (count_stmts stmts == 1)
  init' ← ast_stmt_copy init
  cond' ← ast_stmt_copy cond
  iter' ← ast_expr_copy iter
  body ← ast_block_copy (block decls stmts)
  ok (some (iteration init' cond' iter' (block no_variables no_stmts) (compound body))))

unfoldable pub jump_result : State × Result → Stepped
unfolding value_copy state_getresult assign_object spot_of
jump_result (s, error_result e) = ok (s, some e)
jump_result (s, value_result none) = ok (s, none)
jump_result (s, value_result (some v)) = do
  (s1, res) ← state_getresult s
  elim res.obj [
    | none ↦ abort
    | some p ↦ do copy ← value_copy v; s2 ← assign_object s1 (spot_of p) (some copy); ok (s2, none)
  ]

module _ (eval : Expr → State → Run (State × Result)) (position : AstStmt → Option Str) where
  unfoldable pub expr_binary_decide : Expr → BinaryOp → Expr → State → Run (State × Bool)
  unfolding result_as_value value_compare
  expr_binary_decide e1 op e2 s = do
    (s1, root) ← eval e1 s
    (s2, last) ← eval e2 s1
    v1 ← result_as_value root
    v2 ← result_as_value last
    b ← value_compare v1 op v2
    ok (s2, b)

  unfoldable pub ast_expr_decide : Expr → State → Run (State × Bool)
  unfolding negated expr_isdeallocand_decide expr_binary_decide
  ast_expr_decide (constant k ischar) s = ok (s, not (eqb_ℤ k (pos 0)))
  ast_expr_decide (unary op_bang e) s = do r ← ast_expr_decide e s; ok (negated r)
  ast_expr_decide (isdeallocand e) s = expr_isdeallocand_decide e s
  ast_expr_decide (binary e1 op e2) s = expr_binary_decide e1 op e2 s
  ast_expr_decide _ s = abort

  unfoldable pub ast_expr_exec : Expr → State → Stepped
  unfolding result_error
  ast_expr_exec e s = do (s', res) ← eval e s; ok (s', result_error res)

  unfoldable pub neteffect_absexec : Option AstStmt → State → Stepped
  unfolding ast_stmt_absexec
  neteffect_absexec none s = ok (s, none)
  neteffect_absexec (some st) s = ast_stmt_absexec eval position true st s

  unfoldable pub stmt_iter_exec : AstStmt → AstStmt → Expr → AstBlock → State → Stepped
  unfolding iter_neteffect neteffect_absexec
  stmt_iter_exec init cond iter abstract s = do
    neteffect ← iter_neteffect init cond iter abstract
    neteffect_absexec neteffect s

  -- The value of a return is read.
  unfoldable pub stmt_jump_exec : Option Expr → State → Stepped
  unfolding jump_result
  stmt_jump_exec none s = abort
  stmt_jump_exec (some rv) s = eval rv s >>= jump_result

  unfoldable mutual
    unfolding ast_expr_exec sel_decide stmt_iter_exec stmt_jump_exec ast_stmt_isterminal and_then

    pub ast_stmt_exec : AstStmt → State → Stepped
    ast_stmt_exec nop s = ok (s, none)
    ast_stmt_exec (labelled label st) s = ast_stmt_exec st s
    ast_stmt_exec (compound b) s = stmt_compound_exec b s
    ast_stmt_exec (compound_v b) s = ok (s, none)
    ast_stmt_exec (expression e) s = ast_expr_exec e s
    ast_stmt_exec (selection isswitch cond body n) s = do
      (s', dec) ← sel_decide cond s
      elim dec.err [
        | some e ↦ ok (s', some e)
        | none ↦ elim dec.decision [ true ↦ ast_stmt_exec body s' | false ↦ nest_exec n s' ]
      ]
    ast_stmt_exec (iteration init cond iter abstract body) s =
        stmt_iter_exec init cond iter abstract s
    ast_stmt_exec (jump rv) s = stmt_jump_exec rv s
    ast_stmt_exec _ s = abort

    pub nest_exec : NestedStmt → State → Stepped
    nest_exec no_nest s = ok (s, none)
    nest_exec (nest st) s = ast_stmt_exec st s

    pub stmt_compound_exec : AstBlock → State → Stepped
    stmt_compound_exec (block decls stmts) s = do
      assert (count_decls decls == 0)
      stmts_exec stmts s

    -- The loop, up to an error or a terminal statement.
    pub stmts_exec : Stmts → State → Stepped
    stmts_exec no_stmts s = ok (s, none)
    stmts_exec (stmt st ss) s = do
      r ← ast_stmt_exec st s
      and_then r λ s1. (do
        (s2, terminal) ← ast_stmt_isterminal st s1
        elim terminal [ true ↦ ok (s2, none) | false ↦ stmts_exec ss s2 ])

  unfoldable pub stmt_expr_verify : Expr → State → Stepped
  unfolding ast_expr_decide
  stmt_expr_verify e s = do
    (s', b) ← ast_expr_decide e s
    ok (s', if b then none else some (message (codes "cannot verify statement")))

  -- The iteration is empty if its condition is false after its initialisation.
  unfoldable pub iter_empty : AstStmt → AstStmt → State → Run (State × Bool)
  unfolding ast_stmt_exec ast_stmt_as_expr ast_expr_decide negated
  iter_empty init cond s = do
    (s1, err) ← ast_stmt_exec init s
    assert (not (is_some err))
    e ← ast_stmt_as_expr cond
    r ← ast_expr_decide e s1
    ok (negated r)

  unfoldable pub stmt_iter_verify : AstStmt → AstStmt → AstStmt → State → Stepped
  unfolding iter_empty iter_range verify_range
  stmt_iter_verify init cond body s = do
    (s1, empty) ← iter_empty init cond s
    if empty then ok (s1, none) else verify_range (iter_range init cond body) s1

  unfoldable mutual
    unfolding stmt_expr_verify stmt_iter_verify and_then

    pub ast_stmt_verify : AstStmt → State → Stepped
    ast_stmt_verify nop s = ok (s, none)
    ast_stmt_verify (compound_v b) s = stmt_v_block_verify b s
    ast_stmt_verify (expression e) s = stmt_expr_verify e s
    ast_stmt_verify (iteration init cond iter abstract body) s = stmt_iter_verify init cond body s
    ast_stmt_verify _ s = abort

    pub stmt_v_block_verify : AstBlock → State → Stepped
    stmt_v_block_verify (block decls stmts) s = do
      assert (count_decls decls == 0)
      stmts_verify stmts s

    -- The loop, up to the first error.
    pub stmts_verify : Stmts → State → Stepped
    stmts_verify no_stmts s = ok (s, none)
    stmts_verify (stmt st ss) s = do r ← ast_stmt_verify st s; and_then r λ s'. stmts_verify ss s'

  -- A verification's error shows the position alone.
  unfoldable pub at_verification : Option Str → State × Option Err → Stepped
  unfolding wrapped
  at_verification loc (s, none) = ok (s, none)
  at_verification none (s, some err) = abort
  at_verification (some m) (s, some err) = ok (s, some (wrapped (m ++ codes ": ") err))

  unfoldable pub verified_first : AstStmt → State → Stepped
  unfolding ast_stmt_verify at_verification
  verified_first (compound_v b) s =
      ast_stmt_verify (compound_v b) s >>= at_verification (position (compound_v b))
  verified_first st s = ok (s, none)

  unfoldable pub ast_stmt_process : AstStmt → Str → State → Stepped
  unfolding verified_first ast_stmt_exec at_position and_then
  ast_stmt_process st fname s = do
    r ← verified_first st s
    and_then r λ s'. (do e ← ast_stmt_exec st s'; at_position (position st) fname e)
