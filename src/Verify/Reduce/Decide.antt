-- ===== src/Verify/Reduce/Decide.antt =====
-- `sel_decide` of src/ast/stmt/verify.c, and the statements that end a block, of
-- src/ast/stmt/stmt.c and src/ast/block.c.
use xr.Prelude.{Bool, true, false, not, Option, none, some, Run, ok, abort, ◌>>=◌, if◌then◌else◌}
use xr.Prelude.Int.{pos, eqb_ℤ}
use xr.Util.Error.{error_undecideable_cond}
use xr.Ast.Expr.{Expr}
use xr.Ast.Stmts.{AstStmt, AstBlock, Stmts, compound, selection, jump, block, no_stmts, stmt}
use xr.Props.{props_get, props_contradicts}
use xr.Value.Objects.{
  Value, value_issync, value_as_sync, value_isconstant, value_as_constant, value_int_create,
  values_comparable, value_equal,
}
use xr.Value.Objects.Print.{value_to_expr}
use xr.State.Machine.{State}
use xr.Verify.Results.{Result, Decision, error_result, value_result, result_as_value}
use xr.Verify.Reduce.{ast_expr_pf_reduce}

abbrev pub decided : Bool → Decision
decided b = record { decision = b; err = none }

-- What the state's conditions say of the value; `none` is nothing.
unfoldable pub decide_by_props : Value → State → Run (Option Bool)
unfolding value_issync value_as_sync
decide_by_props v s =
    if value_issync v
    then (do
      sync ← value_as_sync v
      holds ← props_get s.props sync
      if holds then ok (some true) else (do
        contradicted ← props_contradicts s.props sync
        ok (if contradicted then some false else none)))
    else ok none

-- What the value itself says.
unfoldable pub decide_by_value : Value → Run Decision
unfolding value_isconstant value_as_constant values_comparable value_equal value_to_expr
decide_by_value v = do
  isconstant ← value_isconstant v
  if isconstant then (do k ← value_as_constant v; ok (decided (not (eqb_ℤ k (pos 0))))) else (do
    zero ← value_int_create (pos 0)
    if values_comparable zero v
        then (do same ← value_equal zero v; ok (decided (not same)))
        else (do
          e ← value_to_expr v
          ok (record { decision = false; err = some (error_undecideable_cond e) })))

unfoldable pub decide_value : Value → State → Run Decision
unfolding decide_by_props decide_by_value
decide_value v s = do
  known ← decide_by_props v s
  elim known [ some b ↦ ok (decided b) | none ↦ decide_by_value v ]

unfoldable pub decide_result : State × Result → Run (State × Decision)
unfolding decide_value result_as_value
decide_result (s, error_result e) = ok (s, record { decision = false; err = some e })
decide_result (s, value_result val) = do
  v ← result_as_value (value_result val)
  d ← decide_value v s
  ok (s, d)

unfoldable pub sel_decide : Expr → State → Run (State × Decision)
unfolding ast_expr_pf_reduce decide_result
sel_decide control s = ast_expr_pf_reduce control s >>= decide_result

-- The decision, which must have been possible.
unfoldable pub decision_of : State × Decision → Run (State × Bool)
decision_of (s, d) = elim d.err [ none ↦ ok (s, d.decision) | some e ↦ abort ]

unfoldable mutual
  unfolding sel_decide decision_of

  pub ast_stmt_isterminal : AstStmt → State → Run (State × Bool)
  ast_stmt_isterminal (jump rv) s = ok (s, true)
  ast_stmt_isterminal (compound b) s = ast_block_isterminal b s
  ast_stmt_isterminal (selection isswitch cond body n) s = do
    d ← sel_decide cond s
    (s', decision) ← decision_of d
    if decision then ast_stmt_isterminal body s' else ok (s', false)
  ast_stmt_isterminal _ s = ok (s, false)

  pub ast_block_isterminal : AstBlock → State → Run (State × Bool)
  ast_block_isterminal (block decls stmts) s = stmts_isterminal stmts s

  -- The loop.
  pub stmts_isterminal : Stmts → State → Run (State × Bool)
  stmts_isterminal no_stmts s = ok (s, false)
  stmts_isterminal (stmt st ss) s = do
    (s', terminal) ← ast_stmt_isterminal st s
    if terminal then ok (s', true) else stmts_isterminal ss s'
