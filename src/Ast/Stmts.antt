-- ===== src/Ast/Stmts.antt =====
-- Statements and blocks: src/ast/stmt/stmt.c and src/ast/block.c. The positions in the source text
-- (`struct lexememarker`), which only messages show, are left out.
pub mod Copy
pub mod Funcs
pub mod Setup
use xr.Prelude.{
  ℕ, suc, Bool, true, false, not, ◌&&◌, Option, none, some, List, [], ◌∷◌, if◌then◌else◌, Run, ok,
  abort, ◌>>=◌, ◌>>◌, assert,
}
use xr.Prelude.Str.{Str, str_eq, codes}
use xr.Util.StringArr.{StringArr, string_arr_create, string_arr_concat}
use xr.Ast.Expr.{Expr, ast_expr_copy, ast_expr_equal, ast_expr_getfuncs}
use xr.Ast.Types.{AstType, VariableArr, no_variables, variable, ast_type_copy}

-- `struct ast_stmt` with a constructor for each kind that is made; the `nest` of a selection may be
-- NULL. The only jump is a return.
mutual
  pub data AstStmt : Type 0 where
    nop : AstStmt
    labelled : Str → AstStmt → AstStmt
    compound : AstBlock → AstStmt
    compound_v : AstBlock → AstStmt
    expression : Expr → AstStmt
    selection : Bool → Expr → AstStmt → NestedStmt → AstStmt
    iteration : AstStmt → AstStmt → Expr → AstBlock → AstStmt → AstStmt
    iteration_e : AstStmt → AstStmt → Expr → AstBlock → AstStmt → AstStmt
    jump : Option Expr → AstStmt

  pub data NestedStmt : Type 0 where
    no_nest : NestedStmt
    nest : AstStmt → NestedStmt

  -- `struct ast_block`: declarations, and statements.
  pub data AstBlock : Type 0 where
    block : VariableArr → Stmts → AstBlock

  pub data Stmts : Type 0 where
    no_stmts : Stmts
    stmt : AstStmt → Stmts → Stmts

unfoldable pub ast_block_decls : AstBlock → VariableArr
ast_block_decls (block decls stmts) = decls

unfoldable pub ast_block_stmts : AstBlock → Stmts
ast_block_stmts (block decls stmts) = stmts

unfoldable pub count_decls : VariableArr → ℕ
count_decls no_variables = 0
count_decls (variable n t arr) = suc (count_decls arr)

unfoldable pub count_stmts : Stmts → ℕ
count_stmts no_stmts = 0
count_stmts (stmt s ss) = suc (count_stmts ss)

unfoldable pub ast_block_ndecls : AstBlock → ℕ
unfolding ast_block_decls count_decls
ast_block_ndecls b = count_decls (ast_block_decls b)

unfoldable pub ast_block_nstmts : AstBlock → ℕ
unfolding ast_block_stmts count_stmts
ast_block_nstmts b = count_stmts (ast_block_stmts b)

-- The loop of `copy_var_arr`.
unfoldable pub copy_var_arr : VariableArr → Run VariableArr
copy_var_arr no_variables = ok no_variables
copy_var_arr (variable n t arr) = do t' ← ast_type_copy t; ok (variable n t' (← copy_var_arr arr))

unfoldable pub ast_expr_copy_ifnotnull : Option Expr → Run (Option Expr)
ast_expr_copy_ifnotnull none = ok none
ast_expr_copy_ifnotnull (some e) = do ok (some (← ast_expr_copy e))

unfoldable pub ast_stmt_create_sel : Bool → Expr → AstStmt → NestedStmt → Run AstStmt
ast_stmt_create_sel isswitch cond body n = do
  assert (not isswitch)
  ok (selection isswitch cond body n)

unfoldable pub ast_stmt_create_iter_e : AstStmt → Run AstStmt
ast_stmt_create_iter_e (iteration init cond iter abstract body) =
    ok (iteration_e init cond iter abstract body)
ast_stmt_create_iter_e _ = abort

unfoldable mutual
  unfolding copy_var_arr ast_expr_copy_ifnotnull ast_stmt_create_sel ast_stmt_create_iter_e

  pub ast_stmt_copy : AstStmt → Run AstStmt
  ast_stmt_copy nop = ok nop
  ast_stmt_copy (labelled label s) = do ok (labelled label (← ast_stmt_copy s))
  ast_stmt_copy (compound b) = do ok (compound (← ast_block_copy b))
  ast_stmt_copy (compound_v b) = do ok (compound_v (← ast_block_copy b))
  ast_stmt_copy (expression e) = do ok (expression (← ast_expr_copy e))
  ast_stmt_copy (selection isswitch cond body n) = do
    cond' ← ast_expr_copy cond
    body' ← ast_stmt_copy body
    n' ← nest_copy n
    ast_stmt_create_sel isswitch cond' body' n'
  ast_stmt_copy (iteration init cond iter abstract body) = do
    init' ← ast_stmt_copy init
    cond' ← ast_stmt_copy cond
    iter' ← ast_expr_copy iter
    abstract' ← ast_block_copy abstract
    body' ← ast_stmt_copy body
    ok (iteration init' cond' iter' abstract' body')
  -- `ast_stmt_copy_iter`: the statement is copied as an iteration.
  ast_stmt_copy (iteration_e init cond iter abstract body) = do
    init' ← ast_stmt_copy init
    cond' ← ast_stmt_copy cond
    iter' ← ast_expr_copy iter
    abstract' ← ast_block_copy abstract
    body' ← ast_stmt_copy body
    ast_stmt_create_iter_e (iteration init' cond' iter' abstract' body')
  ast_stmt_copy (jump rv) = do ok (jump (← ast_expr_copy_ifnotnull rv))

  pub nest_copy : NestedStmt → Run NestedStmt
  nest_copy no_nest = ok no_nest
  nest_copy (nest s) = do ok (nest (← ast_stmt_copy s))

  pub ast_block_copy : AstBlock → Run AstBlock
  ast_block_copy (block decls stmts) = do
    decls' ← copy_var_arr decls
    stmts' ← copy_stmt_arr stmts
    ok (block decls' stmts')

  pub copy_stmt_arr : Stmts → Run Stmts
  copy_stmt_arr no_stmts = ok no_stmts
  copy_stmt_arr (stmt s ss) = do ok (stmt (← ast_stmt_copy s) (← copy_stmt_arr ss))

unfoldable mutual
  pub ast_stmt_getfuncs : AstStmt → Run StringArr
  ast_stmt_getfuncs nop = ok string_arr_create
  ast_stmt_getfuncs (labelled label s) = ast_stmt_getfuncs s
  ast_stmt_getfuncs (compound b) = ast_stmt_compound_getfuncs b
  ast_stmt_getfuncs (compound_v b) = ast_stmt_compound_getfuncs b
  ast_stmt_getfuncs (expression e) = ast_expr_getfuncs e
  ast_stmt_getfuncs (selection isswitch cond body n) = do
    cond_arr ← ast_expr_getfuncs cond
    body_arr ← ast_stmt_getfuncs body
    nest_arr ← nest_getfuncs n
    ok (
        string_arr_concat string_arr_create
          (string_arr_concat cond_arr (string_arr_concat body_arr nest_arr)))
  ast_stmt_getfuncs (iteration init cond iter abstract body) = do
    init_arr ← ast_stmt_getfuncs init
    cond_arr ← ast_stmt_getfuncs cond
    body_arr ← ast_stmt_getfuncs body
    iter_arr ← ast_expr_getfuncs iter
    ok (
        string_arr_concat string_arr_create (
          string_arr_concat (string_arr_concat init_arr cond_arr)
            (string_arr_concat body_arr iter_arr)))
  ast_stmt_getfuncs (iteration_e init cond iter abstract body) = do
    init_arr ← ast_stmt_getfuncs init
    cond_arr ← ast_stmt_getfuncs cond
    body_arr ← ast_stmt_getfuncs body
    iter_arr ← ast_expr_getfuncs iter
    ok (
        string_arr_concat string_arr_create (
          string_arr_concat (string_arr_concat init_arr cond_arr)
            (string_arr_concat body_arr iter_arr)))
  ast_stmt_getfuncs (jump none) = abort
  ast_stmt_getfuncs (jump (some rv)) = ast_expr_getfuncs rv

  pub nest_getfuncs : NestedStmt → Run StringArr
  nest_getfuncs no_nest = ok string_arr_create
  nest_getfuncs (nest s) = ast_stmt_getfuncs s

  pub ast_stmt_compound_getfuncs : AstBlock → Run StringArr
  ast_stmt_compound_getfuncs (block decls stmts) = stmts_getfuncs string_arr_create stmts

  -- The loop, from what is collected so far.
  pub stmts_getfuncs : StringArr → Stmts → Run StringArr
  stmts_getfuncs res no_stmts = ok res
  stmts_getfuncs res (stmt s ss) = do
    more ← ast_stmt_getfuncs s
    stmts_getfuncs (string_arr_concat res more) ss

unfoldable pub ast_stmt_ispre : AstStmt → Bool
ast_stmt_ispre (labelled label s) = str_eq label (codes "setup")
ast_stmt_ispre _ = false

unfoldable pub ast_stmt_isassume : AstStmt → Bool
ast_stmt_isassume (labelled label s) = str_eq label (codes "assume")
ast_stmt_isassume _ = false

unfoldable pub ast_stmt_labelled_stmt : AstStmt → Run AstStmt
ast_stmt_labelled_stmt (labelled label s) = ok s
ast_stmt_labelled_stmt _ = abort

unfoldable pub ast_stmt_as_expr : AstStmt → Run Expr
ast_stmt_as_expr (expression e) = ok e
ast_stmt_as_expr _ = abort
