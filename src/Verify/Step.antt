-- ===== src/Verify/Step.antt =====
-- One step of a state: `state_step` of src/state/state.c with `stack_step` and `program_counter_exec` of
-- src/state/stack.c. The program counter is that of the frame that was the newest before the step.
use xr.Prelude.{
  ℕ, Bool, true, false, Option, none, [], ◌∷◌, ◌==◌, Run, ok, abort, ◌>>=◌, if◌then◌else◌,
}
use xr.Prelude.Str.{Str}
use xr.Ast.Expr.{Expr}
use xr.Ast.Types.{AstVariable, VariableArr, no_variables, variable, ast_variable_create}
use xr.Ast.Stmts.{AstStmt, Stmts, no_stmts, stmt, ast_block_decls, ast_block_stmts, ast_stmt_ispre}
use xr.State.Stack.{
  ProgramCounter, at_decls, at_stmts, at_end, Stack, program_counter_nextdecl,
  program_counter_nextstmt,
}
use xr.State.Machine.{State, state_declare}
use xr.Verify.Results.{Result}
use xr.Verify.Reduce.Decide.{ast_stmt_isterminal}
use xr.Verify.Abstract.{Stepped, and_then}
use xr.Verify.Absexec.{ast_stmt_absprocess}
use xr.Verify.Exec.{ast_stmt_process}

-- Reads of the arrays at an index.
unfoldable pub decl_at : VariableArr → ℕ → Run AstVariable
unfolding ast_variable_create
decl_at no_variables i = abort
decl_at (variable name t arr) ℕ.zero = ok (ast_variable_create name t)
decl_at (variable name t arr) (ℕ.suc i) = decl_at arr i

unfoldable pub stmt_at : Stmts → ℕ → Run AstStmt
stmt_at no_stmts i = abort
stmt_at (stmt st ss) ℕ.zero = ok st
stmt_at (stmt st ss) (ℕ.suc i) = stmt_at ss i

-- The counter of the frame with the number.
unfoldable pub put_counter : Stack → ℕ → ProgramCounter → Stack
put_counter [] id pc = []
put_counter (f ∷ prev) id pc =
    let rest = put_counter prev id pc in
    if f.id == id then record f { pc = pc } ∷ prev else f ∷ rest

unfoldable pub with_counter : State → ℕ → ProgramCounter → State
unfolding put_counter
with_counter s id pc = record s { stack = put_counter s.stack id pc }

unfoldable pub declare_step : ProgramCounter → ℕ → State → Stepped
unfolding decl_at state_declare program_counter_nextdecl with_counter
declare_step pc id s = do
  var ← decl_at (ast_block_decls pc.b) pc.index
  s' ← state_declare s var false
  pc' ← program_counter_nextdecl pc
  ok (with_counter s' id pc', none)

-- `program_counter_nextstmt`.
unfoldable pub next_stmt : ProgramCounter → ℕ → AstStmt → State → Stepped
unfolding ast_stmt_isterminal program_counter_nextstmt with_counter
next_stmt pc id st s = do
  (s', terminal) ← ast_stmt_isterminal st s
  pc' ← program_counter_nextstmt pc terminal
  ok (with_counter s' id pc', none)

module _ (eval : Expr → State → Run (State × Result)) (position : AstStmt → Option Str) where
  -- In an annotation, the setup is passed over.
  unfoldable pub program_counter_stmt_process : ProgramCounter → Bool → AstStmt → State → Stepped
  unfolding ast_stmt_absprocess ast_stmt_process
  program_counter_stmt_process pc true st s =
      if ast_stmt_ispre st
      then ok (s, none)
      else ast_stmt_absprocess eval position st pc.name s true
  program_counter_stmt_process pc false st s = ast_stmt_process eval position st pc.name s

  unfoldable pub program_counter_stmt_step : ProgramCounter → ℕ → Bool → State → Stepped
  unfolding stmt_at program_counter_stmt_process next_stmt and_then
  program_counter_stmt_step pc id abstract s = do
    st ← stmt_at (ast_block_stmts pc.b) pc.index
    r ← program_counter_stmt_process pc abstract st s
    and_then r λ s'. next_stmt pc id st s'

  unfoldable pub program_counter_exec : ProgramCounter → ℕ → Bool → State → Stepped
  unfolding declare_step program_counter_stmt_step
  program_counter_exec pc id abstract s = elim pc.s [
    | at_decls ↦ declare_step pc id s
    | at_stmts ↦ program_counter_stmt_step pc id abstract s
    | at_end ↦ abort
  ]

  unfoldable pub stack_step : Stack → State → Stepped
  unfolding program_counter_exec
  stack_step [] s = abort
  stack_step (f ∷ prev) s = program_counter_exec f.pc f.id f.abstract s

  unfoldable pub state_step : State → Stepped
  unfolding stack_step
  state_step s = stack_step s.stack s
