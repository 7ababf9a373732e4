-- ===== src/Verify/Exec/Blocks.antt =====
-- Blocks of statements, executed by `stmt_compound_exec` and `comp_absexec` of src/ast/stmt/verify.c.
use xr.Prelude.{◌≡◌, refl, Bool, true, false, Option, none, some, Run, ok, abort, ◌>>=◌}
use xr.Prelude.Str.{Str}
use xr.Ast.Expr.{Expr}
use xr.Ast.Stmts.{AstStmt, Stmts, jump, no_stmts, stmt}
use xr.State.Machine.{State}
use xr.Verify.Results.{Result}
use xr.Verify.Reduce.Decide.{ast_stmt_isterminal}
use xr.Verify.Abstract.{Stepped, and_then}
use xr.Verify.Exec.{ast_stmt_exec, stmts_exec}

-- The statements of one sequence before those of the other.
unfoldable pub stmts_append : Stmts → Stmts → Stmts
stmts_append no_stmts ts = ts
stmts_append (stmt s ss) ts = stmt s (stmts_append ss ts)

module _ (st : AstStmt) (next next' : State → Stepped) (same : (s : State) → next s ≡ next' s) where
  after_terminal :
      (s : State) (terminal : Bool)
      → (elim terminal as (λ _. Stepped) [ true ↦ ok (s, none) | false ↦ next s ])
        ≡ (elim terminal as (λ _. Stepped) [ true ↦ ok (s, none) | false ↦ next' s ])
  after_terminal s true = refl
  after_terminal s false = same s

  after_test :
      (r : Run (State × Bool))
      → (r >>= λ x. elim x.1 as (λ _. Stepped) [ true ↦ ok (x.0, none) | false ↦ next x.0 ])
        ≡ (r >>= λ x. elim x.1 as (λ _. Stepped) [ true ↦ ok (x.0, none) | false ↦ next' x.0 ])
  after_test abort = refl
  after_test (ok (s, terminal)) = after_terminal s terminal

  after_stmt :
      (r : Stepped)
      → (r >>= λ x. and_then x λ s. ast_stmt_isterminal st s >>= λ y. elim y.1 as (λ _. Stepped) [
        | true ↦ ok (y.0, none)
        | false ↦ next y.0
      ])
        ≡ (r >>= λ x. and_then x λ s. ast_stmt_isterminal st s >>= λ y. elim y.1 as (λ _. Stepped) [
          | true ↦ ok (y.0, none)
          | false ↦ next' y.0
        ])
  unfolding and_then
  after_stmt abort = refl
  after_stmt (ok (s, some e)) = refl
  after_stmt (ok (s, none)) = after_test (ast_stmt_isterminal st s)

ended :
    (r : Stepped) (next next' : State → Stepped) (rv : Option Expr)
    → (r >>= λ x. and_then x λ s. ast_stmt_isterminal (jump rv) s >>= λ y.
        elim y.1 as (λ _. Stepped) [ true ↦ ok (y.0, none) | false ↦ next y.0 ])
      ≡ (r >>= λ x. and_then x λ s. ast_stmt_isterminal (jump rv) s >>= λ y.
          elim y.1 as (λ _. Stepped) [ true ↦ ok (y.0, none) | false ↦ next' y.0 ])
unfolding and_then ast_stmt_isterminal
ended abort next next' rv = refl
ended (ok (s, some e)) next next' rv = refl
ended (ok (s, none)) next next' rv = refl

-- What stands behind a return in a sequence of statements does not matter to its execution.
pub stmts_exec-behind_return :
    (eval : Expr → State → Run (State × Result)) (position : AstStmt → Option Str) (ss : Stmts)
    (rv : Option Expr) (ts us : Stmts) (s : State)
    → stmts_exec eval position (stmts_append ss (stmt (jump rv) ts)) s
      ≡ stmts_exec eval position (stmts_append ss (stmt (jump rv) us)) s
unfolding stmts_exec stmts_append
stmts_exec-behind_return eval position no_stmts rv ts us s =
    ended (ast_stmt_exec eval position (jump rv) s) (stmts_exec eval position ts)
      (stmts_exec eval position us) rv
stmts_exec-behind_return eval position (stmt st ss) rv ts us s =
    after_stmt st (stmts_exec eval position (stmts_append ss (stmt (jump rv) ts)))
      (stmts_exec eval position (stmts_append ss (stmt (jump rv) us)))
      (stmts_exec-behind_return eval position ss rv ts us) (ast_stmt_exec eval position st s)
