-- ===== src/Verify/Exec/Ranges.antt =====
-- Assertions over a range, which src/ast/stmt/verify.c verifies for an iteration.
use xr.Prelude.{
  ◌≡◌, refl, Bool, true, false, Option, none, Run, ok, abort, ◌>>=◌, if◌then◌else◌, bind-eq-ok,
  ok_pair_injective, sym,
}
use xr.Prelude.Str.{Str}
use xr.Ast.Expr
use xr.Ast.Expr.{UnaryOp, Expr}
use xr.Ast.Stmts.{AstStmt}
use xr.State.Machine.{State}
use xr.Verify.Results.{Err}
use xr.Verify.Results.{Result}
use xr.Verify.Decide.{
  ast_expr_binary_e1, ast_expr_dereferenced, known_offset, expr_isdeallocand_rangedecide,
  ast_expr_rangedecide,
}
use xr.Verify.Exec.{iter_empty, iter_range, verify_range, stmt_iter_verify}

nothing_after {ℓ} : {A : Type ℓ} (r : Run (Unit {0})) → Path (Run A) (r >>= λ _. abort) abort
nothing_after abort = refl
nothing_after (ok x) = refl

isdeallocand_aborts :
    (acc lw up : Expr) (s : State) → expr_isdeallocand_rangedecide acc lw up s ≡ abort
unfolding expr_isdeallocand_rangedecide known_offset ast_expr_dereferenced ast_expr_binary_e1
isdeallocand_aborts (Expr.unary op e) lw up s = nothing_after (known_offset (Expr.unary op e))
isdeallocand_aborts _ lw up s = refl

range_aborts : (e lw up : Expr) (s : State) → ast_expr_rangedecide e lw up s ≡ abort
unfolding ast_expr_rangedecide
range_aborts (Expr.unary Expr.op_bang e) lw up s = rw (range_aborts e lw up s) refl
range_aborts (Expr.isdeallocand acc) lw up s = isdeallocand_aborts acc lw up s
range_aborts _ lw up s = refl

verify_range_aborts : (range : Run (Expr × Expr × Expr)) (s : State) → verify_range range s ≡ abort
unfolding verify_range
verify_range_aborts abort s = refl
verify_range_aborts (ok (e, lw, up)) s = rw (range_aborts e lw up s) refl

-- An assertion over a range is never decided: the program stops. So the verification of an iteration
-- returns only where the iteration is empty, and then with the state that its condition leaves and
-- without an error.
pub stmt_iter_verify-iter_empty :
    (eval : Expr → State → Run (State × Result)) (position : AstStmt → Option Str)
    (init cond body : AstStmt) (s s' : State) (err : Option Err) (e lw up : Expr) (t : State)
    → stmt_iter_verify eval position init cond body s ≡ ok (s', err)
    → (iter_empty eval position init cond s ≡ ok (s', true))
      × (err ≡ none)
      × (ast_expr_rangedecide e lw up t ≡ abort)
unfolding stmt_iter_verify
stmt_iter_verify-iter_empty eval position init cond body s s' err e lw up t h =
    let ((s1, empty), runs, next) = bind-eq-ok (iter_empty eval position init cond s) _ h in
    let (is_empty, errorless) = only_empty s1 empty runs (iter_range init cond body) next in
    (is_empty, errorless, range_aborts e lw up t)
  where
    absurd_of :
        {r : Run (State × Option Err)} {t : State × Option Err} {A : Type 0}
        → r ≡ abort
        → r ≡ ok t
        → A
    absurd_of e h = cc

    only_empty :
        (s1 : State) (empty : Bool)
        → iter_empty eval position init cond s ≡ ok (s1, empty)
        → (range : Run (Expr × Expr × Expr))
        → (if empty then ok (s1, none) else verify_range range s1) ≡ ok (s', err)
        → (iter_empty eval position init cond s ≡ ok (s', true)) × (err ≡ none)
    only_empty s1 true runs range next =
        let (same, no_error) = ok_pair_injective next in (rw same at runs, sym no_error)
    only_empty s1 false runs range next = absurd_of (verify_range_aborts range s1) next
