-- ===== src/Props.antt =====
-- `struct props` of src/props/props.c: the conditions that a state takes to hold.
pub mod Laws
pub mod Install
use xr.Prelude.{
  Bool, true, false, not, ◌||◌, List, [], ◌∷◌, ◌++◌, if◌then◌else◌, Run, ok, abort, ◌>>=◌, ◌>>◌,
  assert,
}
use xr.Math.{and_run}
use xr.Ast.Expr.{Expr, ast_expr_copy, ast_expr_inverted_copy, ast_expr_isnot, ast_expr_equal}

abbrev pub Props : Type 0
Props = List Expr

-- C's `||`: the right side runs only if the left side is false.
abbrev pub or_run : Run Bool → Run Bool → Run Bool
or_run a b = a >>= λ x. if x then ok true else b

unfoldable pub props_create : Props
props_create = []

unfoldable pub props_contradicts_actual : Props → Expr → Expr → Run Bool
props_contradicts_actual [] p1 not_p1 = ok false
props_contradicts_actual (p2 ∷ p) p1 not_p1 =
    let rest = props_contradicts_actual p p1 not_p1 in
    do
      not_p2 ← ast_expr_inverted_copy p2 true
      contra ← or_run (ast_expr_equal p1 not_p2) (ast_expr_equal not_p1 p2)
      if contra then ok true else rest

unfoldable pub props_contradicts : Props → Expr → Run Bool
unfolding props_contradicts_actual
props_contradicts p p1 = do
  not_p1 ← ast_expr_inverted_copy p1 true
  props_contradicts_actual p p1 not_p1

unfoldable pub props_install : Props → Expr → Run Props
props_install p e = do contra ← props_contradicts p e; assert (not contra); ok (p ++ e ∷ [])

-- The loop of `props_get`.
unfoldable pub props_find : Props → Expr → Run Bool
props_find [] e = ok false
props_find (p2 ∷ p) e = let rest = props_find p e in or_run (ast_expr_equal e p2) rest

unfoldable pub props_get : Props → Expr → Run Bool
unfolding props_find
props_get p e = if ast_expr_isnot e then (do ok (not (← props_contradicts p e))) else props_find p e

-- The loop of `props_copy`.
unfoldable pub props_copy_each : Props → Props → Run Props
props_copy_each new [] = ok new
props_copy_each new (e ∷ old) = do
  copy ← ast_expr_copy e
  new' ← props_install new copy
  props_copy_each new' old

unfoldable pub props_copy : Props → Run Props
unfolding props_copy_each props_create
props_copy old = props_copy_each props_create old
