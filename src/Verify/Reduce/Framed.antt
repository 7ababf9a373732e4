-- ===== src/Verify/Reduce/Framed.antt =====
-- The reduction of conditions, of src/ast/expr/verify.c, is the same whatever conditions a state takes
-- to hold, and leaves those as they are.
use xr.Prelude.{◌≡◌, refl, none, some, Run}
use xr.Ast.Expr.{
  BinaryOp, Expr, Args, identifier, constant, string_literal, bracketed, call, structmember, unary,
  binary, no_args, arg, ast_expr_copy,
}
use xr.Props.{Props}
use xr.Value.Objects.{Value, value_int_create}
use xr.Value.Objects.Print.{value_to_expr}
use xr.State.Machine.{State}
use xr.Verify.Results.{Result, error_result, value_result}
use xr.Verify.Reduce.{
  Operand, Operands, failed, reduced, unary_value, member_value, on_value, operand, binary_value,
  binary_second, arg_before, args_rest, call_reduced, ast_expr_pf_reduce, args_reduce,
}
use xr.Verify.Reduce.Literals.{literal_lem}
use xr.Verify.Reduce.Props.{with_props, changed, after, after_state, identifier_lem}

module _ (p : Props) where
  value_lem :
      (f : Value → Run Result) (s : State) (r : Result)
      → on_value f (with_props p s, r) ≡ changed p (on_value f (s, r))
  unfolding on_value
  value_lem f s (error_result e) = refl
  value_lem f s (value_result none) = refl
  value_lem f s (value_result (some v)) = after p (f v) _ _ λ r. refl

  second_lem :
      (reduce : State → Run (State × Result)) (op : BinaryOp) (s : State) (o : Operand)
      → ((t : State) → reduce (with_props p t) ≡ changed p (reduce t))
      → binary_second reduce op (with_props p s) o ≡ changed p (binary_second reduce op s o)
  unfolding binary_second
  second_lem reduce op s (failed r) h = refl
  second_lem reduce op s (reduced v1) h =
      rw (h s) (after_state p (reduce s) _ (value_lem λ v2. binary_value v1 op v2))

  call_lem :
      (root : Expr) (s : State) (o : Operands)
      → call_reduced root (with_props p s, o) ≡ changed p (call_reduced root (s, o))
  unfolding call_reduced
  call_lem root s (failed r) = refl
  call_lem root s (reduced args) = refl

  before_lem :
      (e : Expr) (s : State) (o : Operands)
      → arg_before e (with_props p s, o) ≡ changed p (arg_before e (s, o))
  unfolding arg_before
  before_lem e s (failed r) = refl
  before_lem e s (reduced args) = refl

  rest_lem :
      (rest : State → Run (State × Operands)) (s : State) (o : Operand)
      → ((t : State) → rest (with_props p t) ≡ changed p (rest t))
      → args_rest rest (with_props p s) o ≡ changed p (args_rest rest s o)
  unfolding args_rest
  rest_lem rest s (failed r) h = refl
  rest_lem rest s (reduced v) h = after p (value_to_expr v) _ _ λ e.
      after p (ast_expr_copy e) _ _ λ copy. rw (h s) (after_state p (rest s) _ (before_lem copy))

  mutual
    unfolding ast_expr_pf_reduce

    reduces :
        (e : Expr) (s : State)
        → ast_expr_pf_reduce e (with_props p s) ≡ changed p (ast_expr_pf_reduce e s)
    reduces (constant k ischar) s = after p (value_int_create k) _ _ λ v. refl
    reduces (string_literal lit) s = literal_lem p lit s
    reduces (identifier id) s = identifier_lem p id s
    reduces (unary op e) s =
        rw (reduces e s) (after_state p (ast_expr_pf_reduce e s) _ (value_lem (unary_value op)))
    reduces (binary e1 op e2) s = rw (reduces e1 s) (
        after_state p (ast_expr_pf_reduce e1 s) _ λ s1 r1.
          after p (operand r1) _ _ λ o1. second_lem (ast_expr_pf_reduce e2) op s1 o1 (reduces e2))
    reduces (call (identifier f) args) s =
        rw (args_reduced args s) (after_state p (args_reduce args s) _ (call_lem (identifier f)))
    reduces (call _ args) s = refl
    reduces (structmember e field) s =
        rw (reduces e s) (after_state p (ast_expr_pf_reduce e s) _ (value_lem (member_value field)))
    reduces (bracketed e) s = reduces e s
    reduces _ s = refl

    args_reduced :
        (es : Args) (s : State) → args_reduce es (with_props p s) ≡ changed p (args_reduce es s)
    args_reduced no_args s = refl
    args_reduced (arg e es) s = rw (reduces e s) (
        after_state p (ast_expr_pf_reduce e s) _
          λ s1 r. after p (operand r) _ _ λ o. rest_lem (args_reduce es) s1 o (args_reduced es))

  pub reduce_lem :
      (e : Expr) (s : State)
      → ast_expr_pf_reduce e (with_props p s) ≡ changed p (ast_expr_pf_reduce e s)
  reduce_lem e s = reduces e s
