-- ===== src/Ast/Expr/Copy.antt =====
-- `ast_expr_copy` of src/ast/expr/expr.c.
use xr.Prelude.{◌≡◌, refl, ap, Bool, true, false, ◌&&◌, arith, ok, pair_of_and}
use xr.Prelude.Int.{ℤ, pos, negsuc, leb_ℤ}
use xr.Ast.Expr.{
  Expr, Args, constant, bracketed, iteration, call, incdec, structmember, unary, binary, assignment,
  isdeallocand, isdereferencable, allocation, no_args, arg, to_char, ast_expr_copy,
  ast_expr_copy_call,
}

-- No loop variable stands in the expression, and its character constants are characters.
unfoldable mutual
  pub is_copyable : Expr → Bool
  is_copyable (constant k true) = leb_ℤ (negsuc 127) k && leb_ℤ k (pos 127)
  is_copyable (bracketed e) = is_copyable e
  is_copyable iteration = false
  is_copyable (call e es) = is_copyable e && are_copyable es
  is_copyable (incdec e i p) = is_copyable e
  is_copyable (structmember e x) = is_copyable e
  is_copyable (unary o e) = is_copyable e
  is_copyable (binary e o f) = is_copyable e && is_copyable f
  is_copyable (assignment e f) = is_copyable e && is_copyable f
  is_copyable (isdeallocand e) = is_copyable e
  is_copyable (isdereferencable e) = is_copyable e
  is_copyable (allocation k e) = is_copyable e
  is_copyable _ = true

  pub are_copyable : Args → Bool
  are_copyable no_args = true
  are_copyable (arg e es) = is_copyable e && are_copyable es

to_char_id : (k : ℤ) → (leb_ℤ (negsuc 127) k && leb_ℤ k (pos 127)) ≡ true → to_char k ≡ k
unfolding to_char
to_char_id (pos n) h = ground arith
to_char_id (negsuc n) h = ground arith

mutual
  unfolding is_copyable ast_expr_copy

  copy_id : (e : Expr) → is_copyable e ≡ true → ast_expr_copy e ≡ ok e
  copy_id (constant k true) h = ap (λ l. ok (constant l true)) (to_char_id k h)
  copy_id (constant k false) h = refl
  copy_id (bracketed e) h = rw (copy_id e h)
  copy_id iteration h = cc
  copy_id (call e es) h =
      let (h1, h2) = pair_of_and (is_copyable e) (are_copyable es) h in
      rw (args_copy_id es h2, copy_id e h1)
  copy_id (incdec e i p) h = rw (copy_id e h)
  copy_id (structmember e x) h = rw (copy_id e h)
  copy_id (unary o e) h = rw (copy_id e h)
  copy_id (binary e o f) h =
      let (h1, h2) = pair_of_and (is_copyable e) (is_copyable f) h in
      rw (copy_id e h1, copy_id f h2)
  copy_id (assignment e f) h =
      let (h1, h2) = pair_of_and (is_copyable e) (is_copyable f) h in
      rw (copy_id e h1, copy_id f h2)
  copy_id (isdeallocand e) h = rw (copy_id e h)
  copy_id (isdereferencable e) h = rw (copy_id e h)
  copy_id (allocation k e) h = rw (copy_id e h)
  copy_id _ h = refl

  args_copy_id : (es : Args) → are_copyable es ≡ true → ast_expr_copy_call es ≡ ok es
  args_copy_id no_args h = refl
  args_copy_id (arg e es) h =
      let (h1, h2) = pair_of_and (is_copyable e) (are_copyable es) h in
      rw (copy_id e h1, args_copy_id es h2)

-- An expression without loop variables whose character constants lie in the range of `char` is
-- copied to an equal expression.
pub copy_lem : (e : Expr) → is_copyable e ≡ true → ast_expr_copy e ≡ ok e
copy_lem e h = copy_id e h
