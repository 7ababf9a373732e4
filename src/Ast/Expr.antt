-- ===== src/Ast/Expr.antt =====
-- Expressions: the data of src/ast/expr/expr.h and the functions of src/ast/expr/expr.c that build,
-- copy, compare and evaluate them. What the code asserts to be impossible is `abort`.
pub mod Copy
pub mod Equal
pub mod Eval
pub mod Funcs
pub mod Print
use xr.Prelude.{
  ℕ, Bool, true, false, not, ◌&&◌, List, [], ◌∷◌, if◌then◌else◌, Run, ok, abort, ◌>>=◌, ltb, ◌^◌,
  ◌%◌, ◌-◌,
}
use xr.Prelude.Int.{ℤ, pos, negsuc, pos_part, neg, ltb_ℤ, eqb_ℤ, as_int}
use xr.Prelude.Str.{Str, str_eq}
use xr.Math
use xr.Math.{MathExpr, and_run, math_eq, math_lt, math_gt, math_le, math_ge}
use xr.Util.StringArr.{StringArr, string_arr_create, string_arr_append, string_arr_concat}

pub data UnaryOp : Type 0 where
  op_address op_dereference op_positive op_negative op_ones_complement op_bang : UnaryOp

pub data BinaryOp : Type 0 where
  op_eq op_ne op_lt op_gt op_le op_ge op_addition op_subtraction : BinaryOp

pub data AllocKind : Type 0 where
  alloc dealloc clump : AllocKind

-- `struct ast_expr`, with a constructor for each kind; `Args` is the array of a call.
mutual
  pub data Expr : Type 0 where
    identifier : Str → Expr
    constant : ℤ → Bool → Expr
    string_literal : Str → Expr
    bracketed : Expr → Expr
    iteration : Expr
    call : Expr → Args → Expr
    incdec : Expr → Bool → Bool → Expr
    structmember : Expr → Str → Expr
    unary : UnaryOp → Expr → Expr
    binary : Expr → BinaryOp → Expr → Expr
    assignment : Expr → Expr → Expr
    isdeallocand isdereferencable : Expr → Expr
    arbarg : Expr
    allocation : AllocKind → Expr → Expr

  pub data Args : Type 0 where
    no_args : Args
    arg : Expr → Args → Args

unfoldable pub ast_expr_constant_create : ℤ → Expr
ast_expr_constant_create k = constant k false

-- The conversion of an `int` to the 8-bit signed `char`.
unfoldable pub to_char : ℤ → ℤ
to_char (pos n) = let r = n % 2 ^ 8 in if ltb r (2 ^ 7) then pos r else negsuc (2 ^ 8 - r - 1)
to_char (negsuc n) = let r = n % 2 ^ 8 in if ltb r (2 ^ 7) then negsuc r else pos (2 ^ 8 - r - 1)

unfoldable pub ast_expr_constant_create_char : ℤ → Expr
ast_expr_constant_create_char c = constant (to_char c) true

unfoldable mutual
  unfolding to_char

  pub ast_expr_copy : Expr → Run Expr
  ast_expr_copy (identifier s) = ok (identifier s)
  ast_expr_copy (constant k true) = ok (constant (to_char k) true)
  ast_expr_copy (constant k false) = ok (constant k false)
  ast_expr_copy (string_literal s) = ok (string_literal s)
  ast_expr_copy (bracketed e) = do ok (bracketed (← ast_expr_copy e))
  ast_expr_copy iteration = abort
  ast_expr_copy (call root args) = do
    args' ← ast_expr_copy_call args
    root' ← ast_expr_copy root
    ok (call root' args')
  ast_expr_copy (incdec e inc pre) = do ok (incdec (← ast_expr_copy e) inc pre)
  ast_expr_copy (structmember e field) = do ok (structmember (← ast_expr_copy e) field)
  ast_expr_copy (unary op e) = do ok (unary op (← ast_expr_copy e))
  ast_expr_copy (binary e1 op e2) = do ok (binary (← ast_expr_copy e1) op (← ast_expr_copy e2))
  ast_expr_copy (assignment e v) = do ok (assignment (← ast_expr_copy e) (← ast_expr_copy v))
  ast_expr_copy (isdeallocand e) = do ok (isdeallocand (← ast_expr_copy e))
  ast_expr_copy (isdereferencable e) = do ok (isdereferencable (← ast_expr_copy e))
  ast_expr_copy arbarg = ok arbarg
  ast_expr_copy (allocation k e) = do ok (allocation k (← ast_expr_copy e))

  -- The loop over the arguments.
  pub ast_expr_copy_call : Args → Run Args
  ast_expr_copy_call no_args = ok no_args
  ast_expr_copy_call (arg e es) = do ok (arg (← ast_expr_copy e) (← ast_expr_copy_call es))

unfoldable pub ast_expr_inverted_copy : Expr → Bool → Run Expr
ast_expr_inverted_copy e invert = do
  copy ← ast_expr_copy e
  ok (if invert then unary op_bang copy else copy)

unfoldable pub unary_op_eq : UnaryOp → UnaryOp → Bool
unary_op_eq op_address op_address = true
unary_op_eq op_dereference op_dereference = true
unary_op_eq op_positive op_positive = true
unary_op_eq op_negative op_negative = true
unary_op_eq op_ones_complement op_ones_complement = true
unary_op_eq op_bang op_bang = true
unary_op_eq _ _ = false

unfoldable pub binary_op_eq : BinaryOp → BinaryOp → Bool
binary_op_eq op_eq op_eq = true
binary_op_eq op_ne op_ne = true
binary_op_eq op_lt op_lt = true
binary_op_eq op_gt op_gt = true
binary_op_eq op_le op_le = true
binary_op_eq op_ge op_ge = true
binary_op_eq op_addition op_addition = true
binary_op_eq op_subtraction op_subtraction = true
binary_op_eq _ _ = false

unfoldable pub ast_expr_isnot : Expr → Bool
unfolding unary_op_eq
ast_expr_isnot (unary op e) = unary_op_eq op op_bang
ast_expr_isnot _ = false

-- The calls' numbers of arguments agree.
unfoldable pub same_nargs : Args → Args → Bool
same_nargs no_args no_args = true
same_nargs (arg e es) (arg f fs) = same_nargs es fs
same_nargs _ _ = false

unfoldable mutual
  unfolding unary_op_eq binary_op_eq same_nargs

  pub ast_expr_equal : Expr → Expr → Run Bool
  ast_expr_equal (identifier s) (identifier t) = ok (str_eq s t)
  ast_expr_equal (constant k c) (constant l d) = ok (eqb_ℤ k l)
  ast_expr_equal (string_literal s) (string_literal t) = ok (str_eq s t)
  ast_expr_equal (assignment e v) (assignment f w) =
      and_run (ast_expr_equal e f) (ast_expr_equal v w)
  ast_expr_equal (unary o e) (unary p f) = and_run (ok (unary_op_eq o p)) (ast_expr_equal e f)
  ast_expr_equal (binary a o b) (binary c p d) =
      and_run (ok (binary_op_eq o p)) (and_run (ast_expr_equal a c) (ast_expr_equal b d))
  ast_expr_equal (call e es) (call f fs) =
      and_run (ok (same_nargs es fs)) (and_run (args_equal es fs) (ast_expr_equal e f))
  ast_expr_equal (structmember e x) (structmember f y) =
      and_run (ast_expr_equal e f) (ok (str_eq x y))
  ast_expr_equal (bracketed e) (bracketed f) = abort
  ast_expr_equal iteration iteration = abort
  ast_expr_equal (incdec e i p) (incdec f j q) = abort
  ast_expr_equal (isdeallocand e) (isdeallocand f) = abort
  ast_expr_equal (isdereferencable e) (isdereferencable f) = abort
  ast_expr_equal arbarg arbarg = abort
  ast_expr_equal (allocation k e) (allocation l f) = abort
  ast_expr_equal _ _ = ok false

  -- The loop over the arguments, of which there are as many on both sides.
  pub args_equal : Args → Args → Run Bool
  args_equal (arg e es) (arg f fs) = and_run (ast_expr_equal e f) (args_equal es fs)
  args_equal _ _ = ok true

-- `math_expr` and `binary_e2`.
unfoldable pub math_expr : Expr → Run MathExpr
math_expr (identifier s) = ok (Math.atom (Math.variable s))
math_expr (constant k c) =
    if ltb_ℤ k (pos 0)
    then (do j ← as_int (neg k); ok (Math.negated (Math.atom (Math.nat (pos_part j)))))
    else ok (Math.atom (Math.nat (pos_part k)))
math_expr (binary e1 op_addition e2) = do ok (Math.sum (← math_expr e1) (← math_expr e2))
math_expr (binary e1 op_subtraction e2) = do
  ok (Math.sum (← math_expr e1) (Math.negated (← math_expr e2)))
math_expr _ = abort

unfoldable pub eval_prop : MathExpr → BinaryOp → MathExpr → Run Bool
eval_prop e1 op_eq e2 = math_eq e1 e2
eval_prop e1 op_ne e2 = do ok (not (← math_eq e1 e2))
eval_prop e1 op_lt e2 = math_lt e1 e2
eval_prop e1 op_gt e2 = math_gt e1 e2
eval_prop e1 op_le e2 = math_le e1 e2
eval_prop e1 op_ge e2 = math_ge e1 e2
eval_prop e1 op_addition e2 = abort
eval_prop e1 op_subtraction e2 = abort

unfoldable pub ast_expr_matheval : Expr → Run Bool
unfolding eval_prop
ast_expr_matheval (binary e1 op e2) = do m1 ← math_expr e1; m2 ← math_expr e2; eval_prop m1 op m2
ast_expr_matheval _ = abort

unfoldable mutual
  pub ast_expr_getfuncs : Expr → Run StringArr
  ast_expr_getfuncs (call (identifier f) args) =
      args_getfuncs (string_arr_append string_arr_create f).0 args
  ast_expr_getfuncs (call _ args) = abort
  ast_expr_getfuncs (bracketed e) = ast_expr_getfuncs e
  ast_expr_getfuncs (unary op e) = ast_expr_getfuncs e
  ast_expr_getfuncs (incdec e inc pre) = ast_expr_getfuncs e
  ast_expr_getfuncs (assignment e v) = do
    ok (string_arr_concat (← ast_expr_getfuncs e) (← ast_expr_getfuncs v))
  ast_expr_getfuncs (binary e1 op e2) = do
    ok (string_arr_concat (← ast_expr_getfuncs e1) (← ast_expr_getfuncs e2))
  ast_expr_getfuncs iteration = abort
  ast_expr_getfuncs (allocation k e) = abort
  ast_expr_getfuncs (identifier s) = ok string_arr_create
  ast_expr_getfuncs (constant k c) = ok string_arr_create
  ast_expr_getfuncs (string_literal s) = ok string_arr_create
  ast_expr_getfuncs (structmember e field) = ok string_arr_create
  ast_expr_getfuncs (isdeallocand e) = ok string_arr_create
  ast_expr_getfuncs (isdereferencable e) = ok string_arr_create
  ast_expr_getfuncs arbarg = ok string_arr_create

  -- The loop of `ast_expr_call_getfuncs` over the arguments, from what is collected so far.
  pub args_getfuncs : StringArr → Args → Run StringArr
  args_getfuncs res no_args = ok res
  args_getfuncs res (arg e es) = do
    more ← ast_expr_getfuncs e
    args_getfuncs (string_arr_concat res more) es
