-- ===== src/Ast/Expr/Print.antt =====
-- `ast_expr_str` of src/ast/expr/expr.c: the text of an expression, which the names of locations and
-- of computed values contain. The code takes an identifier as a format; none has a `%` in it.
use xr.Prelude.{
  ℕ, suc, ◌-◌, ◌%◌, ◌^◌, ◌==◌, Bool, true, false, [], ◌∷◌, ◌++◌, Run, ok, abort, ◌>>=◌,
  if◌then◌else◌,
}
use xr.Prelude.Int.{ℤ, pos, negsuc, eqb_ℤ}
use xr.Prelude.Str.{Str, codes, decimal}
use xr.Ast.Expr.{
  UnaryOp, BinaryOp, AllocKind, Expr, Args, op_address, op_dereference, op_positive, op_negative,
  op_ones_complement, op_bang, op_eq, op_ne, op_lt, op_gt, op_le, op_ge, op_addition,
  op_subtraction, alloc, dealloc, clump, identifier, constant, string_literal, bracketed, iteration,
  call, incdec, structmember, unary, binary, assignment, isdeallocand, isdereferencable, arbarg,
  allocation, no_args, arg,
}

-- `%d`.
unfoldable pub decimal_int : ℤ → Str
decimal_int (pos n) = decimal n
decimal_int (negsuc n) = codes "-" ++ decimal (suc n)

-- The byte that `%c` prints, after the conversion to `unsigned char`.
unfoldable pub byte : ℤ → ℕ
byte (pos n) = n % 2 ^ 8
byte (negsuc n) = 2 ^ 8 - suc (n % 2 ^ 8)

-- `escape_str` of the characters that `ast_expr_constant_str_build` gives to it; any other
-- character stands for itself.
unfoldable pub char_str : ℕ → Str
char_str c =
    if c == 10
    then codes "\\n"
    else if c == 9
    then codes "\\t"
    else if c == 11
    then codes "\\v"
    else if c == 8
    then codes "\\b"
    else if c == 12
    then codes "\\f"
    else if c == 7
    then codes "\\a"
    else if c == 92
    then codes "\\\\"
    else if c == 63
    then codes "\\?"
    else if c == 39
    then codes "\\'"
    else if c == 34
    then codes "\\\""
    else if c == 0
    then codes "\\0"
    else c ∷ []

unfoldable pub ast_expr_constant_str : ℤ → Bool → Str
unfolding decimal_int byte char_str
ast_expr_constant_str k false = decimal_int k
ast_expr_constant_str k true = codes "'" ++ (char_str (byte k) ++ codes "'")

unfoldable pub unary_op_str : UnaryOp → Str
unary_op_str op_address = codes "&"
unary_op_str op_dereference = codes "*"
unary_op_str op_positive = codes "+"
unary_op_str op_negative = codes "-"
unary_op_str op_ones_complement = codes "~"
unary_op_str op_bang = codes "!"

unfoldable pub binary_op_str : BinaryOp → Str
binary_op_str op_eq = codes "=="
binary_op_str op_ne = codes "!="
binary_op_str op_lt = codes "<"
binary_op_str op_gt = codes ">"
binary_op_str op_le = codes "<="
binary_op_str op_ge = codes ">="
binary_op_str op_addition = codes "+"
binary_op_str op_subtraction = codes "-"

unfoldable pub alloc_kind_str : AllocKind → Str
alloc_kind_str alloc = codes ".malloc("
alloc_kind_str dealloc = codes ".free("
alloc_kind_str clump = codes ".clump("

unfoldable pub incdec_str : Bool → Bool → Str → Str
incdec_str inc pre root =
    let op = if inc then codes "++" else codes "--" in if pre then op ++ root else root ++ op

unfoldable pub is_constant_zero : Expr → Bool
is_constant_zero (constant k c) = eqb_ℤ k (pos 0)
is_constant_zero _ = false

-- The end of `ast_expr_member_deref_str_build`.
unfoldable pub member_deref_str : Bool → Str → Str → Str → Str
member_deref_str true left index member = left ++ (codes "->" ++ member)
member_deref_str false left index member = left ++ (codes "[" ++ (index ++ (codes "]." ++ member)))

unfoldable mutual
  unfolding ast_expr_constant_str unary_op_str binary_op_str alloc_kind_str incdec_str
      is_constant_zero member_deref_str

  pub ast_expr_str : Expr → Run Str
  ast_expr_str (identifier s) = ok s
  ast_expr_str (constant k ischar) = ok (ast_expr_constant_str k ischar)
  ast_expr_str (string_literal s) = ok (codes "\"" ++ (s ++ codes "\""))
  ast_expr_str (bracketed e) = do ok (codes "(" ++ ((← ast_expr_str e) ++ codes ")"))
  ast_expr_str iteration = abort
  ast_expr_str (call e es) = do
    root ← ast_expr_str e
    args ← args_str es
    ok (root ++ (codes "(" ++ (args ++ codes ")")))
  ast_expr_str (incdec e inc pre) = do ok (incdec_str inc pre (← ast_expr_str e))
  -- The text of the index is made only where it is shown.
  ast_expr_str (structmember (unary op_dereference (binary e1 op e2)) field) =
      let index = ast_expr_str e2 in
      do
        left ← ast_expr_str e1
        if is_constant_zero e2
            then ok (member_deref_str true left [] field)
            else (do i ← index; ok (member_deref_str false left i field))
  ast_expr_str (structmember (unary op e) field) = abort
  ast_expr_str (structmember e field) = do ok ((← ast_expr_str e) ++ (codes "." ++ field))
  ast_expr_str (unary op e) = do
    root ← ast_expr_str e
    ok (unary_op_str op ++ (codes "(" ++ (root ++ codes ")")))
  ast_expr_str (binary e1 op e2) = do
    s1 ← ast_expr_str e1
    s2 ← ast_expr_str e2
    ok (s1 ++ (binary_op_str op ++ s2))
  ast_expr_str (assignment e v) = do
    root ← ast_expr_str e
    value ← ast_expr_str v
    ok (root ++ (codes " = " ++ value))
  ast_expr_str (isdeallocand e) = do ok (codes "@" ++ (← ast_expr_str e))
  ast_expr_str (isdereferencable e) = do ok (codes "$" ++ (← ast_expr_str e))
  ast_expr_str arbarg = ok (codes "$")
  ast_expr_str (allocation k e) = do ok (alloc_kind_str k ++ ((← ast_expr_str e) ++ codes ")"))

  -- The loop of `ast_expr_call_str_build`.
  pub args_str : Args → Run Str
  args_str no_args = ok []
  args_str (arg e no_args) = ast_expr_str e
  args_str (arg e (arg f es)) = do
    a ← ast_expr_str e
    rest ← args_str (arg f es)
    ok (a ++ (codes ", " ++ rest))
