-- ===== src/Verify/Reduce.antt =====
-- The conditions of src/ast/expr/verify.c and src/ast/stmt/verify.c: an expression is reduced to a value
-- without calling functions, and a control is decided by the conditions that the state takes to hold.
pub mod Decide
pub mod Props
pub mod Literals
pub mod Framed
use xr.Prelude.{
  Bool, true, false, not, ◌||◌, ◌&&◌, ◌==◌, Option, none, some, List, [], ◌∷◌, ◌++◌, Run, ok, abort,
  ◌>>=◌, ◌>>◌, assert, if◌then◌else◌, is_some,
}
use xr.Prelude.Int.{ℤ}
use xr.Prelude.Str.{Str, str_eq, codes}
use xr.Ast.Expr.{
  UnaryOp, BinaryOp, Expr, Args, identifier, constant, string_literal, bracketed, call,
  structmember, unary, binary, no_args, arg, ast_expr_copy,
}
use xr.Value.Objects.{
  Value, Object, value_copy, value_int_create, value_literal_create, value_sync_create,
  value_issync, value_as_sync, value_isstruct, object_as_value,
}
use xr.Value.Objects.Members.{value_struct_member}
use xr.Value.Objects.Print.{value_to_expr}
use xr.State.Machine.{State}
use xr.State.Machine.Access.{Place, state_getobject, state_static_init}
use xr.State.Machine.Values.{state_getvconst}
use xr.Verify.Results.{
  Result, message, spot_of, read_object, result_error_create, result_value_create, result_as_value,
  error_result, value_result,
}

unfoldable pub expr_constant_eval : ℤ → State → Run (State × Result)
unfolding result_value_create
expr_constant_eval k s = do v ← value_int_create k; ok (s, result_value_create (some v))

unfoldable pub expr_literal_eval : Str → State → Run (State × Result)
unfolding state_static_init result_value_create
expr_literal_eval lit s = do
  (s', v) ← state_static_init s lit
  ok (s', result_value_create (some v))

-- `strncmp(id, prefix, n) == 0` of a prefix of `n` bytes.
unfoldable pub has_prefix : Str → Str → Bool
has_prefix [] id = true
has_prefix (a ∷ p) [] = false
has_prefix (a ∷ p) (b ∷ id) = (a == b) && has_prefix p id

-- Whether the identifier is built in, so that it stands for itself.
unfoldable pub is_builtin : Str → State → Bool
unfolding state_getvconst has_prefix
is_builtin id s = is_some (state_getvconst s id) || has_prefix (codes "ptr:") id

-- A copy of what the object holds.
unfoldable pub held_value : Str → Run Object → Run Result
unfolding object_as_value value_copy result_error_create result_value_create
held_value id read = do
  obj ← read
  val ← object_as_value obj
  elim val [
    | none ↦ ok (
        result_error_create
          (message (codes "undefined memory access: `" ++ (id ++ codes "' has no value"))))
    | some v ↦ do copy ← value_copy v; ok (result_value_create (some copy))
  ]

-- From the error and the object that looking up the variable gave; the object must be there.
unfoldable pub variable_value : Str → State → Option Str → Option Place → Run Result
unfolding held_value read_object spot_of result_error_create
variable_value id s (some e) obj = ok (result_error_create (message e))
variable_value id s none none = abort
variable_value id s none (some p) = held_value id (read_object s (spot_of p))

unfoldable pub expr_identifier_eval : Str → State → Run (State × Result)
unfolding is_builtin has_prefix value_sync_create value_literal_create state_getobject
    variable_value result_value_create
expr_identifier_eval id s =
    if is_builtin id s
    then ok (s, result_value_create (some (value_sync_create (identifier id))))
    else (if has_prefix (codes "#") id
        then ok (s, result_value_create (some (value_literal_create id)))
        else (do
          (s', res) ← state_getobject s id
          r ← variable_value id s' res.err res.obj
          ok (s', r)))

abbrev pub sync_result : Expr → Result
sync_result e = result_value_create (some (value_sync_create e))

unfoldable pub unary_value : UnaryOp → Value → Run Result
unfolding value_as_sync value_sync_create result_value_create
unary_value op v = do e ← value_as_sync v; ok (sync_result (unary op e))

-- The copy of a member's value.
unfoldable pub struct_member_value : Str → Value → Run Result
unfolding value_struct_member object_as_value value_copy result_value_create
struct_member_value field v = do
  found ← value_struct_member v field
  elim found [
    | none ↦ abort
    | some obj ↦ do
      w ← object_as_value obj
      elim w [
        | none ↦ abort
        | some x ↦ do copy ← value_copy x; ok (result_value_create (some copy))
      ]
  ]

-- The value of a member, or the member of what is not known.
unfoldable pub member_value : Str → Value → Run Result
unfolding value_isstruct struct_member_value value_issync value_as_sync value_sync_create
    result_value_create
member_value field v =
    if value_isstruct v
    then struct_member_value field v
    else (do assert (value_issync v); e ← value_as_sync v; ok (sync_result (structmember e field)))

-- A value, which must be there, is turned into another; an error is kept.
unfoldable pub on_value : (Value → Run Result) → State × Result → Run (State × Result)
unfolding result_as_value
on_value f (s, error_result e) = ok (s, error_result e)
on_value f (s, value_result val) = do v ← result_as_value (value_result val); r ← f v; ok (s, r)

-- The result of reducing one operand: its value, or its error.
pub data Operand : Type 0 where
  failed : Result → Operand
  reduced : Value → Operand

unfoldable pub operand : Result → Run Operand
unfolding result_as_value
operand (error_result e) = ok (failed (error_result e))
operand (value_result v) = do val ← result_as_value (value_result v); ok (reduced val)

-- The comparison or the sum of the two values.
unfoldable pub binary_value : Value → BinaryOp → Value → Run Result
unfolding value_to_expr value_sync_create result_value_create
binary_value v1 op v2 = do
  f1 ← value_to_expr v1
  f2 ← value_to_expr v2
  ok (sync_result (binary f1 op f2))

-- The second operand is reduced by `reduce` if the first has been.
unfoldable pub binary_second :
    (State → Run (State × Result)) → BinaryOp → State → Operand → Run (State × Result)
unfolding on_value binary_value
binary_second reduce op s (failed r) = ok (s, r)
binary_second reduce op s (reduced v1) = reduce s >>= on_value λ v2. binary_value v1 op v2

-- The arguments that have been reduced, or the error of the first that could not be.
pub data Operands : Type 0 where
  failed : Result → Operands
  reduced : Args → Operands

unfoldable pub call_reduced : Expr → State × Operands → Run (State × Result)
unfolding value_sync_create result_value_create
call_reduced root (s, failed r) = ok (s, r)
call_reduced root (s, reduced args) = ok (s, sync_result (call root args))

unfoldable pub arg_before : Expr → State × Operands → Run (State × Operands)
arg_before e (s, failed r) = ok (s, failed r)
arg_before e (s, reduced es) = ok (s, reduced (arg e es))

-- The other arguments are reduced by `rest` if the first has been.
unfoldable pub args_rest :
    (State → Run (State × Operands)) → State → Operand → Run (State × Operands)
unfolding value_to_expr arg_before
args_rest rest s (failed r) = ok (s, failed r)
args_rest rest s (reduced v) = do
  e ← value_to_expr v
  copy ← ast_expr_copy e
  r ← rest s
  arg_before copy r

unfoldable mutual
  unfolding expr_constant_eval expr_literal_eval expr_identifier_eval unary_value member_value
      on_value operand binary_second call_reduced args_rest

  pub ast_expr_pf_reduce : Expr → State → Run (State × Result)
  ast_expr_pf_reduce (constant k ischar) s = expr_constant_eval k s
  ast_expr_pf_reduce (string_literal lit) s = expr_literal_eval lit s
  ast_expr_pf_reduce (identifier id) s = expr_identifier_eval id s
  ast_expr_pf_reduce (unary op e) s = ast_expr_pf_reduce e s >>= on_value (unary_value op)
  ast_expr_pf_reduce (binary e1 op e2) s = do
    (s1, res1) ← ast_expr_pf_reduce e1 s
    o1 ← operand res1
    binary_second (ast_expr_pf_reduce e2) op s1 o1
  ast_expr_pf_reduce (call (identifier f) args) s = do
    res ← args_reduce args s
    call_reduced (identifier f) res
  ast_expr_pf_reduce (structmember e field) s =
      ast_expr_pf_reduce e s >>= on_value (member_value field)
  ast_expr_pf_reduce (bracketed e) s = ast_expr_pf_reduce e s
  ast_expr_pf_reduce _ s = abort

  -- The loop of `call_pf_reduce`.
  pub args_reduce : Args → State → Run (State × Operands)
  args_reduce no_args s = ok (s, reduced no_args)
  args_reduce (arg e es) s = do
    (s1, res) ← ast_expr_pf_reduce e s
    o ← operand res
    args_rest (args_reduce es) s1 o
