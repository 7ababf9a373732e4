-- ===== src/Tests/Arithmetic.antt =====
-- src/math/math.c and src/ast/expr/expr.c at concrete expressions.
use xr.Prelude.{◌≡◌, refl, ◌↔◌, Bool, true, false, arith, ok, ◌+◌}
use xr.Prelude.Int.{pos, ◌+ℤ◌, ◌≤ℤ◌, ◌<ℤ◌, as_int, as_long, to_int, neg, int_laws}
use xr.Prelude.Str.{Str, codes, str_eq}
use xr.Util.StringArr.{string_arr_contains}
use xr.Util.Map.{map_create, map_set, map_get}
use xr.Math.{
  MathExpr, atom_tally, sum_tally, neg_tally, map_sum, neg_each, math_expr_fromvartally,
  math_expr_fromint, math_expr_nullablesum, atom, nat, variable, sum, negated, Tally, tally,
  math_le, math_lt, math_eq, math_gt, math_expr_simplify,
}
use xr.Math.Meaning.{add_keys, Env, eval, IsSmall, TallyOf, occurrence_count, magnitude, variables}
use xr.Math.Tallies.{tally_lem}
use xr.Math.Simplify.{simplify-eval}
use xr.Math.Compare.{math_le-decides, math_le-unsound, math_trichotomy, same_number, origin, bit}
use xr.Ast.Expr.{
  Expr, identifier, constant, binary, unary, call, assignment, no_args, arg, op_bang, op_lt,
  op_addition, op_subtraction, ast_expr_matheval, ast_expr_equal,
}
use xr.Ast.Expr.Eval.{
  IsBounded, value, holds, identifiers, identifier_count, constant_sum, matheval-holds,
}
use xr.Ast.Expr.Equal.{plain, is_comparable, equal-decides}

abbrev x : Str
x = codes "x"

abbrev y : Str
y = codes "y"

-- x + 3 - x + x
abbrev small_sum : MathExpr
small_sum =
    sum (sum (sum (atom (variable x)) (atom (nat 3))) (negated (atom (variable x))))
      (atom (variable x))

-- x + 5
abbrev larger_sum : MathExpr
larger_sum = sum (atom (variable x)) (atom (nat 5))

small_sum-IsSmall : IsSmall small_sum
unfolding occurrence_count magnitude
small_sum-IsSmall = record { few = omega arith; light = omega arith }

larger_sum-IsSmall : IsSmall larger_sum
unfolding occurrence_count magnitude
larger_sum-IsSmall = record { few = omega arith; light = omega arith }

simplify_runs : math_expr_simplify small_sum ≡ ok (sum (atom (variable x)) (atom (nat 3)))
unfolding math_expr_simplify tally atom_tally sum_tally neg_tally map_sum neg_each map_create
    map_set map_get str_eq as_int as_long to_int neg ◌+ℤ◌ math_expr_fromvartally math_expr_fromint
    math_expr_nullablesum
simplify_runs = refl

tally_lem_example : (t : Tally) × (tally small_sum ≡ ok t) × TallyOf small_sum t
tally_lem_example = tally_lem small_sum small_sum-IsSmall

simplify-eval_example :
    (s : MathExpr) × (math_expr_simplify small_sum ≡ ok s)
    × ((ρ : Env) → eval ρ s ≡ eval ρ small_sum)
simplify-eval_example = simplify-eval small_sum small_sum-IsSmall

same_variables : same_number small_sum larger_sum ≡ true
unfolding variables string_arr_contains str_eq
same_variables = refl

two_apart : (ρ : Env) → eval ρ small_sum +ℤ pos 2 ≡ eval ρ larger_sum
unfolding eval
two_apart ρ = omega int_laws

math_le-decides_example :
    (math_le small_sum larger_sum ≡ ok true) ↔ ((ρ : Env) → eval ρ small_sum ≤ℤ eval ρ larger_sum)
math_le-decides_example =
    math_le-decides small_sum larger_sum (pos 2) small_sum-IsSmall larger_sum-IsSmall same_variables
      two_apart

math_le-unsound_example :
    (math_le (atom (variable x)) (atom (variable y)) ≡ ok true)
    × ((ρ : Env) × (eval ρ (atom (variable y)) <ℤ eval ρ (atom (variable x))))
unfolding str_eq
math_le-unsound_example = math_le-unsound x y refl

math_trichotomy_example :
    (lt eq gt : Bool) × (math_lt small_sum larger_sum ≡ ok lt)
    × (math_eq small_sum larger_sum ≡ ok eq)
    × (math_gt small_sum larger_sum ≡ ok gt)
    × (bit lt + bit eq + bit gt ≡ bit (same_number small_sum larger_sum))
math_trichotomy_example = math_trichotomy small_sum larger_sum small_sum-IsSmall larger_sum-IsSmall

-- x + 1 and x - 2
abbrev above : Expr
above = binary (identifier x) op_addition (constant (pos 1) false)

abbrev below : Expr
below = binary (identifier x) op_subtraction (constant (pos 2) false)

above-IsBounded : IsBounded above
unfolding identifier_count constant_sum
above-IsBounded = record { arithmetic = (tt, omega arith); few = omega arith; light = omega arith }

below-IsBounded : IsBounded below
unfolding identifier_count constant_sum
below-IsBounded = record { arithmetic = (tt, omega arith); few = omega arith; light = omega arith }

below-above : (ρ : Env) → value ρ below +ℤ pos 3 ≡ value ρ above
unfolding value
below-above ρ = omega int_laws

matheval-holds_example :
    ast_expr_matheval (binary below op_lt above)
    ≡ ok (holds op_lt (value origin below) (value origin above))
unfolding identifiers add_keys
matheval-holds_example =
    matheval-holds below above op_lt (pos 3) below-IsBounded above-IsBounded tt refl below-above
      origin

-- f(x, 'a') = !g(y)
abbrev calls : Expr
calls =
    assignment
      (call (identifier (codes "f")) (arg (identifier x) (arg (constant (pos b'a') true) no_args)))
      (unary op_bang (call (identifier (codes "g")) (arg (identifier y) no_args)))

equal-decides_example :
    (b : Bool) × (ast_expr_equal calls above ≡ ok b) × ((b ≡ true) ↔ (plain calls ≡ plain above))
unfolding is_comparable
equal-decides_example = equal-decides calls above refl
