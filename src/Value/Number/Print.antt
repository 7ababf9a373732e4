-- ===== src/Value/Number/Print.antt =====
-- `number_str` of src/value/value.c.
use xr.Prelude.{[], ◌∷◌, ◌++◌, Run, ok, ◌>>=◌, if◌then◌else◌}
use xr.Prelude.Str.{Str, codes}
use xr.Ast.Expr.Print.{decimal_int, ast_expr_str}
use xr.Value.Number.{
  NumberValue, NumberRange, RangeArr, Number, constant, limit, ranges, computed,
  number_range_issingle,
}

unfoldable pub number_value_str : NumberValue → Str
unfolding decimal_int
number_value_str (constant k) = decimal_int k
number_value_str (limit max) = if max then codes "MAX" else codes "MIN"

unfoldable pub number_range_str : NumberRange → Run Str
unfolding number_value_str
number_range_str r = do
  single ← number_range_issingle r
  ok (
      if single
      then number_value_str r.lower
      else number_value_str r.lower ++ (codes ":" ++ number_value_str r.upper))

-- The loop of `number_ranges_sprint`.
unfoldable pub ranges_str : RangeArr → Run Str
unfolding number_range_str
ranges_str [] = ok []
ranges_str (r ∷ []) = number_range_str r
ranges_str (r ∷ s ∷ rs) = do
  a ← number_range_str r
  rest ← ranges_str (s ∷ rs)
  ok (a ++ (codes ", " ++ rest))

unfoldable pub number_str : Number → Run Str
unfolding ranges_str ast_expr_str
number_str (ranges arr) = do s ← ranges_str arr; ok (codes "{" ++ (s ++ codes "}"))
number_str (computed e) = ast_expr_str e
