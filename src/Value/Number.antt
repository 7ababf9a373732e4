-- ===== src/Value/Number.antt =====
-- The abstract numbers of src/value/value.c: unions of ranges, whose upper bounds are excluded, or
-- expressions that are yet to be computed. C's `-1` on an `int` may overflow, which is `abort`.
pub mod Sets
pub mod Laws
pub mod Assume
pub mod Print
use xr.Prelude.{
  ℕ, Bool, true, false, not, ◌&&◌, List, [], ◌∷◌, ◌++◌, if◌then◌else◌, Run, ok, abort, ◌>>=◌, ◌>>◌,
  assert, ◌==◌, length,
}
use xr.Prelude.Int.{ℤ, pos, negsuc, ◌+ℤ◌, ◌-ℤ◌, leb_ℤ, eqb_ℤ, as_int}
use xr.Math.{and_run}
use xr.Props.{or_run}
use xr.Ast.Expr.{Expr, ast_expr_copy, ast_expr_equal, ast_expr_constant_create}

pub data NumberValue : Type 0 where
  constant : ℤ → NumberValue
  limit : Bool → NumberValue

pub record NumberRange : Type 0 where
  pub lower : NumberValue
  pub upper : NumberValue

abbrev pub RangeArr : Type 0
RangeArr = List NumberRange

pub data Number : Type 0 where
  ranges : RangeArr → Number
  computed : Expr → Number

unfoldable pub number_range_create : NumberValue → NumberValue → NumberRange
number_range_create lw up = record { lower = lw; upper = up }

abbrev pub number_value_min : NumberValue
number_value_min = limit false

abbrev pub number_value_max : NumberValue
number_value_max = limit true

-- [val:val+1)
unfoldable pub number_range_arr_single_create : ℤ → Run RangeArr
unfolding number_range_create
number_range_arr_single_create val = do
  next ← as_int (val +ℤ pos 1)
  ok (number_range_create (constant val) (constant next) ∷ [])

-- [MIN:val) and [val+1:MAX)
unfoldable pub number_range_arr_ne_create : ℤ → Run RangeArr
unfolding number_range_create
number_range_arr_ne_create val = do
  next ← as_int (val +ℤ pos 1)
  ok (
      number_range_create number_value_min (constant val)
      ∷ number_range_create (constant next) number_value_max
      ∷ [])

unfoldable pub number_single_create : ℤ → Run Number
number_single_create val = do ok (ranges (← number_range_arr_single_create val))

unfoldable pub number_ne_create : ℤ → Run Number
number_ne_create val = do ok (ranges (← number_range_arr_ne_create val))

unfoldable pub number_with_range_create : ℤ → ℤ → Number
unfolding number_range_create
number_with_range_create lw excl_up =
    ranges (number_range_create (constant lw) (constant excl_up) ∷ [])

unfoldable pub number_indefinite_create : Number
unfolding number_range_create
number_indefinite_create = ranges (number_range_create number_value_min number_value_max ∷ [])

unfoldable pub bool_eq : Bool → Bool → Bool
bool_eq true b = b
bool_eq false b = not b

-- The difference of two constants; the code asserts that there are no limits.
unfoldable pub number_value_difference : NumberValue → NumberValue → Run ℤ
number_value_difference (constant a) (constant b) = as_int (a -ℤ b)
number_value_difference _ _ = abort

unfoldable pub number_value_equal : NumberValue → NumberValue → Run Bool
unfolding number_value_difference bool_eq
number_value_equal (constant a) (constant b) = do
  d ← number_value_difference (constant a) (constant b)
  ok (eqb_ℤ d (pos 0))
number_value_equal (limit a) (limit b) = ok (bool_eq a b)
number_value_equal _ _ = ok false

unfoldable pub number_values_aresingle : NumberValue → NumberValue → Run Bool
unfolding bool_eq
number_values_aresingle (constant a) (constant b) = do last ← as_int (b -ℤ pos 1); ok (eqb_ℤ a last)
number_values_aresingle (limit a) (limit b) = ok (bool_eq a b)
number_values_aresingle _ _ = ok false

unfoldable pub number_value_le_constant : NumberValue → ℤ → Bool
number_value_le_constant (constant a) k = leb_ℤ a k
number_value_le_constant (limit max) k = not max

unfoldable pub constant_le_number_value : ℤ → NumberValue → Bool
constant_le_number_value k (constant a) = leb_ℤ k a
constant_le_number_value k (limit max) = max

unfoldable pub number_range_issingle : NumberRange → Run Bool
unfolding number_values_aresingle
number_range_issingle r = number_values_aresingle r.lower r.upper

unfoldable pub number_range_equal : NumberRange → NumberRange → Run Bool
number_range_equal r1 r2 =
    and_run (number_value_equal r1.lower r2.lower) (number_value_equal r1.upper r2.upper)

unfoldable pub number_range_canbe : NumberRange → Bool → Run Bool
unfolding number_value_le_constant constant_le_number_value
number_range_canbe r true = do
  empty ← number_value_equal r.lower r.upper
  ok (
      if empty
      then false
      else if number_value_le_constant r.lower (negsuc 0)
      then true
      else constant_le_number_value (pos 1) r.lower)
number_range_canbe r false =
    ok (number_value_le_constant r.lower (pos 0) && constant_le_number_value (pos 1) r.upper)

unfoldable pub number_range_arr_canbe : RangeArr → Bool → Run Bool
number_range_arr_canbe [] value = ok false
number_range_arr_canbe (r ∷ arr) value =
    let rest = number_range_arr_canbe arr value in or_run (number_range_canbe r value) rest

unfoldable pub number_range_assumed_value : Bool → Run RangeArr
unfolding number_range_arr_ne_create number_range_arr_single_create
number_range_assumed_value value =
    if value then number_range_arr_ne_create (pos 0) else number_range_arr_single_create (pos 0)

-- The number afterwards, and whether the assumption is possible.
pub record Assumed : Type 0 where
  pub number : Number
  pub possible : Bool

unfoldable pub number_assume : Number → Bool → Run Assumed
unfolding number_range_assumed_value
number_assume (ranges arr) value = do
  can ← number_range_arr_canbe arr value
  if can
      then (do
        arr' ← number_range_assumed_value value
        ok (record { number = ranges arr'; possible = true }))
      else ok (record { number = ranges arr; possible = false })
number_assume (computed e) value = abort

unfoldable pub number_isconstant : Number → Run Bool
number_isconstant (ranges (r ∷ [])) = number_range_issingle r
number_isconstant (ranges _) = ok false
number_isconstant (computed e) = abort

unfoldable pub number_value_as_constant : NumberValue → Run ℤ
number_value_as_constant (constant a) = ok a
number_value_as_constant (limit max) = abort

unfoldable pub number_range_as_constant : NumberRange → Run ℤ
unfolding number_value_as_constant
number_range_as_constant r = do
  single ← number_range_issingle r
  assert single
  number_value_as_constant r.lower

unfoldable pub number_as_constant : Number → Run ℤ
unfolding number_range_as_constant
number_as_constant (ranges (r ∷ [])) = number_range_as_constant r
number_as_constant _ = abort

unfoldable pub number_ranges_to_expr : RangeArr → Run Expr
unfolding number_range_as_constant
number_ranges_to_expr (r ∷ []) = do ok (ast_expr_constant_create (← number_range_as_constant r))
number_ranges_to_expr _ = abort

unfoldable pub number_to_expr : Number → Run Expr
unfolding number_ranges_to_expr
number_to_expr (ranges arr) = number_ranges_to_expr arr
number_to_expr (computed e) = ast_expr_copy e

unfoldable pub number_copy : Number → Run Number
number_copy (ranges arr) = ok (ranges arr)
number_copy (computed e) = do ok (computed (← ast_expr_copy e))

-- The loop over two arrays of the same length.
unfoldable pub each_range_equal : RangeArr → RangeArr → Run Bool
each_range_equal (r ∷ rs) (s ∷ ss) =
    let rest = each_range_equal rs ss in and_run (number_range_equal r s) rest
each_range_equal _ _ = ok true

unfoldable pub number_ranges_equal : RangeArr → RangeArr → Run Bool
unfolding each_range_equal
number_ranges_equal rs ss = if length rs == length ss then each_range_equal rs ss else ok false

unfoldable pub number_equal : Number → Number → Run Bool
unfolding number_ranges_equal
number_equal (ranges rs) (ranges ss) = number_ranges_equal rs ss
number_equal (computed e) (computed f) = ast_expr_equal e f
number_equal _ _ = abort

unfoldable pub number_computed_create : Expr → Number
number_computed_create e = computed e

unfoldable pub number_issync : Number → Bool
number_issync (ranges arr) = false
number_issync (computed e) = true

unfoldable pub number_as_sync : Number → Run Expr
number_as_sync (ranges arr) = abort
number_as_sync (computed e) = ok e

-- The bounds of a single range; a computed number has no array to count.
unfoldable pub number_range_lw : Number → Run ℤ
unfolding number_value_as_constant
number_range_lw (ranges (r ∷ [])) = number_value_as_constant r.lower
number_range_lw _ = abort

unfoldable pub number_range_up : Number → Run ℤ
unfolding number_value_as_constant
number_range_up (ranges (r ∷ [])) = number_value_as_constant r.upper
number_range_up _ = abort
