-- ===== src/Tests/Paths.antt =====
-- A path of src/path/path.c that splits.
use xr.Prelude.{◌≡◌, refl, true, false, none, [], Run, ok, abort, ok_injective}
use mathlib.Core.Path.{subst}
use xr.Prelude.Str.{codes, str_eq}
use xr.Prelude.Int.{◌+ℤ◌, ◌-ℤ◌, as_int}
use xr.Util.Map.{map_get, map_set, map_create}
use xr.Value.Number.{
  number_to_expr, number_range_issingle, number_single_create, number_range_arr_single_create,
}
use xr.Value.Objects.{value_int_create}
use xr.State.Static.{static_memory_create}
use xr.State.Clump.{clump_create}
use xr.State.Heap.{heap_create}
use xr.State.Block.{block_copy}
use xr.State.Location.{location_copy}
use xr.Ast.Types.{ast_type_copy}
use xr.Ast.Stmts.{ast_block_copy}
use xr.Props.{props_contradicts, props_install}
use xr.Ast.Expr.{Expr, binary, op_eq, ast_expr_copy, ast_expr_constant_create}
use xr.Ast.Expr.Copy.{is_copyable}
use xr.Ast.Expr.Equal.{is_comparable}
use xr.Ast.Functions.{AstFunction}
use xr.Path.{ExecutionPath, uninit, abstract, split, path_function, path_split}
use xr.Path.Split.{IsDecided, Reduces, path_split-IsDecided}
use xr.Tests.Machine.{short_block, int_type}
use xr.Tests.Verify.{dollar_zero, number, unknown_value, zero_value, constants_state}

abbrev main_function : AstFunction
main_function = record {
  isaxiom = false;
  ret = int_type;
  name = codes "main";
  param = [];
  abstract = short_block;
  body = none;
}

abbrev running_path : ExecutionPath
running_path = abstract main_function constants_state

abbrev comparison : Expr
comparison = binary dollar_zero op_eq (number 0)

-- The path, where there is one.
abbrev or_path : Run ExecutionPath → ExecutionPath
or_path (ok p) = p
or_path abort = uninit main_function

abbrev split_path : ExecutionPath
split_path = or_path (path_split running_path comparison)

path_split-IsDecided_example :
    (p_true : ExecutionPath) × (p_false : ExecutionPath) × (split_path
      ≡ split main_function p_true p_false)
    × IsDecided comparison true p_true
    × IsDecided comparison false p_false
unfolding is_comparable is_copyable map_get str_eq as_int ◌+ℤ◌ ◌-ℤ◌ ast_expr_copy
    ast_expr_constant_create path_split path_function number_to_expr number_range_issingle
    static_memory_create map_create clump_create block_copy ast_type_copy location_copy heap_create
    map_set value_int_create number_single_create number_range_arr_single_create ast_block_copy
    props_contradicts props_install
path_split-IsDecided_example =
    path_split-IsDecided running_path split_path constants_state dollar_zero (number 0) dollar_zero
      (number 0) op_eq unknown_value zero_value refl refl refl
      (record { comparable = refl; copyable = refl }) refl
      (λ name s e.
        subst (Reduces dollar_zero (number 0) unknown_value zero_value) (ok_injective e)
          (refl, refl, tt))
      refl
