-- ===== src/Value/Objects/Print.antt =====
-- The texts of locations, `location_str` of src/state/location.c, and of values, `value_str` and
-- `value_to_expr` of src/value/value.c, which makes an expression of a value.
use xr.Prelude.{ℕ, Option, none, some, ◌++◌, Run, ok, abort, ◌>>=◌, if◌then◌else◌}
use xr.Prelude.Str.{Str, codes, decimal}
use xr.Ast.Expr.{Expr, identifier, ast_expr_copy}
use xr.Ast.Expr.Print.{ast_expr_str}
use xr.Value.Number.{number_to_expr}
use xr.Value.Number.Print.{number_str}
use xr.Value.Objects.{
  Value, value_ptr, value_ptr_indefinite, value_int, value_sync, value_literal, value_struct,
  value_as_sync, value_as_literal,
}
use xr.State.Location.{
  LocationType, Location, location_static, location_vconst, location_dereferencable,
  location_automatic, location_dynamic, offsetzero,
}

-- A frame that is not set is read outside the contents of a location.
unfoldable pub memory_str : LocationType → Option ℕ → Run Str
memory_str location_static frame = ok (codes "static:")
memory_str location_automatic none = abort
memory_str location_automatic (some frame) = ok (codes "stack[" ++ (decimal frame ++ codes "]:"))
memory_str location_dynamic frame = ok (codes "heap:")
memory_str location_dereferencable frame = ok (codes "clump:")
memory_str location_vconst frame = abort

unfoldable pub location_str : Location → Run Str
unfolding memory_str
location_str loc = do
  memory ← memory_str loc.type loc.frame
  zero ← offsetzero loc
  if zero then ok (memory ++ decimal loc.block) else (do
    offset ← ast_expr_str loc.offset
    ok (memory ++ (decimal loc.block ++ (codes "+" ++ offset))))

-- A NULL location is read.
unfoldable pub ptr_str : Option Location → Run Str
unfolding location_str
ptr_str none = abort
ptr_str (some loc) = do ok (codes "ptr:" ++ (← location_str loc))

-- `value_to_expr`, which nothing asks for the text of a structure.
unfoldable pub value_to_expr : Value → Run Expr
unfolding ptr_str number_str
value_to_expr (value_ptr loc) = do ok (identifier (← ptr_str loc))
value_to_expr (value_ptr_indefinite n) = do ok (identifier (codes "ptr:" ++ (← number_str n)))
value_to_expr (value_literal s) = do e ← value_as_literal (value_literal s); ast_expr_copy e
value_to_expr (value_sync n) = do e ← value_as_sync (value_sync n); ast_expr_copy e
value_to_expr (value_int n) = number_to_expr n
value_to_expr (value_struct ms m) = abort
