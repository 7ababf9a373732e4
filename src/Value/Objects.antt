-- ===== src/Value/Objects.antt =====
-- Values and the objects that hold them: `struct value` of src/value/value.c, `struct object` and
-- `struct range` of src/object/object.c.
pub mod Arrays
pub mod Copy
pub mod Extents
pub mod Members
pub mod Print
use xr.Prelude.{
  Bool, true, false, Option, none, some, [], ◌∷◌, Run, ok, abort, ◌>>=◌, ◌>>◌, assert,
  if◌then◌else◌,
}
use xr.Prelude.Int.{ℤ, pos}
use xr.Prelude.Str.{Str, str_eq}
use xr.Util.Map.{Map, entry, map_get, map_set}
use xr.Ast.Expr.{Expr, ast_expr_copy, structmember, string_literal, ast_expr_constant_create}
use xr.Ast.Types.{
  AstType, VariableArr, no_variables, variable, ast_variable_arr_copy, ast_type_struct_members,
}
use xr.Value.Number.{
  Number, number_copy, number_single_create, number_ne_create, number_with_range_create,
  number_indefinite_create, number_computed_create, number_issync, number_as_sync, number_equal,
  number_isconstant, number_as_constant, number_assume, number_range_lw, number_range_up,
}
use xr.State.Location.{Location, location_copy}

-- The size is `none` where the code keeps a pointer to an expression that it has freed.
pub record Range : Type 0 where
  pub size : Option Expr
  pub loc : Location

-- `struct value`, with a constructor for each kind, in which a location may be NULL; `struct
-- object` with its offset and, of a value object, a value that may be NULL; and the map of the
-- objects of a structure's members, as the entries of `struct map`.
mutual
  pub data Value : Type 0 where
    value_ptr : Option Location → Value
    value_ptr_indefinite : Number → Value
    value_int : Number → Value
    value_sync : Number → Value
    value_literal : Str → Value
    value_struct : VariableArr → Fields → Value

  pub data Object : Type 0 where
    unassigned : Expr → Object
    assigned : Expr → Value → Object
    deallocand_range : Expr → Range → Object

  pub data Fields : Type 0 where
    no_fields : Fields
    field : Str → Object → Fields → Fields

abbrev pub as_map : Fields → Map Object
as_map no_fields = []
as_map (field k obj m) = entry k obj ∷ as_map m

abbrev pub of_map : Map Object → Fields
of_map [] = no_fields
of_map (e ∷ m) = field e.key e.value (of_map m)

abbrev pub fields_get : Fields → Str → Option Object
fields_get m k = map_get (as_map m) k

abbrev pub fields_set : Fields → Str → Object → Fields
fields_set m k obj = of_map (map_set (as_map m) k obj)

unfoldable pub value_ptr_create : Option Location → Value
value_ptr_create loc = value_ptr loc

unfoldable pub value_ptr_indefinite_create : Value
value_ptr_indefinite_create = value_ptr_indefinite number_indefinite_create

unfoldable pub value_int_create : ℤ → Run Value
value_int_create val = do ok (value_int (← number_single_create val))

unfoldable pub value_int_ne_create : ℤ → Run Value
value_int_ne_create not_val = do ok (value_int (← number_ne_create not_val))

unfoldable pub value_int_range_create : ℤ → ℤ → Value
value_int_range_create lw excl_up = value_int (number_with_range_create lw excl_up)

unfoldable pub value_int_indefinite_create : Value
value_int_indefinite_create = value_int number_indefinite_create

unfoldable pub value_literal_create : Str → Value
value_literal_create lit = value_literal lit

unfoldable pub value_sync_create : Expr → Value
unfolding number_computed_create
value_sync_create e = value_sync (number_computed_create e)

unfoldable pub object_value_create : Expr → Option Value → Object
object_value_create offset none = unassigned offset
object_value_create offset (some v) = assigned offset v

unfoldable pub range_create : Expr → Location → Range
range_create size loc = record { size = some size; loc = loc }

-- A size that has been freed is read.
unfoldable pub range_size : Range → Run Expr
range_size r = elim r.size [ none ↦ abort | some size ↦ ok size ]

unfoldable pub range_copy : Range → Run Range
unfolding range_create range_size
range_copy r = do
  size ← range_size r
  size' ← ast_expr_copy size
  loc ← location_copy r.loc
  ok (range_create size' loc)

unfoldable pub object_range_create : Expr → Range → Object
object_range_create offset r = deallocand_range offset r

-- A NULL location is read by its copying.
unfoldable mutual
  unfolding value_literal_create range_copy

  pub value_copy : Value → Run Value
  value_copy (value_ptr none) = abort
  value_copy (value_ptr (some loc)) = do ok (value_ptr (some (← location_copy loc)))
  value_copy (value_ptr_indefinite n) = do ok (value_ptr_indefinite (← number_copy n))
  value_copy (value_int n) = do ok (value_int (← number_copy n))
  value_copy (value_sync n) = do ok (value_sync (← number_copy n))
  value_copy (value_literal s) = ok (value_literal_create s)
  value_copy (value_struct ms m) = do
    ms' ← ast_variable_arr_copy ms
    m' ← copymembers no_fields m
    ok (value_struct ms' m')

  -- The loop, from what is copied so far.
  pub copymembers : Fields → Fields → Run Fields
  copymembers new no_fields = ok new
  copymembers new (field k obj m) = do copy ← object_copy obj; copymembers (fields_set new k copy) m

  pub object_copy : Object → Run Object
  object_copy (unassigned offset) = do ok (unassigned (← ast_expr_copy offset))
  object_copy (assigned offset v) = do
    offset' ← ast_expr_copy offset
    ok (assigned offset' (← value_copy v))
  object_copy (deallocand_range offset r) = do
    offset' ← ast_expr_copy offset
    ok (deallocand_range offset' (← range_copy r))

unfoldable pub object_isvalue : Object → Bool
object_isvalue (deallocand_range offset r) = false
object_isvalue _ = true

unfoldable pub object_hasvalue : Object → Bool
object_hasvalue (assigned offset v) = true
object_hasvalue _ = false

unfoldable pub object_as_value : Object → Run (Option Value)
object_as_value (unassigned offset) = ok none
object_as_value (assigned offset v) = ok (some v)
object_as_value (deallocand_range offset r) = abort

-- The object with the value, which may be NULL.
unfoldable pub object_assign : Object → Option Value → Run Object
unfolding object_value_create
object_assign (unassigned offset) val = ok (object_value_create offset val)
object_assign (assigned offset v) val = ok (object_value_create offset val)
object_assign (deallocand_range offset r) val = abort

unfoldable pub value_islocation : Value → Bool
value_islocation (value_ptr loc) = true
value_islocation _ = false

unfoldable pub value_as_location : Value → Run (Option Location)
value_as_location (value_ptr loc) = ok loc
value_as_location _ = abort

unfoldable pub value_isconstant : Value → Run Bool
value_isconstant (value_int n) = number_isconstant n
value_isconstant _ = ok false

unfoldable pub value_as_constant : Value → Run ℤ
value_as_constant (value_int n) = number_as_constant n
value_as_constant _ = abort

unfoldable pub value_issync : Value → Bool
unfolding number_issync
value_issync (value_sync n) = number_issync n
value_issync _ = false

unfoldable pub value_as_sync : Value → Run Expr
unfolding number_as_sync
value_as_sync (value_sync n) = number_as_sync n
value_as_sync _ = abort

unfoldable pub value_isstruct : Value → Bool
value_isstruct (value_struct ms m) = true
value_isstruct _ = false

unfoldable pub value_isliteral : Value → Bool
value_isliteral (value_literal s) = true
value_isliteral _ = false

unfoldable pub value_as_literal : Value → Run Expr
value_as_literal (value_literal s) = ok (string_literal s)
value_as_literal _ = abort

-- The kinds of the two values are the same.
unfoldable pub values_comparable : Value → Value → Bool
values_comparable (value_sync n1) (value_sync n2) = true
values_comparable (value_int n1) (value_int n2) = true
values_comparable (value_literal s1) (value_literal s2) = true
values_comparable (value_struct ms1 m1) (value_struct ms2 m2) = true
values_comparable (value_ptr l1) (value_ptr l2) = true
values_comparable (value_ptr l1) (value_ptr_indefinite n2) = true
values_comparable (value_ptr_indefinite n1) (value_ptr l2) = true
values_comparable (value_ptr_indefinite n1) (value_ptr_indefinite n2) = true
values_comparable _ _ = false

unfoldable pub value_equal : Value → Value → Run Bool
value_equal (value_literal s1) (value_literal s2) = ok (str_eq s1 s2)
value_equal (value_int n1) (value_int n2) = number_equal n1 n2
value_equal (value_sync n1) (value_sync n2) = number_equal n1 n2
value_equal _ _ = abort

-- The value afterwards, and whether the assumption is possible.
unfoldable pub value_assume : Value → Bool → Run (Value × Bool)
value_assume (value_int n) value = do r ← number_assume n value; ok (value_int r.number, r.possible)
value_assume (value_ptr_indefinite n) value = do
  r ← number_assume n value
  ok (value_ptr_indefinite r.number, r.possible)
value_assume _ value = abort

unfoldable pub value_int_lw : Value → Run ℤ
value_int_lw (value_int n) = number_range_lw n
value_int_lw _ = abort

unfoldable pub value_int_up : Value → Run ℤ
value_int_up (value_int n) = number_range_up n
value_int_up _ = abort
