-- ===== src/Value/Objects/Members.antt =====
-- The members of structures: src/value/value.c.
use xr.Prelude.{Option, none, some, Run, ok, abort, ◌>>=◌, if◌then◌else◌}
use xr.Prelude.Int.{pos}
use xr.Prelude.Str.{Str, str_eq}
use xr.Ast.Expr.{Expr, ast_expr_copy, structmember, ast_expr_constant_create}
use xr.Ast.Types.{
  AstType, VariableArr, no_variables, variable, ast_variable_arr_copy, ast_type_struct_members,
}
use xr.Ast.Functions.{Externals, ast_type_struct_complete}
use xr.Value.Objects.{
  Value, Object, Fields, value_struct, no_fields, fields_get, fields_set, value_copy, value_issync,
  value_sync_create, object_value_create, object_as_value, object_assign,
}

-- The loop of `frommembers`, from the map so far.
unfoldable pub frommembers : Fields → VariableArr → Fields
unfolding object_value_create
frommembers m no_variables = m
frommembers m (variable name t arr) =
    frommembers (fields_set m name (object_value_create (ast_expr_constant_create (pos 0)) none))
      arr

-- Members that are NULL are read by their copying.
unfoldable pub value_struct_create : AstType → Run Value
unfolding frommembers
value_struct_create t = do
  ms ← ast_type_struct_members t
  elim ms [
    | none ↦ abort
    | some arr ↦ do
      members ← ast_variable_arr_copy arr
      ok (value_struct members (frommembers no_fields members))
  ]

-- The loop; `none` is NULL.
unfoldable pub membertype_from : VariableArr → Str → Option AstType
membertype_from no_variables member = none
membertype_from (variable name t arr) member =
    let rest = membertype_from arr member in if str_eq member name then some t else rest

unfoldable pub value_struct_membertype : Value → Str → Run (Option AstType)
unfolding membertype_from
value_struct_membertype (value_struct ms m) member = ok (membertype_from ms member)
value_struct_membertype _ member = abort

unfoldable pub value_struct_member : Value → Str → Run (Option Object)
value_struct_member (value_struct ms m) member = ok (fields_get m member)
value_struct_member _ member = abort

-- The body of the loop of `value_pf_augment` for one member: the object afterwards.
unfoldable pub augmented : Expr → Str → Object → Run Object
unfolding object_assign value_issync value_sync_create
augmented root name obj = do
  v ← object_as_value obj
  elim v [
    | none ↦ ok obj
    | some w ↦
        if value_issync w
        then (do
          e ← ast_expr_copy root
          object_assign obj (some (value_sync_create (structmember e name))))
        else ok obj
  ]

-- The loop; a member that is not in the map is read through NULL.
unfoldable pub augment_each : Expr → VariableArr → Fields → Run Fields
unfolding augmented
augment_each root no_variables m = ok m
augment_each root (variable name t arr) m = elim (fields_get m name) [
  | none ↦ abort
  | some obj ↦ do obj' ← augmented root name obj; augment_each root arr (fields_set m name obj')
]

unfoldable pub augment_struct : Expr → Value → Run Value
unfolding augment_each
augment_struct root (value_struct ms m) = do ok (value_struct ms (← augment_each root ms m))
augment_struct root _ = abort

unfoldable pub value_pf_augment : Value → Expr → Run Value
unfolding augment_struct
value_pf_augment (value_struct ms m) root = do
  v ← value_copy (value_struct ms m)
  augment_struct root v
value_pf_augment _ root = abort

-- `getorcreatestruct`: the object afterwards, and its value.
unfoldable pub getorcreatestruct : Object → AstType → Externals → Run (Object × Value)
unfolding value_struct_create object_assign
getorcreatestruct obj t ext = do
  v ← object_as_value obj
  elim v [
    | some w ↦ ok (obj, w)
    | none ↦ do
      complete ← ast_type_struct_complete t ext
      elim complete [
        | none ↦ abort
        | some t' ↦ do w ← value_struct_create t'; obj' ← object_assign obj (some w); ok (obj', w)
      ]
  ]

unfoldable pub object_getmember : Object → AstType → Str → Externals → Run (Object × Option Object)
unfolding getorcreatestruct value_struct_member
object_getmember obj t member ext = do
  (obj', v) ← getorcreatestruct obj t ext
  found ← value_struct_member v member
  ok (obj', found)

unfoldable pub object_getmembertype :
    Object → AstType → Str → Externals → Run (Object × Option AstType)
unfolding getorcreatestruct value_struct_membertype
object_getmembertype obj t member ext = do
  (obj', v) ← getorcreatestruct obj t ext
  found ← value_struct_membertype v member
  ok (obj', found)
