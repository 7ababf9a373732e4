-- ===== src/Verify/Lvalue.antt =====
-- `ast_expr_lvalue` of src/ast/expr/verify.c: the object that an expression names.
use xr.Prelude.{
  Bool, true, false, Option, none, some, [], ◌∷◌, ◌++◌, Run, ok, abort, ◌>>=◌, if◌then◌else◌,
}
use xr.Prelude.Int.{pos}
use xr.Prelude.Str.{Str, codes}
use xr.Ast.Expr.{
  Expr, identifier, unary, binary, structmember, op_dereference, ast_expr_constant_create,
}
use xr.Ast.Expr.Print.{ast_expr_str}
use xr.Ast.Types.{AstType, ast_type_ptr_type}
use xr.Value.Objects.{object_as_value}
use xr.Value.Objects.Members.{object_getmember, object_getmembertype}
use xr.State.Machine.{State}
use xr.State.Machine.Access.{ObjectRes, Place, state_getobject, state_deref}
use xr.State.Machine.Values.{state_getobjecttype}
use xr.Verify.Results.{Err}
use xr.Verify.Results.{
  Spot, Lvalue, LvalueRes, message, spot_of, read_object, write_object, lvalue_object, lvalue_type,
}

abbrev pub lvalue_error : Err → LvalueRes
lvalue_error e = record { lval = none; err = some e }

abbrev pub no_lvalue : LvalueRes
no_lvalue = record { lval = none; err = none }

abbrev pub lvalue_create : AstType → Option Spot → LvalueRes
lvalue_create t obj = record { lval = some (record { t = t; obj = obj }); err = none }

unfoldable pub spot_if : Option Place → Option Spot
unfolding spot_of
spot_if none = none
spot_if (some p) = some (spot_of p)

-- The type is looked up if there is no error.
unfoldable pub typed : State → Str → ObjectRes → Run LvalueRes
unfolding state_getobjecttype spot_if
typed s id res = elim res.err [
  | some e ↦ ok (lvalue_error (message e))
  | none ↦ do t ← state_getobjecttype s id; ok (lvalue_create t (spot_if res.obj))
]

unfoldable pub expr_identifier_lvalue : Str → State → Run (State × LvalueRes)
unfolding state_getobject typed
expr_identifier_lvalue id s = do (s', res) ← state_getobject s id; r ← typed s' id res; ok (s', r)

-- The object that the value of the root leads to at the index. An error is returned only for a root
-- that is an identifier.
unfoldable pub deref_result : Bool → AstType → ObjectRes → LvalueRes
unfolding spot_if
deref_result reports t res = elim res.err [
  | none ↦ lvalue_create t (spot_if res.obj)
  | some e ↦ if reports then lvalue_error (message e) else no_lvalue
]

unfoldable pub deref_lvalue :
    Bool → Expr → Option Lvalue → State → Option Spot → Run (State × LvalueRes)
unfolding lvalue_type read_object object_as_value state_deref deref_result
deref_lvalue reports index root s none = ok (s, no_lvalue)
deref_lvalue reports index root s (some p) = do
  type ← lvalue_type root
  t ← ast_type_ptr_type type
  root_obj ← read_object s p
  root_val ← object_as_value root_obj
  elim root_val [
    | none ↦ abort
    | some v ↦ do (s', res) ← state_deref s v index; ok (s', deref_result reports t res)
  ]

unfoldable pub unary_lvalue : Bool → Expr → State × LvalueRes → Run (State × LvalueRes)
unfolding lvalue_object deref_lvalue
unary_lvalue reports index (s, root) = elim root.err [
  | some e ↦ ok (s, root)
  | none ↦ do obj ← lvalue_object root.lval; deref_lvalue reports index root.lval s obj
]

unfoldable pub no_field : Expr → Str → Run Err
unfolding ast_expr_str
no_field root field = do
  root_str ← ast_expr_str root
  ok (message (codes "`" ++ (root_str ++ (codes "' has no field `" ++ (field ++ codes "'")))))

-- The member of the object, which becomes a structure if it has no value yet.
unfoldable pub member_lvalue :
    Expr → Str → Option Lvalue → State → Option Spot → Run (State × LvalueRes)
unfolding lvalue_type read_object write_object object_getmember object_getmembertype no_field
member_lvalue root field lval s none = abort
member_lvalue root field lval s (some p) = do
  type ← lvalue_type lval
  root_obj ← read_object s p
  (obj', member) ← object_getmember root_obj type field s.ext
  s' ← write_object s p obj'
  elim member [
    | none ↦ do e ← no_field root field; ok (s', lvalue_error e)
    | some m ↦ do
      (obj'', found) ← object_getmembertype obj' type field s'.ext
      elim found [
        | none ↦ abort
        | some t ↦ ok (s', lvalue_create t (some (record p { fields = p.fields ++ field ∷ [] })))
      ]
  ]

unfoldable pub structmember_lvalue : Expr → Str → State × LvalueRes → Run (State × LvalueRes)
unfolding lvalue_object member_lvalue
structmember_lvalue root field (s, res) = elim res.err [
  | some e ↦ ok (s, lvalue_error e)
  | none ↦ do obj ← lvalue_object res.lval; member_lvalue root field res.lval s obj
]

unfoldable pub ast_expr_lvalue : Expr → State → Run (State × LvalueRes)
unfolding expr_identifier_lvalue unary_lvalue structmember_lvalue
ast_expr_lvalue (identifier id) s = expr_identifier_lvalue id s
ast_expr_lvalue (unary op_dereference (identifier id)) s = do
  root ← expr_identifier_lvalue id s
  unary_lvalue true (ast_expr_constant_create (pos 0)) root
ast_expr_lvalue (unary op_dereference (binary e1 op e2)) s = do
  root ← ast_expr_lvalue e1 s
  unary_lvalue false e2 root
ast_expr_lvalue (structmember root field) s = do
  res ← ast_expr_lvalue root s
  structmember_lvalue root field res
ast_expr_lvalue _ s = abort
