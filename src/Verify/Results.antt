-- ===== src/Verify/Results.antt =====
-- `struct result`, `struct lvalue` and `struct preresult` of src/ast/ast.c, `struct decision` of
-- src/include/ast.h, and the objects of a state that lvalues are.
use xr.Prelude.{
  Bool, true, false, Option, none, some, List, [], ◌∷◌, Run, ok, abort, ◌>>=◌, get_elem?, set,
}
use xr.Prelude.Str.{Str}
use xr.Util.Error.{error_printf}
use xr.Ast.Types.{AstType}
use xr.Value.Objects.{Value, Object, value_struct, assigned, fields_get, fields_set, object_assign}
use xr.State.Machine.{State, state_getblock, put_block}
use xr.State.Machine.Access.{Place}
use xr.Util.Error.{Error}
use xr.Ast.Expr.{Expr}

abbrev pub Err : Type 0
Err = Error Expr

-- `struct preresult` of src/ast/ast.c.
pub record Preresult : Type 0 where
  pub err : Option Err
  pub iscontradiction : Bool

unfoldable pub preresult_iserror : Preresult → Bool
preresult_iserror r = elim r.err [ none ↦ false | some e ↦ true ]

unfoldable pub preresult_iscontradiction : Preresult → Bool
preresult_iscontradiction r = r.iscontradiction

-- The error with the text, around no other.
abbrev pub message : Str → Err
message s = error_printf s []

-- `struct result`: an error, or a value that may be NULL.
pub data Result : Type 0 where
  error_result : Err → Result
  value_result : Option Value → Result

unfoldable pub result_error_create : Err → Result
result_error_create err = error_result err

unfoldable pub result_value_create : Option Value → Result
result_value_create val = value_result val

unfoldable pub result_iserror : Result → Bool
result_iserror (error_result err) = true
result_iserror (value_result val) = false

-- The value of a result that must be one, and not NULL.
unfoldable pub result_as_value : Result → Run Value
result_as_value (value_result (some v)) = ok v
result_as_value _ = abort

-- A pointer to an object: the object of a block, or a member of the structure that it holds, and so on
-- inwards.
pub record Spot : Type 0 where
  pub place : Place
  pub fields : List Str

unfoldable pub spot_of : Place → Spot
spot_of p = record { place = p; fields = [] }

-- The object that the members lead to.
unfoldable pub member_in : Object → List Str → Run Object
member_in obj [] = ok obj
member_in (assigned offset (value_struct ms m)) (x ∷ xs) = elim (fields_get m x) [
  | none ↦ abort
  | some obj ↦ member_in obj xs
]
member_in _ (x ∷ xs) = abort

-- The object with another in the place that the members lead to.
unfoldable pub put_member : Object → List Str → Object → Run Object
put_member obj [] new = ok new
put_member (assigned offset (value_struct ms m)) (x ∷ xs) new = elim (fields_get m x) [
  | none ↦ abort
  | some obj ↦ do
    obj' ← put_member obj xs new
    ok (assigned offset (value_struct ms (fields_set m x obj')))
]
put_member _ (x ∷ xs) new = abort

unfoldable pub block_object : Option (List Object) → Place → Run (List Object × Object)
block_object none p = abort
block_object (some b) p = elim (get_elem? b p.index) [ none ↦ abort | some obj ↦ ok (b, obj) ]

unfoldable pub read_object : State → Spot → Run Object
unfolding state_getblock block_object member_in
read_object s p = do
  found ← state_getblock s p.place.loc
  (b, obj) ← block_object found p.place
  member_in obj p.fields

unfoldable pub write_object : State → Spot → Object → Run State
unfolding state_getblock block_object put_member put_block
write_object s p new = do
  found ← state_getblock s p.place.loc
  (b, obj) ← block_object found p.place
  obj' ← put_member obj p.fields new
  ok (put_block s p.place.loc (set b p.place.index obj'))

-- `object_assign` through a pointer to the object.
unfoldable pub assign_object : State → Spot → Option Value → Run State
unfolding read_object write_object object_assign
assign_object s p val = do
  obj ← read_object s p
  obj' ← object_assign obj val
  write_object s p obj'

-- `struct lvalue`, in which the object may be NULL.
pub record Lvalue : Type 0 where
  pub t : AstType
  pub obj : Option Spot

-- `struct lvalue_res`
pub record LvalueRes : Type 0 where
  pub lval : Option Lvalue
  pub err : Option Err

-- `lvalue_object` and `lvalue_type` read their argument, which must not be NULL.
unfoldable pub lvalue_object : Option Lvalue → Run (Option Spot)
lvalue_object none = abort
lvalue_object (some l) = ok l.obj

unfoldable pub lvalue_type : Option Lvalue → Run AstType
lvalue_type none = abort
lvalue_type (some l) = ok l.t

-- `struct decision`
pub record Decision : Type 0 where
  pub decision : Bool
  pub err : Option Err

unfoldable pub preresult_empty_create : Preresult
preresult_empty_create = record { err = none; iscontradiction = false }

unfoldable pub preresult_contradiction_create : Preresult
preresult_contradiction_create = record { err = none; iscontradiction = true }
