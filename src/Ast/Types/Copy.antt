-- ===== src/Ast/Types/Copy.antt =====
-- What `ast_type_copy` of src/ast/type/type.c keeps of a type.
use xr.Prelude.{Bool, true, false, ◌&&◌, ◌≡◌, refl, ap, ok, arith, pair_of_and}
use xr.Prelude.Str.{Str}
use xr.Ast.Types.{
  BasicType, type_void, type_char, type_int, AstType, Members, VariableArr, basic, pointer, array,
  structure, userdef, no_members, members, no_variables, variable, ast_variable_arr_create,
  ast_variable_arr_append, ast_type_copy, members_copy, variables_copy, ast_variable_arr_copy,
}

-- The basic types that the code copies.
unfoldable pub is_copyable_basic : BasicType → Bool
is_copyable_basic type_void = true
is_copyable_basic type_char = true
is_copyable_basic type_int = true
is_copyable_basic _ = false

unfoldable mutual
  unfolding is_copyable_basic

  pub is_copyable : AstType → Bool
  is_copyable (basic b mods) = is_copyable_basic b
  is_copyable (pointer mods t) = is_copyable t
  is_copyable (array mods t length) = is_copyable t
  is_copyable (structure mods tag ms) = are_members_copyable ms
  is_copyable (userdef mods name) = true

  pub are_members_copyable : Members → Bool
  are_members_copyable no_members = true
  are_members_copyable (members arr) = are_copyable arr

  pub are_copyable : VariableArr → Bool
  are_copyable no_variables = true
  are_copyable (variable n t arr) = is_copyable t && are_copyable arr

-- The type without the modifiers of its pointers, arrays and names of types.
unfoldable mutual
  pub unqualified : AstType → AstType
  unqualified (basic b mods) = basic b mods
  unqualified (pointer mods t) = pointer 0 (unqualified t)
  unqualified (array mods t length) = array 0 (unqualified t) length
  unqualified (structure mods tag ms) = structure mods tag (unqualified_members ms)
  unqualified (userdef mods name) = userdef 0 name

  pub unqualified_members : Members → Members
  unqualified_members no_members = no_members
  unqualified_members (members arr) = members (unqualified_arr arr)

  pub unqualified_arr : VariableArr → VariableArr
  unqualified_arr no_variables = no_variables
  unqualified_arr (variable n t arr) = variable n (unqualified t) (unqualified_arr arr)

-- The variables of one array and then those of another.
abbrev followed_by : VariableArr → VariableArr → VariableArr
followed_by no_variables arr = arr
followed_by (variable n t rest) arr = variable n t (followed_by rest arr)

append-followed_by :
    (new arr : VariableArr) (n : Str) (t : AstType)
    → followed_by (ast_variable_arr_append new n t) arr ≡ followed_by new (variable n t arr)
unfolding ast_variable_arr_append
append-followed_by no_variables arr n t = refl
append-followed_by (variable m s new) arr n t = ap (variable m s) (append-followed_by new arr n t)

followed_by-nil : (new : VariableArr) → followed_by new no_variables ≡ new
followed_by-nil no_variables = refl
followed_by-nil (variable m s new) = ap (variable m s) (followed_by-nil new)

mutual
  unfolding is_copyable unqualified ast_type_copy

  copies : (t : AstType) → is_copyable t ≡ true → ast_type_copy t ≡ ok (unqualified t)
  copies (basic type_void mods) h = refl
  copies (basic type_char mods) h = refl
  copies (basic type_int mods) h = refl
  copies (basic b mods) h = ground arith
  copies (pointer mods t) h = rw (copies t h)
  copies (array mods t length) h = rw (copies t h)
  copies (structure mods tag ms) h = rw (copies_members ms h)
  copies (userdef mods name) h = refl

  copies_members :
      (ms : Members)
      → are_members_copyable ms ≡ true
      → members_copy ms ≡ ok (unqualified_members ms)
  copies_members no_members h = refl
  copies_members (members arr) h = rw (copies_each no_variables arr h)

  copies_each :
      (new arr : VariableArr)
      → are_copyable arr ≡ true
      → variables_copy new arr ≡ ok (followed_by new (unqualified_arr arr))
  copies_each new no_variables h = rw (followed_by-nil new)
  copies_each new (variable n t arr) h =
      let (h1, h2) = pair_of_and (is_copyable t) (are_copyable arr) h in
      rw (copies t h1, copies_each (ast_variable_arr_append new n (unqualified t)) arr h2)
        (ap ok (append-followed_by new (unqualified_arr arr) n (unqualified t)))

pub type_copy_lem : (t : AstType) → is_copyable t ≡ true → ast_type_copy t ≡ ok (unqualified t)
type_copy_lem t h = copies t h

pub ast_variable_arr_copy-unqualified :
    (arr : VariableArr)
    → are_copyable arr ≡ true
    → ast_variable_arr_copy arr ≡ ok (unqualified_arr arr)
unfolding ast_variable_arr_copy ast_variable_arr_create
ast_variable_arr_copy-unqualified arr h = copies_each no_variables arr h

-- A type whose basic types are `void`, `char` and `int` is copied to the same type without the
-- modifiers of its pointers, arrays and names of types, and an array of variables of such types to
-- the array of the same names in the same order with such types.
pub ast_type_copy-unqualified :
    (t : AstType) (arr : VariableArr)
    → is_copyable t ≡ true
    → are_copyable arr ≡ true
    → (ast_type_copy t ≡ ok (unqualified t))
      × (ast_variable_arr_copy arr ≡ ok (unqualified_arr arr))
ast_type_copy-unqualified t arr h k = (copies t h, ast_variable_arr_copy-unqualified arr k)
