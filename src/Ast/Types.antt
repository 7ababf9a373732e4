-- ===== src/Ast/Types.antt =====
-- Types and variables: src/ast/type/type.c and src/ast/variable.c.
pub mod Copy
use xr.Prelude.{
  ℕ, Bool, true, false, not, Option, none, some, if◌then◌else◌, ◌==◌, Run, ok, abort, ◌>>=◌, ◌>>◌,
  assert, is_some,
}
use Prim.Native.Nat.{bit_and, bit_or}
use xr.Prelude.Int.{ℤ}
use xr.Prelude.Str.{Str, str_eq}

-- The bases that have no parts of their own.
pub data BasicType : Type 0 where
  type_void type_char type_short type_int type_long type_float type_double : BasicType
  type_signed type_unsigned type_union type_enum : BasicType

-- `struct ast_type`, with a constructor for each base that has parts; the number is the set of its
-- modifiers, as bits. `Members` may be NULL, and `VariableArr` is `struct ast_variable_arr`.
mutual
  pub data AstType : Type 0 where
    basic : BasicType → ℕ → AstType
    pointer : ℕ → AstType → AstType
    array : ℕ → AstType → ℤ → AstType
    structure : ℕ → Option Str → Members → AstType
    userdef : ℕ → Str → AstType

  pub data Members : Type 0 where
    no_members : Members
    members : VariableArr → Members

  pub data VariableArr : Type 0 where
    no_variables : VariableArr
    variable : Str → AstType → VariableArr → VariableArr

pub record AstVariable : Type 0 where
  pub name : Str
  pub type : AstType

unfoldable pub ast_variable_create : Str → AstType → AstVariable
ast_variable_create name type = record { name = name; type = type }

unfoldable pub ast_variable_arr_create : VariableArr
ast_variable_arr_create = no_variables

unfoldable pub ast_variable_arr_append : VariableArr → Str → AstType → VariableArr
ast_variable_arr_append no_variables n t = variable n t no_variables
ast_variable_arr_append (variable m s arr) n t = variable m s (ast_variable_arr_append arr n t)

unfoldable pub ast_type_create_ptr : AstType → AstType
ast_type_create_ptr ref = pointer 0 ref

unfoldable pub ast_type_create_voidptr : AstType
ast_type_create_voidptr = pointer 0 (basic type_void 0)

unfoldable pub ast_type_create_arr : AstType → ℤ → AstType
ast_type_create_arr base length = array 0 base length

unfoldable pub ast_type_create_struct : Option Str → Members → AstType
ast_type_create_struct tag ms = structure 0 tag ms

unfoldable pub ast_type_create_struct_anonym : VariableArr → AstType
unfolding ast_type_create_struct
ast_type_create_struct_anonym ms = ast_type_create_struct none (members ms)

unfoldable pub ast_type_create_struct_partial : Str → AstType
unfolding ast_type_create_struct
ast_type_create_struct_partial tag = ast_type_create_struct (some tag) no_members

unfoldable pub ast_type_create_userdef : Str → AstType
ast_type_create_userdef name = userdef 0 name

-- Only the types `void`, `int` and `char` are copied among the basic ones.
unfoldable mutual
  unfolding ast_type_create_ptr ast_type_create_arr ast_type_create_userdef ast_variable_arr_create
      ast_variable_arr_append

  pub ast_type_copy : AstType → Run AstType
  ast_type_copy (pointer mods t) = do ok (ast_type_create_ptr (← ast_type_copy t))
  ast_type_copy (array mods t length) = do ok (ast_type_create_arr (← ast_type_copy t) length)
  ast_type_copy (structure mods tag ms) = do ok (structure mods tag (← members_copy ms))
  ast_type_copy (userdef mods name) = ok (ast_type_create_userdef name)
  ast_type_copy (basic type_void mods) = ok (basic type_void mods)
  ast_type_copy (basic type_int mods) = ok (basic type_int mods)
  ast_type_copy (basic type_char mods) = ok (basic type_char mods)
  ast_type_copy (basic _ mods) = abort

  -- The second half of `ast_type_copy_struct`.
  pub members_copy : Members → Run Members
  members_copy no_members = ok no_members
  members_copy (members arr) = do ok (members (← variables_copy ast_variable_arr_create arr))

  -- The loop of `ast_variable_arr_copy`.
  pub variables_copy : VariableArr → VariableArr → Run VariableArr
  variables_copy new no_variables = ok new
  variables_copy new (variable n t old) = do
    t' ← ast_type_copy t
    variables_copy (ast_variable_arr_append new n t') old

unfoldable pub ast_variable_arr_copy : VariableArr → Run VariableArr
unfolding variables_copy
ast_variable_arr_copy old = variables_copy ast_variable_arr_create old

unfoldable pub ast_variable_copy : AstVariable → Run AstVariable
unfolding ast_variable_create
ast_variable_copy v = do t ← ast_type_copy v.type; ok (ast_variable_create v.name t)

unfoldable pub ast_type_isint : AstType → Bool
ast_type_isint (basic type_int mods) = true
ast_type_isint _ = false

unfoldable pub ast_type_ispointer : AstType → Bool
ast_type_ispointer (pointer mods t) = true
ast_type_ispointer _ = false

unfoldable pub ast_type_isstruct : AstType → Bool
ast_type_isstruct (structure mods tag ms) = true
ast_type_isstruct _ = false

unfoldable pub ast_type_struct_members : AstType → Run (Option VariableArr)
ast_type_struct_members (structure mods tag no_members) = ok none
ast_type_struct_members (structure mods tag (members arr)) = ok (some arr)
ast_type_struct_members _ = abort

unfoldable pub ast_type_struct_tag : AstType → Run (Option Str)
ast_type_struct_tag (structure mods tag ms) = ok tag
ast_type_struct_tag _ = abort

unfoldable pub ast_type_ptr_type : AstType → Run AstType
ast_type_ptr_type (pointer mods t) = ok t
ast_type_ptr_type _ = abort

-- `t->mod |= m`
unfoldable pub ast_type_mod_or : AstType → ℕ → AstType
ast_type_mod_or (basic b mods) m = basic b (bit_or mods m)
ast_type_mod_or (pointer mods t) m = pointer (bit_or mods m) t
ast_type_mod_or (array mods t length) m = array (bit_or mods m) t length
ast_type_mod_or (structure mods tag ms) m = structure (bit_or mods m) tag ms
ast_type_mod_or (userdef mods name) m = userdef (bit_or mods m) name

unfoldable pub ast_type_mod : AstType → ℕ
ast_type_mod (basic b mods) = mods
ast_type_mod (pointer mods t) = mods
ast_type_mod (array mods t length) = mods
ast_type_mod (structure mods tag ms) = mods
ast_type_mod (userdef mods name) = mods

-- `MOD_TYPEDEF` is the first bit.
unfoldable pub ast_type_istypedef : AstType → Bool
unfolding ast_type_mod
ast_type_istypedef t = not (bit_and (ast_type_mod t) 1 == 0)
