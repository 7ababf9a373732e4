-- ===== src/Verify/Virtual.antt =====
-- The virtual constants of a type: `ast_type_vconst` of src/ast/type/type.c, `state_vconst` of
-- src/state/state.c and `value_struct_indefinite_create` of src/value/value.c. A type's name or a
-- member may lead to a type again without end, so that there is fuel for their depth.
use xr.Prelude.{ℕ, zero, suc, Bool, Option, none, some, ◌++◌, Run, ok, abort, ◌>>=◌, if◌then◌else◌}
use xr.Prelude.Str.{Str, codes}
use xr.Ast.Expr.{identifier}
use xr.Ast.Types.{
  AstType, VariableArr, no_variables, variable, basic, pointer, userdef, structure, type_int,
}
use xr.Ast.Functions.{externals_gettypedef, ast_type_struct_complete}
use xr.Value.Objects.{
  Value, Fields, value_struct, fields_get, fields_set, value_isstruct, value_int_indefinite_create,
  value_ptr_indefinite_create, value_sync_create, object_assign,
}
use xr.Value.Objects.Members.{value_struct_create}
use xr.State.Vconst.{vconst_declare}
use xr.State.Machine.{State}

-- What is made of a type, with a comment that may be NULL, and whether it persists.
abbrev pub Maker : Type 0
Maker = State → AstType → Option Str → Bool → Run (State × Value)

-- A value that is not a structure is declared, and its name stands for it.
unfoldable pub declared : Option Str → Bool → State × Value → State × Value
unfolding value_isstruct vconst_declare value_sync_create
declared comment persist (s, v) =
    if value_isstruct v
    then (s, v)
    else let (vconst, c) = vconst_declare s.vconst v comment persist in
      (record s { vconst = vconst }, value_sync_create (identifier c))

-- The comment of a member; one that is NULL may not be printed.
unfoldable pub member_comment : Option Str → Str → Run Str
member_comment none field = abort
member_comment (some comment) field = ok (comment ++ (codes "." ++ field))

-- The loop of `value_struct_indefinite_create`; a member that is not in the map is read.
unfoldable pub members_vconst :
    Maker → VariableArr → Option Str → Bool → State → Fields → Run (State × Fields)
unfolding member_comment object_assign
members_vconst vconst no_variables comment persist s m = ok (s, m)
members_vconst vconst (variable name t arr) comment persist s m = elim (fields_get m name) [
  | none ↦ abort
  | some obj ↦ do
    c ← member_comment comment name
    (s', v) ← vconst s t (some c) persist
    obj' ← object_assign obj (some v)
    members_vconst vconst arr comment persist s' (fields_set m name obj')
]

-- The members of the new structure, each made by `vconst`.
unfoldable pub fill_members : Maker → Option Str → Bool → State → Value → Run (State × Value)
unfolding members_vconst
fill_members vconst comment persist s (value_struct ms m) = do
  (s', m') ← members_vconst vconst ms comment persist s m
  ok (s', value_struct ms m')
fill_members vconst comment persist s _ = abort

-- A structure that is not declared is read.
unfoldable pub value_struct_indefinite_create :
    Maker → State → AstType → Option Str → Bool → Run (State × Value)
unfolding ast_type_struct_complete value_struct_create fill_members
value_struct_indefinite_create vconst s t comment persist = do
  complete ← ast_type_struct_complete t s.ext
  elim complete [
    | none ↦ abort
    | some t' ↦ do v ← value_struct_create t'; fill_members vconst comment persist s v
  ]

unfoldable pub ast_type_vconst : ℕ → Maker
unfolding value_int_indefinite_create value_ptr_indefinite_create externals_gettypedef declared
    value_struct_indefinite_create
ast_type_vconst zero s t comment persist = abort
ast_type_vconst (suc n) s (basic type_int mods) comment persist =
    ok (s, value_int_indefinite_create)
ast_type_vconst (suc n) s (pointer mods t) comment persist = ok (s, value_ptr_indefinite_create)
ast_type_vconst (suc n) s (userdef mods name) comment persist =
    elim (externals_gettypedef s.ext name) [
      | none ↦ abort
      | some t ↦ ast_type_vconst n s t comment persist
    ]
ast_type_vconst (suc n) s (structure mods tag ms) comment persist =
    value_struct_indefinite_create
      (λ s' t c p. do (s'', v) ← ast_type_vconst n s' t c p; ok (declared c p (s'', v))) s
      (structure mods tag ms) comment persist
ast_type_vconst (suc n) s _ comment persist = abort

unfoldable pub state_vconst : ℕ → Maker
unfolding ast_type_vconst declared
state_vconst n s t comment persist = do
  (s', v) ← ast_type_vconst n s t comment persist
  ok (declared comment persist (s', v))
