-- ===== src/Ast/Functions.antt =====
-- Functions and what is declared outside of them: src/ast/function/function.c, src/ext/ext.c and
-- src/ast/externdecl.c, with the completion of structures of src/ast/type/type.c.
pub mod Declared
use xr.Prelude.{
  Bool, true, false, not, ◌&&◌, Option, none, some, List, [], ◌∷◌, if◌then◌else◌, ◌==◌, Run, ok,
  abort, ◌>>=◌, ◌>>◌, assert, is_some,
}
use xr.Prelude.Str.{Str}
use xr.Util.Map.{Map, map_create, map_get, map_set}
use xr.Ast.Types.{
  AstType, AstVariable, VariableArr, structure, ast_type_copy, ast_variable_copy,
  ast_variable_create, ast_type_struct_members, ast_type_struct_tag, ast_type_istypedef,
  ast_type_isstruct,
}
use xr.Ast.Stmts.{AstBlock, ast_block_copy, ast_block_ndecls, ast_block_nstmts}

-- `body` is NULL in a prototype.
pub record AstFunction : Type 0 where
  pub isaxiom : Bool
  pub ret : AstType
  pub name : Str
  pub param : List AstVariable
  pub abstract : AstBlock
  pub body : Option AstBlock

-- The loop over the parameters.
unfoldable pub params_copy : List AstVariable → Run (List AstVariable)
params_copy [] = ok []
params_copy (v ∷ vs) = do v' ← ast_variable_copy v; ok (v' ∷ (← params_copy vs))

unfoldable pub body_copy : Option AstBlock → Run (Option AstBlock)
body_copy none = ok none
body_copy (some b) = do ok (some (← ast_block_copy b))

unfoldable pub ast_function_copy : AstFunction → Run AstFunction
unfolding params_copy body_copy
ast_function_copy f = do
  param ← params_copy f.param
  ret ← ast_type_copy f.ret
  abstract ← ast_block_copy f.abstract
  body ← body_copy f.body
  ok (record f { ret = ret; param = param; abstract = abstract; body = body })

unfoldable pub ast_function_setname : AstFunction → Str → AstFunction
ast_function_setname f name = record f { name = name }

unfoldable pub ast_function_isproto : AstFunction → Bool
ast_function_isproto f = not (is_some f.body)

unfoldable pub ast_function_absisempty : AstFunction → Bool
unfolding ast_block_ndecls ast_block_nstmts
ast_function_absisempty f = (ast_block_ndecls f.abstract == 0) && (ast_block_nstmts f.abstract == 0)

unfoldable pub ast_function_body : AstFunction → Run AstBlock
ast_function_body f = elim f.body [ none ↦ abort | some b ↦ ok b ]

-- `struct externals`
pub record Externals : Type 0 where
  pub func : Map AstFunction
  pub var : Map AstVariable
  pub typedef : Map AstType
  pub struct : Map AstType

unfoldable pub externals_create : Externals
externals_create = record {
  func = map_create;
  var = map_create;
  typedef = map_create;
  struct = map_create;
}

unfoldable pub externals_declarefunc : Externals → Str → AstFunction → Externals
externals_declarefunc ext id f = record ext { func = map_set ext.func id f }

unfoldable pub externals_declarevar : Externals → Str → AstVariable → Externals
externals_declarevar ext id v = record ext { var = map_set ext.var id v }

unfoldable pub externals_declaretypedef : Externals → Str → AstType → Externals
externals_declaretypedef ext id t = record ext { typedef = map_set ext.typedef id t }

unfoldable pub externals_declarestruct : Externals → AstType → Run Externals
externals_declarestruct ext t = do
  tag ← ast_type_struct_tag t
  elim tag [ none ↦ abort | some id ↦ ok (record ext { struct = map_set ext.struct id t }) ]

unfoldable pub externals_getfunc : Externals → Str → Option AstFunction
externals_getfunc ext id = map_get ext.func id

unfoldable pub externals_gettypedef : Externals → Str → Option AstType
externals_gettypedef ext id = map_get ext.typedef id

unfoldable pub externals_getstruct : Externals → Str → Option AstType
externals_getstruct ext id = map_get ext.struct id

-- `struct ast_externdecl`
pub data AstExterndecl : Type 0 where
  extern_function : AstFunction → AstExterndecl
  extern_variable : AstVariable → AstExterndecl
  extern_typedef : Str → AstType → AstExterndecl
  extern_struct : AstType → AstExterndecl

unfoldable pub ast_decl_create : Str → AstType → Run AstExterndecl
unfolding ast_variable_create
ast_decl_create name t =
    if ast_type_istypedef t
    then ok (extern_typedef name t)
    else if ast_type_isstruct t
    then (do tag ← ast_type_struct_tag t; assert (is_some tag); ok (extern_struct t))
    else ok (extern_variable (ast_variable_create name t))

unfoldable pub ast_externdecl_install : AstExterndecl → Externals → Run Externals
unfolding externals_declarefunc externals_declarevar externals_declaretypedef
    externals_declarestruct
ast_externdecl_install (extern_function f) ext = ok (externals_declarefunc ext f.name f)
ast_externdecl_install (extern_variable v) ext = ok (externals_declarevar ext v.name v)
ast_externdecl_install (extern_typedef name t) ext = ok (externals_declaretypedef ext name t)
ast_externdecl_install (extern_struct t) ext = externals_declarestruct ext t

-- `none` is NULL: a structure that is not declared.
unfoldable pub ast_type_struct_complete : AstType → Externals → Run (Option AstType)
unfolding externals_getstruct
ast_type_struct_complete t ext = do
  ms ← ast_type_struct_members t
  elim ms [
    | some arr ↦ ok (some t)
    | none ↦ do
      tag ← ast_type_struct_tag t
      elim tag [ none ↦ abort | some id ↦ ok (externals_getstruct ext id) ]
  ]

unfoldable pub ast_function_protostitch : AstFunction → Externals → Run AstFunction
unfolding externals_getfunc
ast_function_protostitch f ext = elim (externals_getfunc ext f.name) [
  | none ↦ ok f
  | some proto ↦ do abstract ← ast_block_copy proto.abstract; ok (record f { abstract = abstract })
]
