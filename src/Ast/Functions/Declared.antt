-- ===== src/Ast/Functions/Declared.antt =====
-- Declarations of src/ast/externdecl.c in the maps of src/ext/ext.c.
use xr.Prelude.{◌≡◌, refl, Option, none, some, if◌then◌else◌, ok}
use xr.Prelude.Str.{Str, str_eq}
use xr.Util.Map.{map_get, map_set}
use xr.Util.Map.Laws.{map_get-map_set}
use xr.Ast.Types.{
  AstType, AstVariable, basic, pointer, array, structure, userdef, ast_type_struct_tag,
}
use xr.Ast.Functions.{
  AstFunction, Externals, externals_getfunc, externals_gettypedef, externals_getstruct,
  AstExterndecl, extern_function, extern_variable, extern_typedef, extern_struct,
  ast_externdecl_install,
}

-- What a declaration puts into each of the four maps.
abbrev pub func_of : AstExterndecl → Option (Str × AstFunction)
func_of (extern_function f) = some (f.name, f)
func_of _ = none

abbrev pub var_of : AstExterndecl → Option (Str × AstVariable)
var_of (extern_variable v) = some (v.name, v)
var_of _ = none

abbrev pub typedef_of : AstExterndecl → Option (Str × AstType)
typedef_of (extern_typedef name t) = some (name, t)
typedef_of _ = none

abbrev pub struct_of : AstExterndecl → Option (Str × AstType)
struct_of (extern_struct (structure mods (some tag) ms)) = some (tag, structure mods (some tag) ms)
struct_of _ = none

-- A reading of a map beneath an entry.
abbrev pub over {ℓ} : {V : Type ℓ} → Option (Str × V) → Str → Option V → Option V
over none id old = old
over (some (key, v)) id old = if str_eq key id then some v else old

-- After a declaration has been installed, its name is found in the map of its kind, in place of
-- what stood there, and everything else in the four maps is found as before.
pub ast_externdecl_install_lem :
    (decl : AstExterndecl) (ext ext' : Externals) (id : Str)
    → ast_externdecl_install decl ext ≡ ok ext'
    → (externals_getfunc ext' id ≡ over (func_of decl) id (externals_getfunc ext id))
      × (map_get ext'.var id ≡ over (var_of decl) id (map_get ext.var id))
      × (externals_gettypedef ext' id ≡ over (typedef_of decl) id (externals_gettypedef ext id))
      × (externals_getstruct ext' id ≡ over (struct_of decl) id (externals_getstruct ext id))
unfolding ast_externdecl_install externals_getfunc externals_gettypedef externals_getstruct
    ast_type_struct_tag
ast_externdecl_install_lem (extern_function f) ext ext' id h =
    let same : record ext { func = map_set ext.func f.name f } ≡ ext' = cc in
    rw (← same) (map_get-map_set ext.func f.name id f, refl, refl, refl)
ast_externdecl_install_lem (extern_variable v) ext ext' id h =
    let same : record ext { var = map_set ext.var v.name v } ≡ ext' = cc in
    rw (← same) (refl, map_get-map_set ext.var v.name id v, refl, refl)
ast_externdecl_install_lem (extern_typedef name t) ext ext' id h =
    let same : record ext { typedef = map_set ext.typedef name t } ≡ ext' = cc in
    rw (← same) (refl, refl, map_get-map_set ext.typedef name id t, refl)
ast_externdecl_install_lem (extern_struct (structure mods (some tag) ms)) ext ext' id h =
    let t = structure mods (some tag) ms in
    let same : record ext { struct = map_set ext.struct tag t } ≡ ext' = cc in
    rw (← same) (refl, refl, refl, map_get-map_set ext.struct tag id t)
ast_externdecl_install_lem (extern_struct (structure mods none ms)) ext ext' id h = cc
ast_externdecl_install_lem (extern_struct (basic b mods)) ext ext' id h = cc
ast_externdecl_install_lem (extern_struct (pointer mods t)) ext ext' id h = cc
ast_externdecl_install_lem (extern_struct (array mods t n)) ext ext' id h = cc
ast_externdecl_install_lem (extern_struct (userdef mods n)) ext ext' id h = cc
