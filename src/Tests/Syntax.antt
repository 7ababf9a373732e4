-- ===== src/Tests/Syntax.antt =====
-- Types, statements, blocks and declarations at concrete inputs.
use xr.Prelude.{◌≡◌, refl, ok, false, none, some, [], ◌∷◌, if◌then◌else◌}
use xr.Prelude.Int.{pos}
use xr.Prelude.Str.{Str, codes}
use xr.Util.StringArr.{StringArr, string_arr_contains}
use xr.Ast.Expr.{Expr, identifier, call, no_args}
use xr.Ast.Types.{
  AstType, basic, pointer, array, type_int, type_char, structure, members, variable, no_variables,
  VariableArr, ast_type_copy, ast_variable_arr_copy,
}
use xr.Ast.Types.Copy.{
  is_copyable, are_copyable, unqualified, unqualified_arr, ast_type_copy-unqualified,
}
use xr.Ast.Stmts.{
  AstStmt, AstBlock, block, stmt, no_stmts, expression, selection, no_nest, compound, jump,
  ast_block_copy, ast_stmt_compound_getfuncs,
}
use xr.Ast.Expr.Copy.{is_copyable as is_expr_copyable}
use xr.Ast.Expr.Funcs.{is_traversable}
use xr.Ast.Stmts.Copy.{is_block_copyable, copied_block, ast_block_copy-copied}
use xr.Ast.Stmts.Funcs.{is_block_traversable, is_called_in, ast_stmt_compound_getfuncs-is_called}
use xr.Ast.Stmts.Setup.{
  is_setup, ast_stmt_preconds_validate, has_selection, preconds_selection_verify,
  ast_stmt_preconds_validate_lem,
}
use xr.Ast.Functions.{Externals, externals_create}

-- `static int *` and `struct { char c; }` with the variables `c` and `n`.
abbrev static_pointer : AstType
static_pointer = pointer 4 (basic type_int 0)

abbrev two_variables : VariableArr
two_variables =
    variable (codes "c") (array 4 (basic type_char 0) (pos 3))
      (variable (codes "n") (basic type_int 0) no_variables)

ast_type_copy-unqualified_example :
    (ast_type_copy static_pointer ≡ ok (unqualified static_pointer))
    × (ast_variable_arr_copy two_variables ≡ ok (unqualified_arr two_variables))
unfolding is_copyable
ast_type_copy-unqualified_example = ast_type_copy-unqualified static_pointer two_variables refl refl

-- `{ int *p; if (f()) { g(); } return x; }`
abbrev call_of : Str → Expr
call_of f = call (identifier f) no_args

abbrev guarded_call : AstStmt
guarded_call =
    selection false (call_of (codes "f"))
      (compound (block no_variables (stmt (expression (call_of (codes "g"))) no_stmts))) no_nest

abbrev sample_block : AstBlock
sample_block =
    block (variable (codes "p") static_pointer no_variables)
      (stmt guarded_call (stmt (jump (some (identifier (codes "x")))) no_stmts))

ast_block_copy-copied_example : ast_block_copy sample_block ≡ ok (copied_block sample_block)
unfolding is_block_copyable are_copyable is_expr_copyable
ast_block_copy-copied_example = ast_block_copy-copied sample_block refl

ast_stmt_compound_getfuncs-is_called_example :
    (fs : StringArr) × (ast_stmt_compound_getfuncs sample_block ≡ ok fs)
    × ((g : Str) → string_arr_contains fs g ≡ is_called_in g sample_block)
unfolding is_block_traversable is_traversable
ast_stmt_compound_getfuncs-is_called_example =
    ast_stmt_compound_getfuncs-is_called sample_block refl

abbrev setup_block : AstStmt
setup_block =
    compound
      (block no_variables (stmt (expression (call_of (codes "f"))) (stmt guarded_call no_stmts)))

ast_stmt_preconds_validate_lem_example :
    ast_stmt_preconds_validate setup_block
    ≡ ok (if has_selection setup_block then preconds_selection_verify else none)
unfolding is_setup
ast_stmt_preconds_validate_lem_example = ast_stmt_preconds_validate_lem setup_block refl

-- The declaration of `struct s`, among no others.
abbrev struct_s : AstType
struct_s = structure 0 (some (codes "s")) (members two_variables)

abbrev with_s : Externals
with_s = record externals_create { struct = record { key = codes "s"; value = struct_s } ∷ [] }
