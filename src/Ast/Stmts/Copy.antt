-- ===== src/Ast/Stmts/Copy.antt =====
-- `ast_stmt_copy` of src/ast/stmt/stmt.c and `ast_block_copy` of src/ast/block.c.
use xr.Prelude.{Bool, true, false, not, ◌&&◌, ◌≡◌, refl, Option, none, some, ok, arith, pair_of_and}
use xr.Ast.Expr.{Expr}
use xr.Ast.Expr.Copy.{copy_lem, is_copyable as is_expr_copyable}
use xr.Ast.Types.{VariableArr, no_variables, variable}
use xr.Ast.Types.Copy.{
  are_copyable, unqualified, unqualified_arr, ast_type_copy-unqualified,
  is_copyable as is_type_copyable,
}
use xr.Ast.Stmts.{
  AstStmt, NestedStmt, AstBlock, Stmts, nop, labelled, compound, compound_v, expression, selection,
  iteration, iteration_e, jump, no_nest, nest, block, no_stmts, stmt, copy_var_arr,
  ast_expr_copy_ifnotnull, ast_stmt_copy, nest_copy, ast_block_copy, copy_stmt_arr,
}

unfoldable pub is_value_copyable : Option Expr → Bool
is_value_copyable none = true
is_value_copyable (some e) = is_expr_copyable e

-- There is no switch, and the expressions and the types of the declarations can be copied.
unfoldable mutual
  unfolding is_value_copyable

  pub is_copyable : AstStmt → Bool
  is_copyable nop = true
  is_copyable (labelled l s) = is_copyable s
  is_copyable (compound b) = is_block_copyable b
  is_copyable (compound_v b) = is_block_copyable b
  is_copyable (expression e) = is_expr_copyable e
  is_copyable (selection switch cond body n) =
      not switch && (is_expr_copyable cond && (is_copyable body && is_nest_copyable n))
  is_copyable (iteration init cond iter abstract body) =
      is_copyable init
      && (is_copyable cond
          && (is_expr_copyable iter && (is_block_copyable abstract && is_copyable body)))
  is_copyable (iteration_e init cond iter abstract body) =
      is_copyable init
      && (is_copyable cond
          && (is_expr_copyable iter && (is_block_copyable abstract && is_copyable body)))
  is_copyable (jump rv) = is_value_copyable rv

  pub is_nest_copyable : NestedStmt → Bool
  is_nest_copyable no_nest = true
  is_nest_copyable (nest s) = is_copyable s

  pub is_block_copyable : AstBlock → Bool
  is_block_copyable (block decls ss) = are_copyable decls && are_stmts_copyable ss

  pub are_stmts_copyable : Stmts → Bool
  are_stmts_copyable no_stmts = true
  are_stmts_copyable (stmt s ss) = is_copyable s && are_stmts_copyable ss

-- The statement with the types of its declarations without the modifiers that their copies lose.
unfoldable mutual
  pub copied : AstStmt → AstStmt
  copied nop = nop
  copied (labelled l s) = labelled l (copied s)
  copied (compound b) = compound (copied_block b)
  copied (compound_v b) = compound_v (copied_block b)
  copied (expression e) = expression e
  copied (selection switch cond body n) = selection switch cond (copied body) (copied_nest n)
  copied (iteration init cond iter abstract body) =
      iteration (copied init) (copied cond) iter (copied_block abstract) (copied body)
  copied (iteration_e init cond iter abstract body) =
      iteration_e (copied init) (copied cond) iter (copied_block abstract) (copied body)
  copied (jump rv) = jump rv

  pub copied_nest : NestedStmt → NestedStmt
  copied_nest no_nest = no_nest
  copied_nest (nest s) = nest (copied s)

  pub copied_block : AstBlock → AstBlock
  copied_block (block decls ss) = block (unqualified_arr decls) (copied_stmts ss)

  pub copied_stmts : Stmts → Stmts
  copied_stmts no_stmts = no_stmts
  copied_stmts (stmt s ss) = stmt (copied s) (copied_stmts ss)

decls_lem :
    (arr : VariableArr) → are_copyable arr ≡ true → copy_var_arr arr ≡ ok (unqualified_arr arr)
unfolding copy_var_arr are_copyable unqualified
decls_lem no_variables h = refl
decls_lem (variable n t arr) h =
    let (h1, h2) = pair_of_and (is_type_copyable t) (are_copyable arr) h in
    rw ((ast_type_copy-unqualified t no_variables h1 refl).0, decls_lem arr h2)

value_lem : (rv : Option Expr) → is_value_copyable rv ≡ true → ast_expr_copy_ifnotnull rv ≡ ok rv
unfolding ast_expr_copy_ifnotnull is_value_copyable
value_lem none h = refl
value_lem (some e) h = rw (copy_lem e h)

abbrev five : Bool → Bool → Bool → Bool → Bool → Bool
five a b c d e = a && (b && (c && (d && e)))

five_parts :
    (a b c d e : Bool)
    → five a b c d e ≡ true
    → (a ≡ true) × (b ≡ true) × (c ≡ true) × (d ≡ true) × (e ≡ true)
five_parts true true true true true h = (refl, refl, refl, refl, refl)
five_parts a b c d e h = ground arith

mutual
  unfolding is_copyable copied ast_stmt_copy

  copies : (s : AstStmt) → is_copyable s ≡ true → ast_stmt_copy s ≡ ok (copied s)
  copies nop h = refl
  copies (labelled l s) h = rw (copies s h)
  copies (compound b) h = rw (copies_block b h)
  copies (compound_v b) h = rw (copies_block b h)
  copies (expression e) h = rw (copy_lem e h)
  copies (selection true cond body n) h = cc
  copies (selection false cond body n) h =
      let (h1, h2) =
        pair_of_and (is_expr_copyable cond) (is_copyable body && is_nest_copyable n) h in
      let (h3, h4) = pair_of_and (is_copyable body) (is_nest_copyable n) h2 in
      rw (copy_lem cond h1, copies body h3, copies_nest n h4)
  copies (iteration init cond iter abstract body) h =
      let (h1, h2, h3, h4, h5) =
        five_parts (is_copyable init) (is_copyable cond) (is_expr_copyable iter)
          (is_block_copyable abstract) (is_copyable body) h in
      rw
        (copies init h1, copies cond h2, copy_lem iter h3, copies_block abstract h4, copies body h5)
  copies (iteration_e init cond iter abstract body) h =
      let (h1, h2, h3, h4, h5) =
        five_parts (is_copyable init) (is_copyable cond) (is_expr_copyable iter)
          (is_block_copyable abstract) (is_copyable body) h in
      rw
        (copies init h1, copies cond h2, copy_lem iter h3, copies_block abstract h4, copies body h5)
  copies (jump rv) h = rw (value_lem rv h)

  copies_nest : (n : NestedStmt) → is_nest_copyable n ≡ true → nest_copy n ≡ ok (copied_nest n)
  copies_nest no_nest h = refl
  copies_nest (nest s) h = rw (copies s h)

  copies_block :
      (b : AstBlock) → is_block_copyable b ≡ true → ast_block_copy b ≡ ok (copied_block b)
  copies_block (block decls ss) h =
      let (h1, h2) = pair_of_and (are_copyable decls) (are_stmts_copyable ss) h in
      rw (decls_lem decls h1, copies_stmts ss h2)

  copies_stmts :
      (ss : Stmts) → are_stmts_copyable ss ≡ true → copy_stmt_arr ss ≡ ok (copied_stmts ss)
  copies_stmts no_stmts h = refl
  copies_stmts (stmt s ss) h =
      let (h1, h2) = pair_of_and (is_copyable s) (are_stmts_copyable ss) h in
      rw (copies s h1, copies_stmts ss h2)

-- A block without switches, whose expressions and declared types can be copied, is copied to the
-- same statements in the same order, with the types of the declarations as their copies are.
pub ast_block_copy-copied :
    (b : AstBlock) → is_block_copyable b ≡ true → ast_block_copy b ≡ ok (copied_block b)
ast_block_copy-copied b h = copies_block b h
