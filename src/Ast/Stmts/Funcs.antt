-- ===== src/Ast/Stmts/Funcs.antt =====
-- `ast_stmt_getfuncs` of src/ast/stmt/stmt.c collects the functions that a statement calls.
use xr.Prelude.{
  ◌≡◌, refl, ◌∙◌, Bool, true, false, ◌||◌, ◌&&◌, pair_of_and, [], arith, ok, none, some, Run, ◌>>=◌,
}
use xr.Prelude.Str.{Str}
use xr.Util.StringArr.{StringArr, string_arr_create, string_arr_concat, string_arr_contains}
use xr.Util.StringArr.Laws.{string_arr_concat_lem, contains-append}
use xr.Ast.Expr.Funcs.{
  is_called as is_called_by, is_traversable as is_expr_traversable, Collects, getfuncs-is_called,
}
use xr.Ast.Stmts.{
  AstStmt, NestedStmt, AstBlock, Stmts, nop, labelled, compound, compound_v, expression, selection,
  iteration, iteration_e, jump, no_nest, nest, block, no_stmts, stmt, ast_stmt_getfuncs,
  nest_getfuncs, ast_stmt_compound_getfuncs, stmts_getfuncs,
}

-- A call of `g` stands in an expression of the statement, outside the annotations of its loops.
unfoldable mutual
  pub is_called : Str → AstStmt → Bool
  is_called g nop = false
  is_called g (labelled l s) = is_called g s
  is_called g (compound b) = is_called_in g b
  is_called g (compound_v b) = is_called_in g b
  is_called g (expression e) = is_called_by g e
  is_called g (selection switch cond body n) =
      is_called_by g cond || (is_called g body || is_called_in_nest g n)
  is_called g (iteration init cond iter abstract body) =
      (is_called g init || is_called g cond) || (is_called g body || is_called_by g iter)
  is_called g (iteration_e init cond iter abstract body) =
      (is_called g init || is_called g cond) || (is_called g body || is_called_by g iter)
  is_called g (jump none) = false
  is_called g (jump (some rv)) = is_called_by g rv

  pub is_called_in_nest : Str → NestedStmt → Bool
  is_called_in_nest g no_nest = false
  is_called_in_nest g (nest s) = is_called g s

  pub is_called_in : Str → AstBlock → Bool
  is_called_in g (block decls ss) = is_called_among g ss

  pub is_called_among : Str → Stmts → Bool
  is_called_among g no_stmts = false
  is_called_among g (stmt s ss) = is_called g s || is_called_among g ss

-- The expressions can be searched, and every return has a value.
unfoldable mutual
  pub is_traversable : AstStmt → Bool
  is_traversable nop = true
  is_traversable (labelled l s) = is_traversable s
  is_traversable (compound b) = is_block_traversable b
  is_traversable (compound_v b) = is_block_traversable b
  is_traversable (expression e) = is_expr_traversable e
  is_traversable (selection switch cond body n) =
      is_expr_traversable cond && (is_traversable body && is_nest_traversable n)
  is_traversable (iteration init cond iter abstract body) =
      (is_traversable init && is_traversable cond)
      && (is_traversable body && is_expr_traversable iter)
  is_traversable (iteration_e init cond iter abstract body) =
      (is_traversable init && is_traversable cond)
      && (is_traversable body && is_expr_traversable iter)
  is_traversable (jump none) = false
  is_traversable (jump (some rv)) = is_expr_traversable rv

  pub is_nest_traversable : NestedStmt → Bool
  is_nest_traversable no_nest = true
  is_nest_traversable (nest s) = is_traversable s

  pub is_block_traversable : AstBlock → Bool
  is_block_traversable (block decls ss) = are_traversable ss

  pub are_traversable : Stmts → Bool
  are_traversable no_stmts = true
  are_traversable (stmt s ss) = is_traversable s && are_traversable ss

concat_lem :
    (g : Str) (xs ys : StringArr)
    → string_arr_contains (string_arr_concat xs ys) g
      ≡ (string_arr_contains xs g || string_arr_contains ys g)
concat_lem g xs ys = rw (string_arr_concat_lem xs ys, contains-append xs ys g)

contains-create :
    (g : Str) (xs : StringArr)
    → string_arr_contains (string_arr_concat string_arr_create xs) g ≡ string_arr_contains xs g
unfolding string_arr_create string_arr_contains
contains-create g xs = concat_lem g [] xs

-- The four parts of a loop, in the order in which their names are put together.
four_funcs :
    {p q r t : Str → Bool} {a b c d : Run StringArr}
    → Collects p a
    → Collects q b
    → Collects r c
    → Collects t d
    → Collects
        (λ g. (p g || q g) || (r g || t g))
        (do
          xs ← a
          ys ← b
          zs ← c
          ws ← d
          ok (
              string_arr_concat string_arr_create
                (string_arr_concat (string_arr_concat xs ys) (string_arr_concat zs ws))))
four_funcs (is, i, i_in) (cs, c, c_in) (bs, b, b_in) (rs, r, r_in) = (
  string_arr_concat string_arr_create
      (string_arr_concat (string_arr_concat is cs) (string_arr_concat bs rs)),
  rw (i, c, b, r),
  λ g.
      contains-create g (string_arr_concat (string_arr_concat is cs) (string_arr_concat bs rs))
      ∙ rw (
        concat_lem g (string_arr_concat is cs) (string_arr_concat bs rs),
        concat_lem g is cs,
        concat_lem g bs rs,
        i_in g,
        c_in g,
        b_in g,
        r_in g,
      ),
)

mutual
  unfolding ast_stmt_getfuncs is_called is_traversable string_arr_create string_arr_contains

  collects :
      (s : AstStmt) → is_traversable s ≡ true → Collects (λ g. is_called g s) (ast_stmt_getfuncs s)
  collects nop h = ([], refl, λ g. refl)
  collects (labelled l s) h = collects s h
  collects (compound b) h = block_funcs b h
  collects (compound_v b) h = block_funcs b h
  collects (expression e) h = getfuncs-is_called e h
  collects (selection switch cond body n) h =
      let (h1, h2) =
        pair_of_and (is_expr_traversable cond) (is_traversable body && is_nest_traversable n) h in
      let (h3, h4) = pair_of_and (is_traversable body) (is_nest_traversable n) h2 in
      let (cs, c, c_in) = getfuncs-is_called cond h1 in
      let (bs, b, b_in) = collects body h3 in
      let (ns, m, n_in) = nest_funcs n h4 in
      (
        string_arr_concat [] (string_arr_concat cs (string_arr_concat bs ns)),
        rw (c, b, m),
        λ g.
            contains-create g (string_arr_concat cs (string_arr_concat bs ns))
            ∙ rw (
              concat_lem g cs (string_arr_concat bs ns),
              concat_lem g bs ns,
              c_in g,
              b_in g,
              n_in g,
            ),
      )
  collects (iteration init cond iter abstract body) h =
      let (h1, h2) =
        pair_of_and (is_traversable init && is_traversable cond)
          (is_traversable body && is_expr_traversable iter) h in
      let (h3, h4) = pair_of_and (is_traversable init) (is_traversable cond) h1 in
      let (h5, h6) = pair_of_and (is_traversable body) (is_expr_traversable iter) h2 in
      four_funcs (collects init h3) (collects cond h4) (collects body h5)
        (getfuncs-is_called iter h6)
  collects (iteration_e init cond iter abstract body) h =
      let (h1, h2) =
        pair_of_and (is_traversable init && is_traversable cond)
          (is_traversable body && is_expr_traversable iter) h in
      let (h3, h4) = pair_of_and (is_traversable init) (is_traversable cond) h1 in
      let (h5, h6) = pair_of_and (is_traversable body) (is_expr_traversable iter) h2 in
      four_funcs (collects init h3) (collects cond h4) (collects body h5)
        (getfuncs-is_called iter h6)
  collects (jump none) h = cc
  collects (jump (some rv)) h = getfuncs-is_called rv h

  nest_funcs :
      (n : NestedStmt)
      → is_nest_traversable n ≡ true
      → Collects (λ g. is_called_in_nest g n) (nest_getfuncs n)
  nest_funcs no_nest h = ([], refl, λ g. refl)
  nest_funcs (nest s) h = collects s h

  block_funcs :
      (b : AstBlock)
      → is_block_traversable b ≡ true
      → Collects (λ g. is_called_in g b) (ast_stmt_compound_getfuncs b)
  block_funcs (block decls ss) h = stmts_funcs [] ss h

  stmts_funcs :
      (res : StringArr) (ss : Stmts)
      → are_traversable ss ≡ true
      → Collects (λ g. string_arr_contains res g || is_called_among g ss) (stmts_getfuncs res ss)
  stmts_funcs res no_stmts h = (res, refl, λ g. ground arith)
  stmts_funcs res (stmt s ss) h =
      let (h1, h2) = pair_of_and (is_traversable s) (are_traversable ss) h in
      let (xs, x, x_in) = collects s h1 in
      let (fs, f, f_in) = stmts_funcs (string_arr_concat res xs) ss h2 in
      (fs, rw x f, λ g. f_in g ∙ rw (concat_lem g res xs, x_in g) (ground arith))

-- On a block in which every return has a value and whose expressions, outside the annotations of
-- loops, have no loop variables, no allocations, no calls of anything but a name, and no calls in the
-- structure of a member or in an assertion, the collection answers, and a name is in the answer
-- exactly when a call of it stands in one of these expressions.
pub ast_stmt_compound_getfuncs-is_called :
    (b : AstBlock)
    → is_block_traversable b ≡ true
    → (fs : StringArr) × (ast_stmt_compound_getfuncs b ≡ ok fs)
      × ((g : Str) → string_arr_contains fs g ≡ is_called_in g b)
ast_stmt_compound_getfuncs-is_called b h = block_funcs b h
