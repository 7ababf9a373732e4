-- ===== src/Ast/Stmts/Setup.antt =====
-- The setup statements of an annotation: `ast_stmt_preconds_validate` of src/ast/stmt/stmt.c and
-- `ast_block_preconds` of src/ast/block.c.
use xr.Prelude.{
  Bool, true, false, ◌&&◌, ◌||◌, ◌≡◌, refl, ◌∙◌, Option, none, some, [], if◌then◌else◌, Run, ok,
  abort, ◌>>=◌, pair_of_and,
}
use xr.Prelude.Str.{codes}
use xr.Ast.Expr.{Expr}
use xr.Util.Error.{Error, error_printf}
use xr.Ast.Stmts.{
  AstStmt, AstBlock, Stmts, nop, labelled, compound, compound_v, expression, selection, iteration,
  iteration_e, jump, block, no_stmts, stmt, ast_stmt_ispre, ast_stmt_labelled_stmt, ast_block_stmts,
}

-- The message of the code begins with the position of the selection.
unfoldable pub preconds_selection_verify : Option (Error Expr)
preconds_selection_verify = some (error_printf (codes " setup preconditions must be decidable") [])

-- NULL is `none`.
unfoldable mutual
  pub ast_stmt_preconds_validate : AstStmt → Run (Option (Error Expr))
  ast_stmt_preconds_validate (expression e) = ok none
  ast_stmt_preconds_validate (iteration init cond iter abstract body) = ok none
  ast_stmt_preconds_validate (selection switch cond body n) = ok preconds_selection_verify
  ast_stmt_preconds_validate (compound b) = preconds_compound_verify b
  ast_stmt_preconds_validate _ = abort

  pub preconds_compound_verify : AstBlock → Run (Option (Error Expr))
  preconds_compound_verify (block decls ss) = preconds_each_verify ss

  -- The loop, which stops at the first error.
  pub preconds_each_verify : Stmts → Run (Option (Error Expr))
  preconds_each_verify no_stmts = ok none
  preconds_each_verify (stmt s ss) =
      let rest = preconds_each_verify ss in
      (ast_stmt_preconds_validate s >>= λ err. elim err [ none ↦ rest | some e ↦ ok (some e) ])

-- `struct preconds_result`
pub record PrecondsResult : Type 0 where
  pub stmt : Option AstStmt
  pub err : Option (Error Expr)

-- The end of the loop's body, at the first statement with the label.
unfoldable pub validated : AstStmt → Run PrecondsResult
validated preconds = do
  err ← ast_stmt_preconds_validate preconds
  ok (elim err [
    | some e ↦ record { stmt = none; err = some e }
    | none ↦ record { stmt = some preconds; err = none }
  ])

-- The loop of `ast_block_preconds`.
unfoldable pub find_preconds : Stmts → Run PrecondsResult
unfolding validated
find_preconds no_stmts = ok (record { stmt = none; err = none })
find_preconds (stmt s ss) =
    let rest = find_preconds ss in
    if ast_stmt_ispre s then (ast_stmt_labelled_stmt s >>= validated) else rest

unfoldable pub ast_block_preconds : AstBlock → Run PrecondsResult
unfolding find_preconds
ast_block_preconds b = find_preconds (ast_block_stmts b)

-- Of the kinds that may stand in a setup.
unfoldable mutual
  pub is_setup : AstStmt → Bool
  is_setup (expression e) = true
  is_setup (iteration init cond iter abstract body) = true
  is_setup (selection switch cond body n) = true
  is_setup (compound b) = is_setup_block b
  is_setup _ = false

  pub is_setup_block : AstBlock → Bool
  is_setup_block (block decls ss) = are_setup ss

  pub are_setup : Stmts → Bool
  are_setup no_stmts = true
  are_setup (stmt s ss) = is_setup s && are_setup ss

-- A selection stands in the statement, outside its loops.
unfoldable mutual
  pub has_selection : AstStmt → Bool
  has_selection (selection switch cond body n) = true
  has_selection (compound b) = block_has_selection b
  has_selection _ = false

  pub block_has_selection : AstBlock → Bool
  block_has_selection (block decls ss) = have_selection ss

  pub have_selection : Stmts → Bool
  have_selection no_stmts = false
  have_selection (stmt s ss) = has_selection s || have_selection ss

abbrev verdict : Bool → Run (Option (Error Expr))
verdict true = ok preconds_selection_verify
verdict false = ok none

verdict_or :
    (a b : Bool) (rest : Run (Option (Error Expr)))
    → rest ≡ verdict b
    → (verdict a >>= λ err. elim err [ none ↦ rest | some e ↦ ok (some e) ]) ≡ verdict (a || b)
unfolding preconds_selection_verify
verdict_or true b rest h = refl
verdict_or false b rest h = h

mutual
  unfolding ast_stmt_preconds_validate is_setup has_selection

  validates :
      (s : AstStmt) → is_setup s ≡ true → ast_stmt_preconds_validate s ≡ verdict (has_selection s)
  validates (expression e) h = refl
  validates (iteration init cond iter abstract body) h = refl
  validates (selection switch cond body n) h = refl
  validates (compound b) h = validates_block b h
  validates nop h = cc
  validates (labelled l s) h = cc
  validates (compound_v b) h = cc
  validates (iteration_e init cond iter abstract body) h = cc
  validates (jump rv) h = cc

  validates_block :
      (b : AstBlock)
      → is_setup_block b ≡ true
      → preconds_compound_verify b ≡ verdict (block_has_selection b)
  validates_block (block decls ss) h = validates_each ss h

  validates_each :
      (ss : Stmts) → are_setup ss ≡ true → preconds_each_verify ss ≡ verdict (have_selection ss)
  validates_each no_stmts h = refl
  validates_each (stmt s ss) h =
      let (h1, h2) = pair_of_and (is_setup s) (are_setup ss) h in
      rw (validates s h1)
        (verdict_or (has_selection s) (have_selection ss) _ (validates_each ss h2))

-- A statement of the kinds that may stand in a setup is validated: with the error if a selection
-- stands in it outside its loops, at any depth of blocks, and without one otherwise.
pub ast_stmt_preconds_validate_lem :
    (s : AstStmt)
    → is_setup s ≡ true
    → ast_stmt_preconds_validate s
      ≡ ok (if has_selection s then preconds_selection_verify else none)
ast_stmt_preconds_validate_lem s h = validates s h ∙ either (has_selection s)
  where
    either : (b : Bool) → verdict b ≡ ok (if b then preconds_selection_verify else none)
    either true = refl
    either false = refl
