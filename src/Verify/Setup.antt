-- ===== src/Verify/Setup.antt =====
-- The setup of a function: `ast_function_initparams` and `ast_function_setupabsexec` of
-- src/ast/function/function.c, with `ast_stmt_setupabsexec` of src/ast/stmt/verify.c.
use xr.Prelude.{
  ℕ, Bool, true, false, not, Option, none, some, List, [], ◌∷◌, Run, ok, abort, ◌>>=◌, ◌==◌, ◌>>◌,
  assert, if◌then◌else◌, is_some,
}
use xr.Prelude.Str.{Str}
use xr.Ast.Expr.{Expr}
use xr.Ast.Types.{AstVariable}
use xr.Ast.Stmts.{
  AstStmt, NestedStmt, AstBlock, Stmts, labelled, compound, expression, selection, jump, no_nest,
  nest, block, no_stmts, stmt, count_decls, ast_block_stmts, ast_stmt_ispre,
}
use xr.Ast.Stmts.Setup.{ast_block_preconds}
use xr.Ast.Functions.{AstFunction}
use xr.Value.Objects.{object_hasvalue}
use xr.State.Machine.{State}
use xr.State.Machine.Access.{Place, state_getobject}
use xr.Verify.Absexec.{at_position, ast_stmt_absexec, ast_stmt_absprocess}
use xr.Verify.Results.{Result, spot_of, read_object, assign_object}
use xr.Verify.Reduce.Decide.{sel_decide, ast_stmt_isterminal}
use xr.Verify.Virtual.{state_vconst}
use xr.Verify.Abstract.{Stepped, and_then, params_declare}

-- `depth` is the fuel for the virtual constants of a type.
module _ (eval : Expr → State → Run (State × Result)) (position : AstStmt → Option Str)
    (depth : ℕ) where
  -- The setup of the annotation, if there is one; an error is wrapped once more.
  unfoldable pub ast_function_precondsinit : AstFunction → State → Stepped
  unfolding ast_block_preconds ast_stmt_absprocess at_position
  ast_function_precondsinit f s = do
    pre ← ast_block_preconds f.abstract
    elim pre.err [
      | some e ↦ ok (s, some e)
      | none ↦ elim pre.stmt [
        | none ↦ ok (s, none)
        | some st ↦ do
          r ← ast_stmt_absprocess eval position st f.name s true
          at_position (position st) f.name r
      ]
    ]

  unfoldable pub initialise_object : AstVariable → State → Option Place → Stepped
  unfolding read_object spot_of object_hasvalue state_vconst assign_object
  initialise_object param s none = abort
  initialise_object param s (some p) = do
    obj ← read_object s (spot_of p)
    if object_hasvalue obj then ok (s, none) else (do
      (s', val) ← state_vconst depth s param.type (some param.name) true
      s'' ← assign_object s' (spot_of p) (some val)
      ok (s'', none))

  unfoldable pub inititalise_param : AstVariable → State → Stepped
  unfolding state_getobject initialise_object
  inititalise_param param s = do
    (s', res) ← state_getobject s param.name
    assert (not (is_some res.err))
    initialise_object param s' res.obj

  -- The loop over the parameters.
  unfoldable pub inititalise_each : List AstVariable → State → Stepped
  unfolding inititalise_param and_then
  inititalise_each [] s = ok (s, none)
  inititalise_each (v ∷ vs) s = do
    r ← inititalise_param v s
    and_then r λ s'. inititalise_each vs s'

  unfoldable pub ast_function_initparams : AstFunction → State → Stepped
  unfolding params_declare ast_function_precondsinit inititalise_each and_then
  ast_function_initparams f s = do
    s1 ← params_declare f.param s
    r ← ast_function_precondsinit f s1
    and_then r λ s2. inititalise_each f.param s2

  unfoldable mutual
    unfolding ast_stmt_absexec sel_decide ast_stmt_isterminal and_then

    pub stmt_setupabsexec : AstStmt → State → Stepped
    stmt_setupabsexec (expression e) s = ok (s, none)
    stmt_setupabsexec (jump rv) s = ok (s, none)
    stmt_setupabsexec (labelled label st) s =
        ast_stmt_absexec eval position true (labelled label st) s
    stmt_setupabsexec (selection isswitch cond body n) s = do
      (s', dec) ← sel_decide cond s
      elim dec.err [
        | some e ↦ ok (s', some e)
        | none ↦ elim dec.decision [
          | true ↦ stmt_setupabsexec body s'
          | false ↦ nest_setupabsexec n s'
        ]
      ]
    stmt_setupabsexec (compound b) s = comp_setupabsexec b s
    stmt_setupabsexec _ s = abort

    pub nest_setupabsexec : NestedStmt → State → Stepped
    nest_setupabsexec no_nest s = ok (s, none)
    nest_setupabsexec (nest st) s = stmt_setupabsexec st s

    pub comp_setupabsexec : AstBlock → State → Stepped
    comp_setupabsexec (block decls stmts) s = do
      assert (count_decls decls == 0)
      stmts_setupabsexec stmts s

    -- The loop over the setups, up to an error or a terminal one.
    pub stmts_setupabsexec : Stmts → State → Stepped
    stmts_setupabsexec no_stmts s = ok (s, none)
    stmts_setupabsexec (stmt st ss) s = elim (ast_stmt_ispre st) [
      | false ↦ stmts_setupabsexec ss s
      | true ↦ do
        r ← stmt_setupabsexec st s
        and_then r λ s1. (do
          (s2, terminal) ← ast_stmt_isterminal st s1
          elim terminal [ true ↦ ok (s2, none) | false ↦ stmts_setupabsexec ss s2 ])
    ]

  unfoldable pub is_selection : AstStmt → Bool
  is_selection (selection isswitch cond body n) = true
  is_selection _ = false

  unfoldable pub ast_stmt_setupabsexec : AstStmt → State → Stepped
  unfolding is_selection stmt_setupabsexec
  ast_stmt_setupabsexec st s = if is_selection st then stmt_setupabsexec st s else ok (s, none)

  -- The loop of `ast_function_setupabsexec`.
  unfoldable pub setupabsexec_each : Stmts → State → Stepped
  unfolding ast_stmt_setupabsexec and_then
  setupabsexec_each no_stmts s = ok (s, none)
  setupabsexec_each (stmt st ss) s = do
    r ← ast_stmt_setupabsexec st s
    and_then r λ s'. setupabsexec_each ss s'

  unfoldable pub ast_function_setupabsexec : AstFunction → State → Stepped
  unfolding setupabsexec_each
  ast_function_setupabsexec f s = setupabsexec_each (ast_block_stmts f.abstract) s
