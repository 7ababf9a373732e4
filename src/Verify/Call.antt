-- ===== src/Verify/Call.antt =====
-- Calls of functions: `expr_call_eval` of src/ast/expr/verify.c and what it calls. `ast_expr_eval` is a
-- parameter.
pub mod Apply
use xr.Prelude.{
  ℕ, zero, suc, Bool, true, false, not, Option, none, some, List, [], ◌∷◌, ◌++◌, Run, ok, abort,
  ◌>>=◌, ◌>>◌, assert, if◌then◌else◌, is_some, length, ◌==◌,
}
use xr.Prelude.Str.{Str, codes, decimal}
use xr.Ast.Expr.{Expr, Args, identifier, call, no_args, arg}
use xr.Ast.Types.{AstVariable}
use xr.Ast.Stmts.{AstStmt}
use xr.Ast.Functions.{AstFunction, externals_getfunc}
use xr.Value.Objects.{
  Value, Object, value_copy, value_isstruct, value_islocation, value_as_location, value_as_sync,
  value_sync_create, object_hasvalue, object_as_value,
}
use xr.Value.Objects.Members.{value_pf_augment}
use xr.Value.Objects.Print.{value_to_expr}
use xr.State.Location.{Location}
use xr.State.Machine.{
  State, state_create, state_copy, state_pushframe, state_popframe, state_declare,
}
use xr.State.Machine.Access.{ObjectRes, Place, state_get}
use xr.State.Machine.Values.{state_getloc, state_islval, state_isalloc}
use xr.Verify.Results.{Err}
use xr.Verify.Results.{
  Result, message, spot_of, read_object, assign_object, result_as_value, result_error_create,
  result_value_create, error_result, value_result, lvalue_object,
}
use xr.Verify.Lvalue.{ast_expr_lvalue}
use xr.Verify.Reduce.{ast_expr_pf_reduce}
use xr.Verify.Abstract.{Stepped, wrapped, and_then}
use xr.Verify.Absexec.{ast_function_absexec}
use xr.Verify.Setup.{ast_function_initparams}

-- Two states, with an error beside them if there is one.
abbrev pub Compared : Type 0
Compared = Run (State × State × Option Err)

unfoldable pub count_args : Args → ℕ
count_args no_args = 0
count_args (arg e es) = suc (count_args es)

-- The value in an object that must be there.
unfoldable pub object_at : State → Option Place → Run Object
unfolding read_object spot_of
object_at s none = abort
object_at s (some p) = read_object s (spot_of p)

unfoldable pub pointee : State → Value → Run (State × ObjectRes)
unfolding value_as_location state_get
pointee s v = do
  at ← value_as_location v
  elim at [ none ↦ abort | some loc ↦ state_get s loc false ]

-- What the objects hold, where both do; otherwise the end of the comparison.
unfoldable pub both_hold : State → State → Object → Object → (Value → Value → Compared) → Compared
unfolding object_hasvalue object_as_value
both_hold ps gs pobj aobj next =
    if not (object_hasvalue pobj)
    then ok (ps, gs, none)
    else if not (object_hasvalue aobj)
    then ok (ps, gs, some (message (codes "must be rvalue")))
    else (do
      pv ← object_as_value pobj
      av ← object_as_value aobj
      elim pv [ none ↦ abort | some v ↦ elim av [ none ↦ abort | some w ↦ next v w ] ])

-- The pointers lead to objects, of which the values are compared in turn by `next`.
unfoldable pub pointees :
    State → State → Value → Value → (State → State → Value → Value → Compared) → Compared
unfolding pointee object_at both_hold
pointees ps gs param given next = do
  (ps1, pres) ← pointee ps param
  elim pres.err [
    | some e ↦ ok (ps1, gs, some (message e))
    | none ↦ do
      (gs1, ares) ← pointee gs given
      elim ares.err [
        | some e ↦ ok (ps1, gs1, some (message e))
        | none ↦ do
          pobj ← object_at ps1 pres.obj
          aobj ← object_at gs1 ares.obj
          both_hold ps1 gs1 pobj aobj (next ps1 gs1)
      ]
  ]

-- `state_isalloc(param_state, param) && !state_isalloc(arg_state, arg)`.
unfoldable pub lacks_heap : State → State → Value → Value → Run (State × State × Bool)
unfolding state_isalloc
lacks_heap ps gs param given = do
  (ps1, p) ← state_isalloc ps param
  if p then (do (gs1, a) ← state_isalloc gs given; ok (ps1, gs1, not a)) else ok (ps1, gs, false)

-- The argument is at least as defined as the parameter's setup. The fuel is for the pointers, which may
-- lead on without end.
unfoldable pub verify_paramspec : ℕ → State → State → Value → Value → Compared
unfolding state_islval lacks_heap pointees
verify_paramspec zero ps gs param given = abort
verify_paramspec (suc n) ps gs param given = do
  (ps1, p) ← state_islval ps param
  if not p then ok (ps1, gs, none) else (do
    (gs1, a) ← state_islval gs given
    if not a then ok (ps1, gs1, some (message (codes "must be lvalue"))) else (do
      (ps2, gs2, lacks) ← lacks_heap ps1 gs1 param given
      if lacks
          then ok (ps2, gs2, some (message (codes "must be heap allocated")))
          else pointees ps2 gs2 param given λ ps3 gs3 v w. verify_paramspec n ps3 gs3 v w))

-- The loop of `call_setupverify` over the parameters.
unfoldable pub verify_params : ℕ → Str → List AstVariable → State → State → Run (Option Err)
unfolding state_getloc verify_paramspec wrapped
verify_params depth fname [] ps gs = ok none
verify_params depth fname (v ∷ vs) ps gs = do
  param ← state_getloc ps v.name
  given ← state_getloc gs v.name
  (ps', gs', err) ← verify_paramspec depth ps gs param given
  elim err [
    | none ↦ verify_params depth fname vs ps' gs'
    | some e ↦ ok (
        some (
          wrapped (codes "parameter `" ++ (v.name ++ (codes "' of `" ++ (fname ++ codes "' ")))) e))
  ]

unfoldable pub augment_sync : Value → State × Result → Run (State × Result)
unfolding result_as_value value_as_sync value_pf_augment result_value_create
augment_sync v (s, error_result e) = ok (s, error_result e)
augment_sync v (s, value_result r) = do
  w ← result_as_value (value_result r)
  root ← value_as_sync w
  a ← value_pf_augment v root
  ok (s, result_value_create (some a))

unfoldable pub pf_augment : Value → Expr → State → Run (State × Result)
unfolding value_isstruct value_copy result_value_create ast_expr_pf_reduce augment_sync
pf_augment v e s =
    if not (value_isstruct v)
    then (do copy ← value_copy v; ok (s, result_value_create (some copy)))
    else ast_expr_pf_reduce e s >>= augment_sync v

-- One argument's value is copied to the object of its parameter.
unfoldable pub assign_param : Str → Str → Result → State → Stepped
unfolding ast_expr_lvalue lvalue_object value_copy assign_object
assign_param name fname (error_result e) s = ok (s, some e)
assign_param name fname (value_result none) s = ok (
  s,
  some (
      message
        (codes "parameter `" ++ (name ++ (codes "' of `" ++ (fname ++ codes "' has no value"))))),
)
assign_param name fname (value_result (some v)) s = do
  (s1, res) ← ast_expr_lvalue (identifier name) s
  elim res.err [
    | some e ↦ ok (s1, some e)
    | none ↦ do
      obj ← lvalue_object res.lval
      elim obj [
        | none ↦ abort
        | some p ↦ do copy ← value_copy v; s2 ← assign_object s1 p (some copy); ok (s2, none)
      ]
  ]

-- There are as many arguments as parameters.
unfoldable pub prepare_parameters : List AstVariable → List Result → Str → State → Stepped
unfolding state_declare assign_param and_then
prepare_parameters [] [] fname s = ok (s, none)
prepare_parameters (v ∷ vs) (res ∷ args) fname s = do
  s1 ← state_declare s v true
  r ← assign_param v.name fname res s1
  and_then r λ s2. prepare_parameters vs args fname s2
prepare_parameters _ _ fname s = abort

-- `call_to_computed_value`'s expression of a parameter's value.
unfoldable pub computed_param : Result → Run Expr
unfolding result_as_value value_to_expr
computed_param res = do v ← result_as_value res; value_to_expr v

-- The arguments of the computed call, or the error of the first parameter that has no value.
pub data Computed : Type 0 where
  uncomputed : Result → Computed
  computed_args : Args → Computed

unfoldable pub computed_call : Str → State × Computed → State × Result
unfolding value_sync_create result_value_create
computed_call name (s, uncomputed r) = (s, r)
computed_call name (s, computed_args args) =
    (s, result_value_create (some (value_sync_create (call (identifier name) args))))
