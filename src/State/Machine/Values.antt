-- ===== src/State/Machine/Values.antt =====
-- What src/state/state.c says of the variables and pointers of a state, with the tests of
-- src/state/location.c for the memory that a location leads to.
use xr.Prelude.{
  Bool, true, false, ◌&&◌, Option, none, some, [], ◌∷◌, Run, ok, abort, ◌>>=◌, if◌then◌else◌,
  is_some,
}
use xr.Prelude.Str.{Str, str_eq, codes}
use xr.Props.{or_run}
use xr.Ast.Expr.{Expr}
use xr.Ast.Types.{AstType}
use xr.Value.Objects.{
  Value, Object, object_as_value, value_islocation, value_as_location, value_ptr_create,
}
use xr.State.Static.{StaticMemory, static_memory_getblock}
use xr.State.Clump.{Clump, clump_getblock}
use xr.State.Vconst.{vconst_get, vconst_eval}
use xr.State.Location.{
  Location, location_static, location_automatic, location_dereferencable, location_type_eq,
  location_toheap,
}
use xr.State.Block.{Block}
use xr.State.Stack.{
  Stack, stack_getblock, stack_getvariable, stack_getresult, stack_atend, stack_copywithname,
}
use xr.State.Machine.{State, state_copy, state_isdeallocand}
use xr.State.Machine.Access.{state_get}

-- The stack of the copy is the old stack's copy.
unfoldable pub state_copywithname : State → Str → Run State
unfolding state_copy stack_copywithname
state_copywithname s func_name = do
  copy ← state_copy s
  stack ← stack_copywithname s.stack func_name
  ok (record copy { stack = stack })

unfoldable pub state_atend : State → Run Bool
unfolding stack_atend
state_atend s = stack_atend s.stack

unfoldable pub state_eval : State → Expr → Run Bool
unfolding vconst_eval
state_eval s e = vconst_eval s.vconst e

unfoldable pub state_getvconst : State → Str → Option Value
unfolding vconst_get
state_getvconst s id = vconst_get s.vconst id

unfoldable pub state_getresulttype : State → Run AstType
unfolding stack_getresult
state_getresulttype s = do v ← stack_getresult s.stack; ok v.type

unfoldable pub state_getobjecttype : State → Str → Run AstType
unfolding state_getresulttype stack_getvariable
state_getobjecttype s id =
    if str_eq id (codes "return")
    then state_getresulttype s
    else (do v ← stack_getvariable s.stack id; elim v [ none ↦ abort | some var ↦ ok var.type ])

unfoldable pub state_getloc : State → Str → Run Value
unfolding stack_getvariable value_ptr_create
state_getloc s id = do
  v ← stack_getvariable s.stack id
  elim v [ none ↦ abort | some var ↦ ok (value_ptr_create (some var.loc)) ]

unfoldable pub location_tostatic : Location → StaticMemory Block → Bool
unfolding location_type_eq static_memory_getblock
location_tostatic loc sm =
    location_type_eq loc.type location_static && is_some (static_memory_getblock sm loc.block)

-- The block is looked up in the newest frame, whatever memory the location is in.
unfoldable pub location_tostack : Location → Stack → Run Bool
unfolding location_type_eq stack_getblock
location_tostack loc [] = abort
location_tostack loc (f ∷ prev) = do
  b ← stack_getblock f loc.block
  ok (location_type_eq loc.type location_automatic && is_some b)

unfoldable pub location_toclump : Location → Clump Block → Bool
unfolding location_type_eq clump_getblock
location_toclump loc c =
    location_type_eq loc.type location_dereferencable && is_some (clump_getblock c loc.block)

-- The object that a pointer leads to is put there, which must not fail; the pointer is then put to a
-- test. A NULL location is read.
unfoldable pub tested : State → Value → (Location → State → Run Bool) → Run (State × Bool)
unfolding value_islocation value_as_location state_get
tested s v test =
    if value_islocation v
    then (do
      at ← value_as_location v
      elim at [
        | none ↦ abort
        | some loc ↦ do
          (s', res) ← state_get s loc true
          elim res.err [ some e ↦ abort | none ↦ do b ← test loc s'; ok (s', b) ]
      ])
    else ok (s, false)

unfoldable pub is_lvalue_in : Location → State → Run Bool
unfolding location_tostatic location_toheap location_tostack location_toclump
is_lvalue_in loc s = or_run (ok (location_tostatic loc s.static_memory)) (
    or_run (location_toheap loc s.heap)
      (or_run (location_tostack loc s.stack) (ok (location_toclump loc s.clump))))

unfoldable pub state_islval : State → Value → Run (State × Bool)
unfolding tested is_lvalue_in
state_islval s v = tested s v is_lvalue_in

unfoldable pub state_isalloc : State → Value → Run (State × Bool)
unfolding tested location_toheap
state_isalloc s v = tested s v λ loc s'. location_toheap loc s'.heap

-- A NULL value, or one that is not a location, fails an assertion; a NULL location is read.
unfoldable pub state_addresses_deallocand : State → Object → Run Bool
unfolding object_as_value value_as_location state_isdeallocand
state_addresses_deallocand s obj = do
  val ← object_as_value obj
  elim val [
    | none ↦ abort
    | some v ↦ do
      loc ← value_as_location v
      elim loc [ none ↦ abort | some l ↦ state_isdeallocand s l ]
  ]
