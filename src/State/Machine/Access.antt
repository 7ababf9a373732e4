-- ===== src/State/Machine/Access.antt =====
-- The objects of a state, as `state_get`, `state_deref`, `state_getresult` and `state_getobject` of
-- src/state/state.c find them, and the blocks for clumps and for string literals. Where the code hands
-- out a pointer to an object, here it is the location of the block and the index of the object there.
use xr.Prelude.{
  ℕ, Bool, true, ◌++◌, Option, none, some, Run, ok, abort, ◌>>=◌, if◌then◌else◌, get_elem?, set,
}
use xr.Prelude.Int.{pos}
use xr.Prelude.Str.{Str, str_eq, codes}
use xr.Ast.Expr.{Expr, ast_expr_constant_create}
use xr.Value.Objects.{
  Value, value_ptr, value_literal_create, value_issync, value_as_location, object_assign,
}
use xr.State.Clump.{clump_newblock}
use xr.State.Static.{static_memory_newblock, static_memory_stringpool, static_memory_checkpool}
use xr.State.Location.{
  LocationType, Location, location_static, location_dereferencable, location_dynamic,
  location_create_static, location_create_dereferencable, location_with_offset,
}
use xr.State.Block.{Block, block_create, block_observe}
use xr.State.Stack.{stack_getvariable, stack_getresult}
use xr.State.Machine.{State, location_getblock, state_getblock, put_block}

-- A pointer to an object: the location of its block, and its index there.
pub record Place : Type 0 where
  pub loc : Location
  pub index : ℕ

-- `struct object_res`
pub record ObjectRes : Type 0 where
  pub obj : Option Place
  pub err : Option Str

unfoldable pub place_of : Location → Option ℕ → Option Place
place_of loc none = none
place_of loc (some index) = some (record { loc = loc; index = index })

-- No block is there: NULL in the memories where blocks may be missing.
unfoldable pub no_block : LocationType → Run ObjectRes
no_block location_dynamic = ok (record { obj = none; err = none })
no_block location_dereferencable = ok (record { obj = none; err = none })
no_block location_static = ok (record { obj = none; err = none })
no_block _ = abort

unfoldable pub observe_in : State → Location → Bool → Option Block → Run (State × ObjectRes)
unfolding no_block block_observe put_block place_of
observe_in s loc constructive none = do res ← no_block loc.type; ok (s, res)
observe_in s loc constructive (some b) = do
  (b', heap, at) ← block_observe b loc.offset s.heap constructive
  ok (put_block (record s { heap = heap }) loc b', record { obj = place_of loc at; err = none })

unfoldable pub state_get : State → Location → Bool → Run (State × ObjectRes)
unfolding location_getblock observe_in
state_get s loc constructive = do
  res ← location_getblock loc s
  elim res.err [
    | some e ↦ ok (s, record { obj = none; err = some e })
    | none ↦ observe_in s loc constructive res.b
  ]

unfoldable pub indirection : ObjectRes → ObjectRes
indirection res = elim res.err [
  | none ↦ res
  | some e ↦ record { obj = none; err = some (codes "undefined indirection: " ++ e) }
]

unfoldable pub state_deref : State → Value → Expr → Run (State × ObjectRes)
unfolding value_issync value_as_location location_with_offset state_get indirection
state_deref s ptr_val index =
    if value_issync ptr_val then ok (s, record { obj = none; err = none }) else (do
      deref_base ← value_as_location ptr_val
      elim deref_base [
        | none ↦ abort
        | some base ↦ do
          deref ← location_with_offset base index
          (s', res) ← state_get s deref true
          ok (s', indirection res)
      ])

-- An error fails an assertion.
unfoldable pub without_error : State × ObjectRes → Run (State × ObjectRes)
without_error (s, res) = elim res.err [ none ↦ ok (s, res) | some e ↦ abort ]

unfoldable pub state_getresult : State → Run (State × ObjectRes)
unfolding stack_getresult state_get without_error
state_getresult s = do v ← stack_getresult s.stack; r ← state_get s v.loc true; without_error r

unfoldable pub state_getobject : State → Str → Run (State × ObjectRes)
unfolding state_getresult stack_getvariable state_get
state_getobject s id = if str_eq id (codes "return") then state_getresult s else (do
  v ← stack_getvariable s.stack id
  elim v [
    | none ↦
        ok (s, record { obj = none; err = some (codes "unknown variable `" ++ (id ++ codes "'")) })
    | some var ↦ state_get s var.loc true
  ])

-- `object_assign` through a pointer.
unfoldable pub assign_at : State → Place → Option Value → Run State
unfolding state_getblock object_assign put_block
assign_at s p val = do
  b ← state_getblock s p.loc
  elim b [
    | none ↦ abort
    | some bl ↦ elim (get_elem? bl p.index) [
      | none ↦ abort
      | some obj ↦ do obj' ← object_assign obj val; ok (put_block s p.loc (set bl p.index obj'))
    ]
  ]

unfoldable pub state_clump : State → State × Value
unfolding clump_newblock block_create location_create_dereferencable
state_clump s =
    let (clump, address) = clump_newblock block_create s.clump in
    (
      record s { clump = clump },
      value_ptr (some (location_create_dereferencable address (ast_expr_constant_create (pos 0)))),
    )

-- A literal that is not in the pool gets a block of its own.
unfoldable pub pool_literal : State → Str → Run (State × Value)
unfolding static_memory_newblock block_create location_create_static state_get without_error
    assign_at value_literal_create static_memory_stringpool
pool_literal s lit = do
  let (sm, address) = static_memory_newblock block_create s.static_memory
  let loc = location_create_static address (ast_expr_constant_create (pos 0))
  r ← state_get (record s { static_memory = sm }) loc true
  (s1, res) ← without_error r
  elim res.obj [
    | none ↦ abort
    | some p ↦ do
      s2 ← assign_at s1 p (some (value_literal_create lit))
      sm' ← static_memory_stringpool s2.static_memory lit loc
      ok (record s2 { static_memory = sm' }, value_ptr (some loc))
  ]

-- The literal of the string expression.
unfoldable pub state_static_init : State → Str → Run (State × Value)
unfolding static_memory_checkpool pool_literal
state_static_init s lit = elim (static_memory_checkpool s.static_memory lit) [
  | some loc ↦ ok (s, value_ptr (some loc))
  | none ↦ pool_literal s lit
]
