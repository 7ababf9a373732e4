-- ===== src/State/Machine/Arrays.antt =====
-- The arrays that a pointer of a state leads to: ranges of them are allocated, freed and tested in
-- src/state/state.c, src/state/location.c and src/state/block.c.
use xr.Prelude.{
  ℕ, zero, suc, ◌-◌, Bool, true, false, not, Option, none, some, [], ◌∷◌, Run, ok, abort, ◌>>=◌,
  ◌>>◌, assert, if◌then◌else◌, leb, drop,
}
use xr.Prelude.Str.{Str, codes}
use xr.Ast.Expr.{Expr, ast_expr_equal}
use xr.Value.Objects.{Object, object_as_value, value_as_location}
use xr.Value.Objects.Arrays.{object_arr_index, object_arr_index_upperincl}
use xr.Value.Objects.Extents.{object_contig_precedes}
use xr.State.Location.{Location, offsetzero}
use xr.State.Block.{Block, block_range_alloc}
use xr.State.Machine.{State, location_getblock, state_getblock, put_block}
use xr.State.Machine.Ranges.{
  object_isdeallocand, hack_first_object_is_exactly_bounds, block_range_dealloc,
}

-- The loop over `n` objects before the last, each of which may be freed and is followed at once by the
-- next. The last is asserted to be one that may be freed.
unfoldable pub aredeallocands_from : ℕ → Block → State → Run Bool
unfolding object_isdeallocand object_contig_precedes
aredeallocands_from zero [] s = abort
aredeallocands_from zero (obj ∷ b) s = do d ← object_isdeallocand obj s; assert d; ok true
aredeallocands_from (suc n) (obj ∷ next ∷ b) s =
    let rest = aredeallocands_from n (next ∷ b) s in
    do
      d ← object_isdeallocand obj s
      if not d then ok false else (do
        contiguous ← object_contig_precedes obj next
        if contiguous then rest else ok false)
aredeallocands_from (suc n) _ s = abort

unfoldable pub block_range_aredeallocands : Block → Expr → Expr → State → Run Bool
unfolding hack_first_object_is_exactly_bounds aredeallocands_from
block_range_aredeallocands b lw up s = do
  exact ← hack_first_object_is_exactly_bounds b lw up s
  if exact then ok true else (do
    lw_index ← object_arr_index b lw
    elim lw_index [
      | none ↦ ok false
      | some i ↦ do
        up_index ← object_arr_index_upperincl b up
        elim up_index [
          | none ↦ ok false
          | some j ↦ aredeallocands_from (j - i) (drop (if leb i j then i else j) b) s
        ]
    ])

-- `location_range_dealloc`; a block whose range may not be freed fails the assertion.
unfoldable pub location_range_dealloc : Location → Expr → Expr → State → Run (State × Option Str)
unfolding offsetzero state_getblock block_range_aredeallocands block_range_dealloc put_block
location_range_dealloc loc lw up s = do
  at_zero ← offsetzero loc
  assert at_zero
  found ← state_getblock s loc
  elim found [
    | none ↦ ok (s, some (codes "cannot get block"))
    | some b ↦ do
      free ← block_range_aredeallocands b lw up s
      assert free
      (b', heap, err) ← block_range_dealloc b lw up s
      ok (put_block (record s { heap = heap }) loc b', err)
  ]

-- What the object, say of `arr`, points at; NULL as `none`, and a NULL location is read.
unfoldable pub points_at : Object → Run (Option Location)
unfolding object_as_value value_as_location
points_at obj = do
  val ← object_as_value obj
  elim val [
    | none ↦ ok none
    | some v ↦ do loc ← value_as_location v; elim loc [ none ↦ abort | some l ↦ ok (some l) ]
  ]

unfoldable pub alloc_at : State → Location → Expr → Expr → Run (State × Option Str)
unfolding location_getblock block_range_alloc put_block
alloc_at s deref lw up = do
  res ← location_getblock deref s
  elim res.err [
    | some e ↦ abort
    | none ↦ elim res.b [
      | none ↦ ok (s, some (codes "no block"))
      | some b ↦ do
        same ← ast_expr_equal lw up
        assert (not same)
        (b', heap) ← block_range_alloc b lw up s.heap
        ok (put_block (record s { heap = heap }) deref b', none)
    ]
  ]

unfoldable pub state_range_alloc : State → Object → Expr → Expr → Run (State × Option Str)
unfolding points_at alloc_at
state_range_alloc s obj lw up = do
  at ← points_at obj
  elim at [ none ↦ ok (s, some (codes "no value")) | some deref ↦ alloc_at s deref lw up ]

unfoldable pub state_range_dealloc : State → Object → Expr → Expr → Run (State × Option Str)
unfolding points_at location_range_dealloc
state_range_dealloc s obj lw up = do
  at ← points_at obj
  elim at [
    | none ↦ ok (s, some (codes "no value"))
    | some deref ↦ location_range_dealloc deref lw up s
  ]

unfoldable pub aredeallocands_at : State → Location → Expr → Expr → Run Bool
unfolding location_getblock block_range_aredeallocands
aredeallocands_at s deref lw up = do
  res ← location_getblock deref s
  elim res.err [
    | some e ↦ abort
    | none ↦ elim res.b [ none ↦ ok false | some b ↦ block_range_aredeallocands b lw up s ]
  ]

unfoldable pub state_range_aredeallocands : State → Object → Expr → Expr → Run Bool
unfolding points_at aredeallocands_at
state_range_aredeallocands s obj lw up = do
  same ← ast_expr_equal lw up
  if same then ok true else (do
    at ← points_at obj
    elim at [ none ↦ ok false | some deref ↦ aredeallocands_at s deref lw up ])
