-- ===== src/State/Block.antt =====
-- `struct block` of src/state/block.c: an array of objects. The operations that allocate or free
-- take the heap of the state and give it back; a block that stands in a memory is put back there by
-- their caller, and an object that they hand out is its index in the block.
pub mod Closed
pub mod Coverage
pub mod Insertion
pub mod Lost
pub mod Observe
pub mod Parts
pub mod Split
use xr.Prelude.{
  ℕ, suc, Bool, true, false, not, Option, none, some, [], ◌==◌, Run, ok, abort, ◌>>=◌, ◌>>◌, assert,
  if◌then◌else◌, is_some, length, get_elem?,
}
use xr.Prelude.Int.{pos}
use xr.Prelude.Str.{Str, codes}
use xr.Ast.Expr.{
  Expr, binary, op_eq, op_le, op_ge, op_addition, op_subtraction, ast_expr_copy, ast_expr_matheval,
  ast_expr_constant_create,
}
use xr.Value.Objects.{
  Value, Object, value_ptr, unassigned, assigned, deallocand_range, value_copy, value_islocation,
  value_as_location, object_isvalue, object_range_create, range_create,
}
use xr.Value.Objects.Extents.{object_lower, object_upper}
use xr.Value.Objects.Arrays.{
  ObjectArr, object_arr_create, object_arr_copy, object_arr_append, object_arr_insert,
  object_arr_remove, object_arr_index,
}
use xr.State.Heap.{Heap, heap_newblock}
use xr.State.Location.{Location, location_create_dynamic, location_dealloc}

abbrev pub Block : Type 0
Block = ObjectArr

unfoldable pub block_create : Block
unfolding object_arr_create
block_create = object_arr_create

unfoldable pub block_copy : Block → Run Block
unfolding object_arr_copy
block_copy old = object_arr_copy old

unfoldable pub block_install : Block → Object → Run Block
unfolding object_arr_append
block_install b obj = do assert (length b == 0); object_arr_append b obj

-- `heap_newblock` of an empty block, whose answer is a location at its start.
unfoldable pub alloc_location : Heap Block → Heap Block × Location
unfolding block_create location_create_dynamic heap_newblock
alloc_location h =
    let (h', address) = heap_newblock block_create h in
    (h', location_create_dynamic address (ast_expr_constant_create (pos 0)))

unfoldable pub state_alloc : Heap Block → Heap Block × Value
unfolding alloc_location
state_alloc h = let (h', loc) = alloc_location h in (h', value_ptr (some loc))

-- The heap, and the error if there is one; a NULL location is read.
unfoldable pub state_dealloc : Value → Heap Block → Run (Heap Block × Option Str)
unfolding value_islocation value_as_location location_dealloc
state_dealloc val h =
    if value_islocation val
    then (do loc ← value_as_location val; elim loc [ none ↦ abort | some l ↦ location_dealloc l h ])
    else ok (h, some (codes "undefined free of value not pointing at heap"))

-- A value that is NULL is read.
unfoldable pub object_dealloc : Object → Heap Block → Run (Heap Block × Option Str)
unfolding state_dealloc
object_dealloc (unassigned offset) h = abort
object_dealloc (assigned offset v) h = state_dealloc v h
object_dealloc (deallocand_range offset r) h = state_dealloc (value_ptr (some r.loc)) h

-- The copy of a value object at another offset; a range fails the assertion, and a NULL value is
-- read.
unfoldable pub value_at : Object → Expr → Run Object
value_at (assigned offset v) e = do e' ← ast_expr_copy e; ok (assigned e' (← value_copy v))
value_at _ e = abort

-- A new range of the size, at the offset.
unfoldable pub range_at : Expr → Expr → Heap Block → Heap Block × Option Object
unfolding alloc_location object_range_create range_create
range_at offset size h =
    let (h', loc) = alloc_location h in
    (h', some (object_range_create offset (range_create size loc)))

-- The part of the object below an offset; `none` is NULL. The size of a range is made of `excl_up`
-- itself, which the caller may free.
unfoldable pub object_upto : Object → Expr → Heap Block → Run (Heap Block × Option Object)
unfolding object_lower object_upper value_at range_at
object_upto obj excl_up h = do
  up ← object_upper obj
  lw ← ast_expr_copy (object_lower obj)
  excl ← ast_expr_copy excl_up
  up' ← ast_expr_copy up
  e0 ← ast_expr_matheval (binary lw op_le excl)
  e1 ← ast_expr_matheval (binary lw op_eq excl)
  e2 ← ast_expr_matheval (binary up' op_eq excl)
  assert e0
  if e1
      then ok (h, none)
      else (if e2
          then (do same ← value_at obj (object_lower obj); ok (h, some same))
          else ok (range_at lw (binary excl_up op_subtraction (object_lower obj)) h))

-- The part of the object from an offset on.
unfoldable pub object_from : Object → Expr → Heap Block → Run (Heap Block × Option Object)
unfolding object_lower object_upper value_at range_at
object_from obj incl_lw h = do
  up ← object_upper obj
  incl ← ast_expr_copy incl_lw
  up' ← ast_expr_copy up
  lw ← ast_expr_copy (object_lower obj)
  e0 ← ast_expr_matheval (binary incl op_ge up')
  e1 ← ast_expr_matheval (binary incl op_eq lw)
  if e0
      then ok (h, none)
      else (if e1
          then (do same ← value_at obj incl_lw; ok (h, some same))
          else ok (range_at incl (binary up op_subtraction incl) h))

-- `if (obj) { object_arr_insert(b->arr, index++, obj); }`
unfoldable pub insert_if : Option Object → Block → ℕ → Run (Block × ℕ)
insert_if none b index = ok (b, index)
insert_if (some obj) b index = do ok ((← object_arr_insert b index obj), suc index)

-- What the part below is when the `lw` that it was made of has been freed.
unfoldable pub with_freed_size : Option Object → Option Object
with_freed_size (some (deallocand_range offset r)) =
    some (deallocand_range offset (record r { size = none }))
with_freed_size part = part

-- The end of `block_observe`: the range is replaced by its part below the offset, a value object
-- that points at a new block, and its part above. The block, the heap and the index of the object.
unfoldable pub split_range : Block → ℕ → Object → Expr → Heap Block → Run (Block × Heap Block × ℕ)
unfolding object_upto object_from state_alloc object_dealloc insert_if with_freed_size
split_range b index obj offset h = do
  lw ← ast_expr_copy offset
  base ← ast_expr_copy offset
  (h1, upto) ← object_upto obj lw h
  lw' ← ast_expr_copy lw
  let (h2, v) = state_alloc h1
  (h3, from) ← object_from obj (binary base op_addition (ast_expr_constant_create (pos 1))) h2
  (h4, err) ← object_dealloc obj h3
  assert (not (is_some err))
  b1 ← object_arr_remove b index
  (b2, at) ← insert_if (with_freed_size upto) b1 index
  b3 ← object_arr_insert b2 at (assigned lw' v)
  (b4, after) ← insert_if from b3 (suc at)
  ok (b4, h4, at)

-- The object has been found at the index: a value as it is, a range after it is split.
unfoldable pub observe_at :
    Block → Expr → Heap Block → ℕ → Option Object → Run (Block × Heap Block × Option ℕ)
unfolding split_range object_isvalue
observe_at b offset h index none = abort
observe_at b offset h index (some obj) =
    if object_isvalue obj
    then ok (b, h, some index)
    else (do (b', h', at) ← split_range b index obj offset h; ok (b', h', some at))

-- The object at the offset: `none` is NULL.
unfoldable pub block_observe :
    Block → Expr → Heap Block → Bool → Run (Block × Heap Block × Option ℕ)
unfolding observe_at
block_observe b offset h constructive = do
  found ← object_arr_index b offset
  elim found [
    | none ↦
        if constructive
        then (do
          o ← ast_expr_copy offset
          b' ← object_arr_append b (unassigned o)
          ok (b', h, some (length b)))
        else ok (b, h, none)
    | some index ↦ observe_at b offset h index (get_elem? b index)
  ]

unfoldable pub block_range_alloc : Block → Expr → Expr → Heap Block → Run (Block × Heap Block)
unfolding alloc_location object_range_create range_create
block_range_alloc b lw up h = do
  assert (length b == 0)
  lw1 ← ast_expr_copy lw
  up' ← ast_expr_copy up
  lw2 ← ast_expr_copy lw
  let (h', loc) = alloc_location h
  b' ←
      object_arr_append b
        (object_range_create lw1 (range_create (binary up' op_subtraction lw2) loc))
  ok (b', h')
